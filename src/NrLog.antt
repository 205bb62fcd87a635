-- ===== src/NrLog.antt =====
-- exec/log.rs, `NrLog::find_min_local_version`: the search for the replica that is farthest behind.
-- The atomic loads are interleaved with the other replicas, so what they return is an argument: the
-- load from `local_versions[i]` returns `loads i`.
pub mod FindMin
use verified_node_replicatio.Prelude.{ℕ, zero, suc, ◌-◌, if◌then◌else◌, ltb}

-- The `while` loop, `n` passes before `idx` is `num_replicas`.
unfoldable pub find_min_loop : (ℕ → ℕ) → ℕ → ℕ → ℕ → ℕ
find_min_loop loads zero idx min_local_version = min_local_version
find_min_loop loads (suc n) idx min_local_version =
    find_min_loop loads n (suc idx)
      (if ltb (loads idx) min_local_version then loads idx else min_local_version)

unfoldable pub find_min_local_version : (ℕ → ℕ) → ℕ → ℕ
unfolding find_min_loop
find_min_local_version loads num_replicas = find_min_loop loads (num_replicas - 1) 1 (loads 0)
