-- ===== src/Exec/Log/AdvanceHead.antt =====
-- exec/log.rs, `NrLog::advance_head`, on fuel: a pass of the loop takes one.
pub mod Terminates
use verified_node_replicatio.Prelude.{
  ℕ, zero, suc, ◌+◌, ◌-◌, ◌==◌, Option, none, some, true, false, get_elem?, length, ltb, ◌>>=◌,
  List,
}
use verified_node_replicatio.Dispatch.{Dispatch}
use verified_node_replicatio.NrLog.{find_min_local_version}
use verified_node_replicatio.Exec.Constants.{wrapping_add, wrapping_sub, gc_from_head}
use verified_node_replicatio.Exec.Log.{Run, execute}

-- A load of `local_versions[i]`; the loop stays in range.
abbrev pub load : List ℕ → ℕ → ℕ
load versions i = elim (get_elem? versions i) [ none ↦ 0 | some v ↦ v ]

module _ {dt : Dispatch} where
  -- The store of `head`.
  unfoldable pub set_head : ℕ → Run dt → Run dt
  set_head min_local_version run = record run {
    log = record (run.log) { head = min_local_version };
  }

  unfoldable pub advance_head : ℕ → ℕ → Run dt → Option (Run dt)
  unfolding set_head
  advance_head zero nid run = none
  advance_head (suc fuel) nid run =
      let versions = (run.log).local_versions in
      let global_head = (run.log).head in
      let global_tail = (run.log).tail in
      let min_local_version = find_min_local_version (load versions) (length versions) in
      elim (min_local_version == global_head) [
        | true ↦ execute dt nid run >>= advance_head fuel nid
        | false ↦
            elim (ltb global_tail
              (wrapping_sub (wrapping_add min_local_version ((run.log).slog_len)) gc_from_head)) [
                | true ↦ some (set_head min_local_version run)
                | false ↦ execute dt nid (set_head min_local_version run) >>= advance_head fuel nid
              ]
      ]
