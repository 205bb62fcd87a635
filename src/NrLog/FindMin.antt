-- ===== src/NrLog/FindMin.antt =====
-- exec/log.rs, `NrLog::find_min_local_version` finds a least one of the versions that it loads.
use verified_node_replicatio.Prelude.{
  ℕ, zero, suc, ◌+◌, ◌-◌, ◌≤◌, ◌<◌, ◌≡◌, ◌⊎◌, inl, inr, refl, Bool-cases, if◌then◌else◌, ltb, arith,
}
use native.Mathlib.Decide.{dec_lt}
use verified_node_replicatio.NrLog.{find_min_loop, find_min_local_version}

loop-le_min : (loads : ℕ → ℕ) (n idx m : ℕ) → find_min_loop loads n idx m ≤ m
unfolding find_min_loop
loop-le_min loads zero idx m = omega arith
loop-le_min loads (suc n) idx m =
    let next = if ltb (loads idx) m then loads idx else m in
    ground (arith, loop-le_min loads n (suc idx) next)

loop-le :
    (loads : ℕ → ℕ) (n idx m i : ℕ) → idx ≤ i → i < idx + n → find_min_loop loads n idx m ≤ loads i
unfolding find_min_loop
loop-le loads zero idx m i lo hi = absurd (omega arith)
loop-le loads (suc n) idx m i lo hi =
    let next = if ltb (loads idx) m then loads idx else m in
    elim (dec_lt idx i) [
      | yes later ↦ loop-le loads n (suc idx) next i (omega arith) (omega arith)
      | no here ↦
          let same : i ≡ idx = omega arith in
          rw same (ground (arith, loop-le_min loads n (suc idx) next))
    ]

-- The result of the loop is the minimum so far, or one of the loads to come.
loop-found :
    (loads : ℕ → ℕ) (n idx m : ℕ)
    → (find_min_loop loads n idx m ≡ m)
      ⊎ ((i : ℕ) × (i < idx + n) × (find_min_loop loads n idx m ≡ loads i))
unfolding find_min_loop
loop-found loads zero idx m = inl refl
loop-found loads (suc n) idx m =
    elim (loop-found loads n (suc idx) (if ltb (loads idx) m then loads idx else m)) [
      | inl kept ↦ elim (Bool-cases (ltb (loads idx) m)) [
        | inl less ↦ inr (idx, omega arith, ground arith)
        | inr more ↦ inl (ground arith)
      ]
      | inr (i, lt, e) ↦ inr (i, omega arith, e)
    ]

-- With at least one replica, the result is at most every version that is loaded, and so at most the
-- present version of each replica if versions have only grown since the loads; and it is one of the
-- loaded versions.
pub find_min_local_version-least :
    (loads versions : ℕ → ℕ) (num_replicas : ℕ)
    → 0 < num_replicas
    → ((i : ℕ) → loads i ≤ versions i)
    → ((i : ℕ) → i < num_replicas → find_min_local_version loads num_replicas ≤ versions i)
      × ((i : ℕ) × (i < num_replicas) × (find_min_local_version loads num_replicas ≡ loads i))
unfolding find_min_local_version
find_min_local_version-least loads versions num_replicas pos grown = (below, found)
  where
    below :
        (i : ℕ) → i < num_replicas → find_min_loop loads (num_replicas - 1) 1 (loads 0) ≤ versions i
    below zero lt = omega (arith, loop-le_min loads (num_replicas - 1) 1 (loads 0), grown 0)
    below (suc i) lt = omega (
      arith,
      loop-le loads (num_replicas - 1) 1 (loads 0) (suc i) (omega arith) (omega arith),
      grown (suc i),
    )

    found :
        (i : ℕ) × (i < num_replicas)
        × (find_min_loop loads (num_replicas - 1) 1 (loads 0) ≡ loads i)
    found = elim (loop-found loads (num_replicas - 1) 1 (loads 0)) [
      | inl first ↦ (0, pos, first)
      | inr (i, lt, e) ↦ (i, omega arith, e)
    ]
