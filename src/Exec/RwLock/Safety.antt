-- ===== src/Exec/RwLock/Safety.antt =====
-- exec/rwlock.rs: what the lock guarantees to its callers.
use mathlib.Core.Path.{subst}
use verified_node_replicatio.Prelude.{
  ℕ, ◌+◌, ◌≤◌, ◌<◌, ◌≡◌, ◌≢◌, ◌==◌, true, false, some, refl, sym, ap, get_elem?, set_at, total,
  le-total, pair-le-total, arith, ◌∙◌, inl, inr,
}
use verified_node_replicatio.RwLockSpec.{State}
use verified_node_replicatio.RwLockSpec.Multiset.{filter_r}
use verified_node_replicatio.RwLockSpec.Safety
use verified_node_replicatio.RwLockSpec.Safety.{Reachable-Inv, inited, stepped}
use verified_node_replicatio.Exec.RwLock
use verified_node_replicatio.Exec.RwLock.{
  RwLock, Point, write_held, read_load, read_add, read_held, panicked, max_rc,
}
use verified_node_replicatio.Exec.RwLock.System
use verified_node_replicatio.Exec.RwLock.System.{
  System, Action, step, run_point, Reachable, started, Allowed, act,
}
use verified_node_replicatio.Exec.RwLock.Refinement.{Refines, guard_at, pending_at, writer, flag-le}
use verified_node_replicatio.Exec.RwLock.Refinement.Simulation.{step-Refines, act-Matched}
use verified_node_replicatio.Exec.RwLock.Refinement.Tokens.{guard_of_lane}
use verified_node_replicatio.Exec.RwLock.Start.{start-Refines}

module _ {T : Type 0} where
  -- Every reachable lock with its callers refines a reachable state of the specification.
  pub Reachable-Refines :
      {y : System T} → Reachable y → (s : State T) × Safety.Reachable s × Refines y s
  Reachable-Refines (started n rc_width t inv pos ok) =
      let (s, e, h) = start-Refines n rc_width t inv pos ok in (s, inited rc_width t inv e, h)
  Reachable-Refines (System.stepped {y} {z} i a r e) =
      let (s, reach, h) = Reachable-Refines r in
      let (s', sim, h') = step-Refines i a h (Reachable-Inv reach) e in
      elim sim [
        | inl same ↦ (s, reach, subst (Refines z) same h')
        | inr move ↦ (s', stepped move.0 reach move.1, h')
      ]

  -- In a reachable system every caller can do what it may do, run its next operation, call a method or
  -- release its guard: no index is out of range, nothing is taken from an empty cell or put into a full one.
  pub Allowed-enabled :
      {y : System T} (i : ℕ) (a : Action T) {p : Point T}
      → Reachable y
      → get_elem? (y.threads) i ≡ some p
      → Allowed a p (y.lock)
      → (z : System T) × (step i a y ≡ some z)
  unfolding step
  Allowed-enabled {y} i a {p} r at ok =
      let (s, reach, h) = Reachable-Refines r in
      let (l, q, s', e, sim, m) = act-Matched h (Reachable-Inv reach) i a p at ok in
      (record { lock = l; threads = set_at (y.threads) i q }, rw (at, e) refl)

  -- In a reachable system, where one caller holds the write guard no other holds a guard.
  pub write_held-alone :
      {y : System T} (i j : ℕ) {t : T} {p : Point T}
      → Reachable y
      → get_elem? (y.threads) i ≡ some (write_held t)
      → get_elem? (y.threads) j ≡ some p
      → i ≢ j
      → ((u : T) → p ≢ write_held u) × ((tid : ℕ) → p ≢ read_held tid)
  write_held-alone {y} i j {p = p} r at bt ne =
      let (s, reach, h) = Reachable-Refines r in
      let differ : (i == j) ≡ false = ground arith in
      let out = Safety.exclusive reach (h.fits i _ at) in
      (
        λ u e.
            let one : writer p ≡ 1 = rw e refl in
            omega (
              arith,
              h.writers,
              flag-le ((y.lock).exc_locked),
              pair-le-total writer (y.threads) i j differ at bt,
            ),
        λ tid e.
            let one : guard_at tid p ≡ 1 = rw e (ground arith) in
            let there : 0 < filter_r (s.shared_guard) tid =
              omega (arith, h.guards tid, le-total (guard_at tid) (y.threads) j bt) in
            let none_out : filter_r (s.shared_guard) tid ≡ 0 = ap (λ g. filter_r g tid) out in
            omega arith,
      )

  -- In a reachable system the holder of a read guard borrows a value that has the user's invariant.
  pub read_held-borrow :
      {y : System T} (i : ℕ) {tid : ℕ}
      → Reachable y
      → get_elem? (y.threads) i ≡ some (read_held tid)
      → (x : T) × (RwLock.borrow (y.lock) ≡ some x) × ((y.lock).user_inv x ≡ true)
  unfolding RwLock.borrow
  read_held-borrow {y} i {tid} r at =
      let (s, reach, h) = Reachable-Refines r in
      let mine : guard_at {T = T} tid (read_held tid) ≡ 1 = ground arith in
      let (k, x, g) =
        guard_of_lane (s.shared_guard) tid
          (omega (arith, h.guards tid, le-total (guard_at tid) (y.threads) i at)) in
      let (st, ok) = Safety.do_guard k reach g in (x, sym (h.storage) ∙ st, rw (← h.user_inv) ok)

  -- In a reachable system the count of a lane is the number of callers with a pending or a granted read
  -- of the lane, and at most `MAX_RC`.
  pub ref_counts-bounded :
      {y : System T} (r n : ℕ)
      → Reachable y
      → get_elem? ((y.lock).ref_counts) r ≡ some n
      → (n ≡ total (pending_at r) (y.threads) + total (guard_at r) (y.threads)) × (n ≤ max_rc)
  ref_counts-bounded {y} r n reach e =
      let (s, sr, h) = Reachable-Refines reach in
      let eq : n ≡ total (pending_at r) (y.threads) + total (guard_at r) (y.threads) = omega (
        arith,
        (Reachable-Inv sr).shared_counts_agree r n (h.counts r ∙ e),
        h.pending r,
        h.guards r,
      ) in
      (eq, h.max r n e)
