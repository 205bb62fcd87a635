-- ===== src/Exec/RwLock/Refinement/Simulation.antt =====
-- exec/rwlock.rs: every step of the callers against spec/rwlock.rs.
use mathlib.Core.Path.{subst}
use verified_node_replicatio.Prelude.{
  ℕ, ◌<◌, ◌≡◌, ◌==◌, true, some, refl, inl, get_elem?, length, set_at, le-total, ltb, if◌then◌else◌,
  present, arith,
}
use verified_node_replicatio.RwLockSpec.{State}
use verified_node_replicatio.RwLockSpec.Inv.{Inv}
use verified_node_replicatio.RwLockSpec.Multiset.{count, filter_r}
use verified_node_replicatio.Exec.RwLock.{
  Point, idle, write_lock, write_wait, write_held, read_load, read_add, read_check, read_undo,
  read_held, panicked,
}
use verified_node_replicatio.Exec.RwLock.System.{System}
use verified_node_replicatio.Exec.RwLock.Refinement.{pending_at, guard_at, Refines}
use verified_node_replicatio.Exec.RwLock.Refinement.Steps.{Simulates, Matched, stays}
use verified_node_replicatio.Exec.RwLock.System.{Action, run_point, act, act-Allowed, Allowed, step}
use verified_node_replicatio.Exec.RwLock.Refinement.Moves.{moved}
use verified_node_replicatio.Exec.RwLock.Refinement.Writes.{
  acquire_write_lock-Matched, acquire_write_wait-Matched, release_write-Matched,
}
use verified_node_replicatio.Exec.RwLock.Refinement.Reads.{
  acquire_read_load-Matched, acquire_read_add-Matched, acquire_read_check-Matched,
  acquire_read_undo-Matched, release_read-Matched,
}

one_at : (r : ℕ) → ◌≡◌ {A = ℕ} (if r == r then 1 else 0) 1
one_at r = ground arith

module _ {T : Type 0} {y : System T} {s : State T} (h : Refines y s) (inv : Inv s) where
  holds_pending :
      (i : ℕ) {p : Point T} (r : ℕ)
      → get_elem? (y.threads) i ≡ some p
      → pending_at r p ≡ 1
      → 0 < count r (s.shared_pending)
  holds_pending i r at one = omega (arith, h.pending r, le-total (pending_at r) (y.threads) i at)

  holds_guard :
      (i : ℕ) {p : Point T} (r : ℕ)
      → get_elem? (y.threads) i ≡ some p
      → guard_at r p ≡ 1
      → 0 < filter_r (s.shared_guard) r
  holds_guard i r at one = omega (arith, h.guards r, le-total (guard_at r) (y.threads) i at)

  -- The next operation of a caller has a result, and the specification follows it.
  pub run_point-Matched :
      (i : ℕ) (p : Point T)
      → get_elem? (y.threads) i ≡ some p
      → Matched (y.lock) s p (run_point p (y.lock))
  unfolding run_point
  run_point-Matched i idle at =
      (y.lock, idle, s, refl, inl refl, stays h (λ r. refl) (λ r. refl) refl (inv.width))
  run_point-Matched i write_lock at = acquire_write_lock-Matched h inv
  run_point-Matched i (write_wait idx) at = acquire_write_wait-Matched h inv (h.fits i _ at)
  run_point-Matched i (write_held t) at = (
    y.lock,
    write_held t,
    s,
    refl,
    inl refl,
    stays h (λ r. refl) (λ r. refl) refl (h.fits i _ at),
  )
  run_point-Matched i (read_load tid) at = acquire_read_load-Matched h inv (h.fits i _ at)
  run_point-Matched i (read_add tid rc) at = acquire_read_add-Matched h inv (h.fits i _ at)
  run_point-Matched i (read_check tid) at =
      acquire_read_check-Matched h inv (h.fits i _ at) (holds_pending i tid at (one_at tid))
  run_point-Matched i (read_undo tid) at =
      acquire_read_undo-Matched h inv (h.fits i _ at) (holds_pending i tid at (one_at tid))
  run_point-Matched i (read_held tid) at = (
    y.lock,
    read_held tid,
    s,
    refl,
    inl refl,
    stays h (λ r. refl) (λ r. refl) refl (h.fits i _ at),
  )
  run_point-Matched i panicked at =
      (y.lock, panicked, s, refl, inl refl, stays h (λ r. refl) (λ r. refl) refl (inv.width))

  -- An action that is allowed has a result, and the specification follows it.
  pub act-Matched :
      (i : ℕ) (a : Action T) (p : Point T)
      → get_elem? (y.threads) i ≡ some p
      → Allowed a p (y.lock)
      → Matched (y.lock) s p (act a p (y.lock))
  unfolding act
  act-Matched i Action.run p at ok = run_point-Matched i p at
  act-Matched i Action.acquire_write idle at ok =
      (y.lock, write_lock, s, refl, inl refl, stays h (λ r. refl) (λ r. refl) refl (inv.width))
  act-Matched i (Action.acquire_read tid) idle at ok =
      let lane : ltb tid (length ((y.lock).ref_counts)) ≡ true = ground arith in
      (
        y.lock,
        read_load tid,
        s,
        rw lane refl,
        inl refl,
        stays h (λ r. refl) (λ r. refl) refl (ground (arith, h.width)),
      )
  act-Matched i (Action.release_write val) (write_held t) at ok =
      rw ok (release_write-Matched h inv (h.fits i _ at) ok)
  act-Matched i Action.release_read (read_held tid) at ok =
      release_read-Matched h inv (h.fits i _ at) (holds_guard i tid at (one_at tid))
  act-Matched i a p at ok = elim ok [ ]

module _ {T : Type 0} where
  -- From a lock and callers that refine a state of the specification with its invariants, every step of a
  -- caller leads to a lock and callers that refine the same state, or one a step of the specification
  -- further.
  pub step-Refines :
      {y z : System T} {s : State T} (i : ℕ) (a : Action T)
      → Refines y s
      → Inv s
      → step i a y ≡ some z
      → (s' : State T) × Simulates s s' × Refines z s'
  unfolding step
  step-Refines {y} {z} {s} i a h inv e =
      let (p, at) = present (get_elem? (y.threads) i) (λ gone. cc (rw gone at e)) in
      let (l, q, s', r, sim, m) =
        act-Matched h inv i a p at (act-Allowed a p (y.lock) (λ stuck. cc (rw (at, stuck) at e))) in
      let y' : System T = record { lock = l; threads = set_at (y.threads) i q } in
      let same : y' ≡ z = ground (arith) in
      (s', sim, subst (λ w. Refines w s') same (moved y s i h at m))
