-- ===== src/RwLockSpec/Safety.antt =====
-- spec/rwlock.rs: what the lock guarantees, `do_guard`, `rc_not_zero_guard` and the assertions in the
-- transitions.
use verified_node_replicatio.Prelude.{
  ℕ, ◌<◌, ◌≤◌, ◌≡◌, ◌≢◌, ◌⊎◌, refl, present, Bool, true, none, some, List, [], ◌∷◌, get_elem?, inl,
  inr, arith,
}
use verified_node_replicatio.RwLockSpec
use verified_node_replicatio.RwLockSpec.{State}
use verified_node_replicatio.RwLockSpec.Inv.{Inv}
use verified_node_replicatio.RwLockSpec.Multiset.{count, filter_r-lt}
use verified_node_replicatio.RwLockSpec.Next.{Action, step}
use verified_node_replicatio.RwLockSpec.Preserve.{initialize-Inv, lock_step-Inv}

module _ {T : Type 0} where
  -- The states that the lock reaches from an initial one.
  pub data Reachable : State T → Type 0 where
    inited :
        (rc_width : ℕ) (init_t : T) (user_inv : T → Bool) {s : State T}
        → RwLockSpec.initialize rc_width init_t user_inv ≡ some s
        → Reachable s
    stepped : {s t : State T} (a : Action T) → Reachable s → step a s ≡ some t → Reachable t

  -- Every reachable state has the invariants.
  pub Reachable-Inv : {s : State T} → Reachable s → Inv s
  Reachable-Inv (inited rc_width init_t user_inv e) = initialize-Inv rc_width init_t user_inv e
  Reachable-Inv (stepped {s} a r e) = lock_step-Inv a s (Reachable-Inv r) e

  -- In a reachable state with the exclusive guard out there is no shared guard.
  pub exclusive : {s : State T} → Reachable s → s.exc_guard ≢ none → s.shared_guard ≡ []
  exclusive {s} r held = go (s.shared_guard) (λ i v. (Reachable-Inv r).shared_inv_agree i v)
    where
      go :
          (g : List (ℕ × T))
          → ((i : ℕ) (v : ℕ × T) → get_elem? g i ≡ some v → s.storage ≡ some v.1)
          → g ≡ []
      go [] h = refl
      go (v ∷ g) h = absurd (ground (arith, h 0 v refl, (Reachable-Inv r).stored))

  -- In a reachable state the shared guards hold the stored value, which has the user's invariant
  -- (`do_guard`).
  pub do_guard :
      {s : State T} (i : ℕ) {v : ℕ × T}
      → Reachable s
      → get_elem? (s.shared_guard) i ≡ some v
      → (s.storage ≡ some v.1) × (s.user_inv v.1 ≡ true)
  do_guard i {v} r g =
      let inv = Reachable-Inv r in
      let st = inv.shared_inv_agree i v g in (st, inv.sto_user_inv v.1 st)

  -- In a reachable state a lane with a pending or a granted shared access has a positive count
  -- (`rc_not_zero_guard`, and the assertion of `shared_release`).
  pub rc_not_zero :
      {s : State T} {r rc : ℕ}
      → Reachable s
      → s.ref_counts r ≡ some rc
      → (0 < count r (s.shared_pending))
        ⊎ ((i : ℕ) × (x : T) × (get_elem? (s.shared_guard) i ≡ some (r, x)))
      → 0 < rc
  rc_not_zero {r} {rc} reach c (inl p) =
      omega (arith, (Reachable-Inv reach).shared_counts_agree r rc c)
  rc_not_zero {s} {r} {rc} reach c (inr (i, x, g)) =
      omega
        (arith, (Reachable-Inv reach).shared_counts_agree r rc c, filter_r-lt (s.shared_guard) i g)

  -- In a reachable state where the writer has passed every lane, `exc_finish` is enabled: it withdraws
  -- a value with the user's invariant, and no shared guard is out.
  pub exc_finish-enabled :
      {s : State T}
      → Reachable s
      → s.exc_pending ≡ some (s.rc_width)
      → (x : T) × (t : State T) × (RwLockSpec.exc_finish s ≡ some t)
        × (s.storage ≡ some x)
        × (s.user_inv x ≡ true)
        × (s.shared_guard ≡ [])
  unfolding RwLockSpec.exc_finish
  exc_finish-enabled {s} r p =
      let inv = Reachable-Inv r in
      let (x, st) =
        present (s.storage) (λ h. ground (arith, inv.stored, inv.pending_alone (s.rc_width) p)) in
      let t = record s { exc_pending = none; exc_guard = some tt; storage = none } in
      let none_out : s.shared_guard ≡ [] =
        go (s.shared_guard) (λ i v g. inv.pending_passed (s.rc_width) i v p g)
          (inv.shared_guard_in_range) in
      (x, t, ground arith, st, inv.sto_user_inv x st, none_out)
    where
      go :
          (g : List (ℕ × T))
          → ((i : ℕ) (v : ℕ × T) → get_elem? g i ≡ some v → s.rc_width ≤ v.0)
          → ((i : ℕ) (v : ℕ × T) → get_elem? g i ≡ some v → v.0 < s.rc_width)
          → g ≡ []
      go [] h k = refl
      go (v ∷ g) h k = absurd (omega (arith, h 0 v refl, k 0 v refl))
