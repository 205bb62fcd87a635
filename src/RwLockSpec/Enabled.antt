-- ===== src/RwLockSpec/Enabled.antt =====
-- What an enabled transition of spec/rwlock.rs found, and the state that it leaves.
use verified_node_replicatio.Prelude.{
  ℕ, present, suc, ◌-◌, ◌<◌, ◌≡◌, false, some, List, ◌∷◌, get_elem?, insert, arith,
}
use verified_node_replicatio.RwLockSpec
use verified_node_replicatio.RwLockSpec.{State}
use verified_node_replicatio.RwLockSpec.Multiset.{erase, remove_at}

module _ {T : Type 0} where
  pub exc_check_count_lem :
      (s : State T) {t : State T}
      → RwLockSpec.exc_check_count s ≡ some t
      → (r : ℕ) × (s.exc_pending ≡ some r)
        × (s.ref_counts r ≡ some 0)
        × (t ≡ record s { exc_pending = some (suc r) })
  unfolding RwLockSpec.exc_check_count
  exc_check_count_lem s e = ground arith

  pub shared_abandon_lem :
      (r : ℕ) (s : State T) {t : State T}
      → RwLockSpec.shared_abandon r s ≡ some t
      → (rc : ℕ) × (rest : List ℕ) × (s.ref_counts r ≡ some rc)
        × (0 < rc)
        × (erase r (s.shared_pending) ≡ some rest)
        × (t ≡ record s { ref_counts = insert (s.ref_counts) r (rc - 1); shared_pending = rest })
  unfolding RwLockSpec.shared_abandon
  shared_abandon_lem r s e = ground arith

  pub shared_finish_lem :
      (r : ℕ) (s : State T) {t : State T}
      → RwLockSpec.shared_finish r s ≡ some t
      → (rest : List ℕ) × (x : T) × (s.exc_locked ≡ false)
        × (erase r (s.shared_pending) ≡ some rest)
        × (s.storage ≡ some x)
        × (t ≡ record s { shared_pending = rest; shared_guard = (r, x) ∷ s.shared_guard })
  unfolding RwLockSpec.shared_finish
  shared_finish_lem r s e = ground arith

  pub shared_release_lem :
      (i : ℕ) (s : State T) {t : State T}
      → RwLockSpec.shared_release i s ≡ some t
      → (val : ℕ × T) × (rc : ℕ) × (get_elem? (s.shared_guard) i ≡ some val)
        × (s.ref_counts val.0 ≡ some rc)
        × (t ≡ record s {
          shared_guard = remove_at i (s.shared_guard);
          ref_counts = insert (s.ref_counts) val.0 (rc - 1);
        })
  unfolding RwLockSpec.shared_release
  shared_release_lem i s e =
      let (val, g) = present (get_elem? (s.shared_guard) i) (λ h. ground arith) in
      let (rc, c) = present (s.ref_counts val.0) (λ h. ground arith) in
      (val, rc, g, c, ground arith)
