-- ===== src/RwLockSpec/Inv.antt =====
-- spec/rwlock.rs: the invariants of the lock.
use verified_node_replicatio.Prelude.{
  ℕ, ◌+◌, ◌≤◌, ◌<◌, ◌≡◌, ◌≢◌, true, ◌||◌, none, some, get_elem?, is_none, is_some,
}
use verified_node_replicatio.RwLockSpec.{State}
use verified_node_replicatio.RwLockSpec.Multiset.{count, filter_r}

module _ {T : Type 0} where
  pub record Inv (s : State T) : Type 0 where
    pub sto_user_inv : (t : T) → s.storage ≡ some t → s.user_inv t ≡ true
    pub width : 0 < s.rc_width
    pub domain_to : (i : ℕ) → i < s.rc_width → s.ref_counts i ≢ none
    pub domain_from : (i n : ℕ) → s.ref_counts i ≡ some n → i < s.rc_width
    pub locked : s.exc_locked ≡ (is_some (s.exc_pending) || is_some (s.exc_guard))
    pub stored : is_some (s.storage) ≡ is_none (s.exc_guard)
    pub pending_le : (r : ℕ) → s.exc_pending ≡ some r → r ≤ s.rc_width
    pub pending_alone : (r : ℕ) → s.exc_pending ≡ some r → s.exc_guard ≡ none
    pub pending_passed :
        (r i : ℕ) (v : ℕ × T)
        → s.exc_pending ≡ some r
        → get_elem? (s.shared_guard) i ≡ some v
        → r ≤ v.0
    pub shared_pending_in_range : (r : ℕ) → 0 < count r (s.shared_pending) → r < s.rc_width
    pub shared_guard_in_range :
        (i : ℕ) (v : ℕ × T) → get_elem? (s.shared_guard) i ≡ some v → v.0 < s.rc_width
    pub shared_inv_agree :
        (i : ℕ) (v : ℕ × T) → get_elem? (s.shared_guard) i ≡ some v → s.storage ≡ some v.1
    pub shared_counts_agree :
        (r n : ℕ)
        → s.ref_counts r ≡ some n
        → n ≡ count r (s.shared_pending) + filter_r (s.shared_guard) r
