-- ===== src/RwLockSpec/Preserve.antt =====
-- spec/rwlock.rs: the `…_inductive` proofs of the invariants.
use verified_node_replicatio.Prelude.{ℕ, ◌≡◌, Bool, some, arith}
use verified_node_replicatio.RwLockSpec
use verified_node_replicatio.RwLockSpec.{State}
use verified_node_replicatio.RwLockSpec.Next.{Action, step}
use verified_node_replicatio.RwLockSpec.Inv.{Inv}
use verified_node_replicatio.RwLockSpec.Enabled.{
  exc_check_count_lem, shared_abandon_lem, shared_finish_lem, shared_release_lem,
}
use verified_node_replicatio.RwLockSpec.Multiset.{
  filter_r-lt, filter_r-remove_at, get_elem?-remove_at, get_elem?-cons, count-erase,
}

module _ {T : Type 0} where
  pub initialize-Inv :
      (rc_width : ℕ) (init_t : T) (user_inv : T → Bool) {s : State T}
      → RwLockSpec.initialize rc_width init_t user_inv ≡ some s
      → Inv s
  unfolding RwLockSpec.initialize
  initialize-Inv rc_width init_t user_inv e = grind arith

  exc_start-Inv : (s : State T) {t : State T} → Inv s → RwLockSpec.exc_start s ≡ some t → Inv t
  unfolding RwLockSpec.exc_start
  exc_start-Inv s inv e = grind arith

  exc_check_count-Inv :
      (s : State T) {t : State T} → Inv s → RwLockSpec.exc_check_count s ≡ some t → Inv t
  exc_check_count-Inv s inv e =
      let (r, p, c, eq) = exc_check_count_lem s e in
      rw eq (record {
        sto_user_inv = inv.sto_user_inv;
        width = inv.width;
        domain_to = inv.domain_to;
        domain_from = inv.domain_from;
        locked = ground (arith, inv.locked);
        stored = inv.stored;
        pending_le = λ q f. ground (arith, inv.domain_from r 0 c);
        pending_alone = λ q f. inv.pending_alone r p;
        pending_passed = λ q i v f g. ground (
          arith,
          inv.pending_passed r i v p g,
          inv.shared_counts_agree r 0 c,
          filter_r-lt (s.shared_guard) i g,
        );
        shared_pending_in_range = inv.shared_pending_in_range;
        shared_guard_in_range = inv.shared_guard_in_range;
        shared_inv_agree = inv.shared_inv_agree;
        shared_counts_agree = inv.shared_counts_agree;
      })

  exc_finish-Inv : (s : State T) {t : State T} → Inv s → RwLockSpec.exc_finish s ≡ some t → Inv t
  unfolding RwLockSpec.exc_finish
  exc_finish-Inv s inv e = grind arith

  exc_release-Inv :
      (x : T) (s : State T) {t : State T} → Inv s → RwLockSpec.exc_release x s ≡ some t → Inv t
  unfolding RwLockSpec.exc_release
  exc_release-Inv x s inv e = grind arith

  shared_start-Inv :
      (r : ℕ) (s : State T) {t : State T} → Inv s → RwLockSpec.shared_start r s ≡ some t → Inv t
  unfolding RwLockSpec.shared_start
  shared_start-Inv r s inv e = grind arith

  shared_abandon-Inv :
      (r : ℕ) (s : State T) {t : State T} → Inv s → RwLockSpec.shared_abandon r s ≡ some t → Inv t
  shared_abandon-Inv r s inv e =
      let (rc, rest, c, pos, gone, eq) = shared_abandon_lem r s e in
      rw eq (record {
        sto_user_inv = inv.sto_user_inv;
        width = inv.width;
        domain_to = λ i lt. ground (arith, inv.domain_to i lt);
        domain_from = λ i n f. ground (arith, inv.domain_from i n, inv.domain_from r rc c);
        locked = inv.locked;
        stored = inv.stored;
        pending_le = inv.pending_le;
        pending_alone = inv.pending_alone;
        pending_passed = inv.pending_passed;
        shared_pending_in_range = λ k lt.
            ground (arith, inv.shared_pending_in_range k, count-erase (s.shared_pending) r k gone);
        shared_guard_in_range = inv.shared_guard_in_range;
        shared_inv_agree = inv.shared_inv_agree;
        shared_counts_agree = λ k n f. ground (
          arith,
          inv.shared_counts_agree k n,
          inv.shared_counts_agree r rc c,
          count-erase (s.shared_pending) r k gone,
          count-erase (s.shared_pending) r r gone,
        );
      })

  shared_finish-Inv :
      (r : ℕ) (s : State T) {t : State T} → Inv s → RwLockSpec.shared_finish r s ≡ some t → Inv t
  shared_finish-Inv r s inv e =
      let (rest, x, free, gone, st, eq) = shared_finish_lem r s e in
      rw eq (record {
        sto_user_inv = inv.sto_user_inv;
        width = inv.width;
        domain_to = inv.domain_to;
        domain_from = inv.domain_from;
        locked = inv.locked;
        stored = inv.stored;
        pending_le = inv.pending_le;
        pending_alone = inv.pending_alone;
        pending_passed = λ q i v f g. absurd (ground (arith, inv.locked));
        shared_pending_in_range = λ k lt.
            ground (arith, inv.shared_pending_in_range k, count-erase (s.shared_pending) r k gone);
        shared_guard_in_range =
            get_elem?-cons (r, x) (s.shared_guard)
              (inv.shared_pending_in_range r
                (ground (arith, count-erase (s.shared_pending) r r gone)))
              (inv.shared_guard_in_range);
        shared_inv_agree = get_elem?-cons (r, x) (s.shared_guard) st (inv.shared_inv_agree);
        shared_counts_agree = λ k n f.
            ground (arith, inv.shared_counts_agree k n f, count-erase (s.shared_pending) r k gone);
      })

  shared_release-Inv :
      (i : ℕ) (s : State T) {t : State T} → Inv s → RwLockSpec.shared_release i s ≡ some t → Inv t
  shared_release-Inv i s inv e =
      let (val, rc, g, c, eq) = shared_release_lem i s e in
      rw eq (record {
        sto_user_inv = inv.sto_user_inv;
        width = inv.width;
        domain_to = λ k lt. ground (arith, inv.domain_to k lt);
        domain_from = λ k n f. ground (arith, inv.domain_from k n, inv.domain_from val.0 rc c);
        locked = inv.locked;
        stored = inv.stored;
        pending_le = inv.pending_le;
        pending_alone = inv.pending_alone;
        pending_passed = λ q j v f h.
            let (k, old) = get_elem?-remove_at (s.shared_guard) i j h in
            inv.pending_passed q k v f old;
        shared_pending_in_range = inv.shared_pending_in_range;
        shared_guard_in_range = λ j v h.
            let (k, old) = get_elem?-remove_at (s.shared_guard) i j h in
            inv.shared_guard_in_range k v old;
        shared_inv_agree = λ j v h.
            let (k, old) = get_elem?-remove_at (s.shared_guard) i j h in
            inv.shared_inv_agree k v old;
        shared_counts_agree = λ k n f. ground (
          arith,
          inv.shared_counts_agree k n,
          inv.shared_counts_agree val.0 rc c,
          filter_r-remove_at (s.shared_guard) i k g,
          filter_r-remove_at (s.shared_guard) i val.0 g,
        );
      })

  -- Every transition of the lock keeps its invariants.
  pub lock_step-Inv : (a : Action T) (s : State T) {t : State T} → Inv s → step a s ≡ some t → Inv t
  unfolding step
  lock_step-Inv Action.exc_start s inv e = exc_start-Inv s inv e
  lock_step-Inv Action.exc_check_count s inv e = exc_check_count-Inv s inv e
  lock_step-Inv Action.exc_finish s inv e = exc_finish-Inv s inv e
  lock_step-Inv (Action.exc_release x) s inv e = exc_release-Inv x s inv e
  lock_step-Inv (Action.shared_start r) s inv e = shared_start-Inv r s inv e
  lock_step-Inv (Action.shared_abandon r) s inv e = shared_abandon-Inv r s inv e
  lock_step-Inv (Action.shared_finish r) s inv e = shared_finish-Inv r s inv e
  lock_step-Inv (Action.shared_release i) s inv e = shared_release-Inv i s inv e
