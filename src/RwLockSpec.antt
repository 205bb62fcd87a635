-- ===== src/RwLockSpec.antt =====
-- spec/rwlock.rs: the distributed reader-writer lock, with one reference count for each of `rc_width`
-- lanes. A multiset is a list, whose order no operation reads; a shared guard is given up by its place
-- in that list. `int` is ℕ: the values are indices and counts, and where the source subtracts one it
-- asserts that the count is positive. A transition is `none` where it is not enabled.
pub mod Multiset
pub mod Next
pub mod Inv
pub mod Enabled
pub mod Preserve
pub mod Safety
use verified_node_replicatio.Prelude.{
  ℕ, zero, suc, ◌-◌, ◌==◌, Bool, true, false, not, Option, none, some, List, [], ◌∷◌, get_elem?,
  if◌then◌else◌, ltb, guard, ◌>>=◌, ◌>>◌, Map, insert,
}
use verified_node_replicatio.RwLockSpec.Multiset.{erase, remove_at}

pub record State (T : Type 0) : Type 0 where
  pub user_inv : T → Bool
  pub rc_width : ℕ
  pub storage : Option T
  pub exc_locked : Bool
  pub ref_counts : Map ℕ
  pub exc_pending : Option ℕ
  pub exc_guard : Option (Unit {0})
  pub shared_pending : List ℕ
  pub shared_guard : List (ℕ × T)

module _ {T : Type 0} where
  unfoldable pub initialize : ℕ → T → (T → Bool) → Option (State T)
  initialize rc_width init_t user_inv = do
    guard (ltb 0 rc_width)
    guard (user_inv init_t)
    some (record {
      user_inv = user_inv;
      rc_width = rc_width;
      storage = some init_t;
      exc_locked = false;
      ref_counts = λ i. if ltb i rc_width then some 0 else none;
      exc_pending = none;
      exc_guard = none;
      shared_pending = [];
      shared_guard = [];
    })

  unfoldable pub exc_start : State T → Option (State T)
  exc_start s = do
    guard (not (s.exc_locked))
    some (record s { exc_locked = true; exc_pending = some 0 })

  unfoldable pub exc_check_count : State T → Option (State T)
  exc_check_count s = do
    r ← s.exc_pending
    rc ← s.ref_counts r
    guard (rc == 0)
    some (record s { exc_pending = some (suc r) })

  -- The source leaves the value of an empty `storage` open; here the step is then not enabled, and so
  -- for `shared_finish`.
  unfoldable pub exc_finish : State T → Option (State T)
  exc_finish s = do
    r ← s.exc_pending
    guard (r == s.rc_width)
    x ← s.storage
    some (record s { exc_pending = none; exc_guard = some tt; storage = none })

  unfoldable pub exc_release : T → State T → Option (State T)
  exc_release t s = do
    guard (s.user_inv t)
    s.exc_guard
    some (record s { exc_locked = false; exc_guard = none; storage = some t })

  unfoldable pub shared_start : ℕ → State T → Option (State T)
  shared_start r s = do
    rc ← s.ref_counts r
    some (record s {
      ref_counts = insert (s.ref_counts) r (suc rc);
      shared_pending = r ∷ s.shared_pending;
    })

  unfoldable pub shared_abandon : ℕ → State T → Option (State T)
  shared_abandon r s = do
    rc ← s.ref_counts r
    guard (ltb 0 rc)
    rest ← erase r (s.shared_pending)
    some (record s { ref_counts = insert (s.ref_counts) r (rc - 1); shared_pending = rest })

  unfoldable pub shared_finish : ℕ → State T → Option (State T)
  shared_finish r s = do
    guard (not (s.exc_locked))
    rest ← erase r (s.shared_pending)
    t ← s.storage
    some (record s { shared_pending = rest; shared_guard = (r, t) ∷ s.shared_guard })

  unfoldable pub shared_release : ℕ → State T → Option (State T)
  shared_release i s = do
    val ← get_elem? (s.shared_guard) i
    rc ← s.ref_counts val.0
    some (record s {
      shared_guard = remove_at i (s.shared_guard);
      ref_counts = insert (s.ref_counts) val.0 (rc - 1);
    })
