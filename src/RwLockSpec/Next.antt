-- ===== src/RwLockSpec/Next.antt =====
-- spec/rwlock.rs, `RwLockSpec::State::next`.
use verified_node_replicatio.Prelude.{ℕ, Option}
use verified_node_replicatio.RwLockSpec
use verified_node_replicatio.RwLockSpec.{State}

-- The transitions with their arguments (`RwLockSpec::Step`).
pub data Action (T : Type 0) : Type 0 where
  exc_start : Action T
  exc_check_count : Action T
  exc_finish : Action T
  exc_release : (t : T) → Action T
  shared_start : (r : ℕ) → Action T
  shared_abandon : (r : ℕ) → Action T
  shared_finish : (r : ℕ) → Action T
  shared_release : (i : ℕ) → Action T

module _ {T : Type 0} where
  unfoldable pub step : Action T → State T → Option (State T)
  step Action.exc_start s = RwLockSpec.exc_start s
  step Action.exc_check_count s = RwLockSpec.exc_check_count s
  step Action.exc_finish s = RwLockSpec.exc_finish s
  step (Action.exc_release t) s = RwLockSpec.exc_release t s
  step (Action.shared_start r) s = RwLockSpec.shared_start r s
  step (Action.shared_abandon r) s = RwLockSpec.shared_abandon r s
  step (Action.shared_finish r) s = RwLockSpec.shared_finish r s
  step (Action.shared_release i) s = RwLockSpec.shared_release i s
