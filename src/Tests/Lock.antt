-- ===== src/Tests/Lock.antt =====
-- The theorems of the lock on a value of ℕ with two lanes.
use verified_node_replicatio.Prelude.{ℕ, ◌<◌, ◌≡◌, ◌≢◌, inr, refl, Bool, true, none, some, [], leb}
use verified_node_replicatio.RwLockSpec
use verified_node_replicatio.RwLockSpec.{State}
use verified_node_replicatio.RwLockSpec.Inv.{Inv}
use verified_node_replicatio.RwLockSpec.Next.{Action, step}
use verified_node_replicatio.RwLockSpec.Preserve
use verified_node_replicatio.RwLockSpec.Safety
use verified_node_replicatio.RwLockSpec.Safety.{Reachable, inited, stepped, Reachable-Inv}
use verified_node_replicatio.Tests.Counter.{get_or}

-- The user's invariant: the value is at most 9.
abbrev pub below_ten : ℕ → Bool
below_ten x = leb x 9

abbrev nothing : State ℕ
nothing = record {
  user_inv = below_ten;
  rc_width = 0;
  storage = none;
  exc_locked = true;
  ref_counts = λ i. none;
  exc_pending = none;
  exc_guard = none;
  shared_pending = [];
  shared_guard = [];
}

abbrev free : State ℕ
free = get_or nothing (RwLockSpec.initialize 2 4 below_ten)

free-Reachable : Reachable free
unfolding RwLockSpec.initialize
free-Reachable = inited 2 4 below_ten refl

abbrev next : Action ℕ → State ℕ → State ℕ
next a s = get_or s (step a s)

abbrev pending : State ℕ
pending = next (Action.shared_start 1) free

pending-Reachable : Reachable pending
unfolding RwLockSpec.initialize step RwLockSpec.shared_start
pending-Reachable = stepped (Action.shared_start 1) free-Reachable refl

abbrev shared : State ℕ
shared = next (Action.shared_finish 1) pending

shared-step : step (Action.shared_finish 1) pending ≡ some shared
unfolding RwLockSpec.initialize step RwLockSpec.shared_start RwLockSpec.shared_finish
shared-step = refl

shared-Reachable : Reachable shared
shared-Reachable = stepped (Action.shared_finish 1) pending-Reachable shared-step

abbrev checked : State ℕ
checked = next Action.exc_check_count (next Action.exc_check_count (next Action.exc_start free))

checked-Reachable : Reachable checked
unfolding RwLockSpec.initialize step RwLockSpec.exc_start RwLockSpec.exc_check_count
checked-Reachable =
    stepped Action.exc_check_count
      (stepped Action.exc_check_count (stepped Action.exc_start free-Reachable refl) refl) refl

abbrev exclusively : State ℕ
exclusively = next Action.exc_finish checked

exclusively-Reachable : Reachable exclusively
unfolding RwLockSpec.initialize step RwLockSpec.exc_start RwLockSpec.exc_check_count
    RwLockSpec.exc_finish
exclusively-Reachable = stepped Action.exc_finish checked-Reachable refl

exclusively_held : exclusively.exc_guard ≢ none
unfolding RwLockSpec.initialize step RwLockSpec.exc_start RwLockSpec.exc_check_count
    RwLockSpec.exc_finish
exclusively_held e = cc

exclusive_example : exclusively.shared_guard ≡ []
exclusive_example = Safety.exclusive exclusively-Reachable exclusively_held

do_guard_example : (shared.storage ≡ some 4) × (shared.user_inv 4 ≡ true)
unfolding RwLockSpec.initialize step RwLockSpec.shared_start RwLockSpec.shared_finish
do_guard_example = Safety.do_guard 0 {v = (1, 4)} shared-Reachable refl

rc_not_zero_example : 0 < 1
unfolding RwLockSpec.initialize step RwLockSpec.shared_start RwLockSpec.shared_finish
rc_not_zero_example = Safety.rc_not_zero {r = 1} {rc = 1} shared-Reachable refl (inr (0, 4, refl))

exc_finish-enabled_example :
    (x : ℕ) × (t : State ℕ) × (RwLockSpec.exc_finish checked ≡ some t)
    × (checked.storage ≡ some x)
    × (checked.user_inv x ≡ true)
    × (checked.shared_guard ≡ [])
unfolding RwLockSpec.initialize step RwLockSpec.exc_start RwLockSpec.exc_check_count
exc_finish-enabled_example = Safety.exc_finish-enabled checked-Reachable refl

lock_step-Inv_example : Inv shared
lock_step-Inv_example =
    Preserve.lock_step-Inv (Action.shared_finish 1) pending (Reachable-Inv pending-Reachable)
      shared-step
