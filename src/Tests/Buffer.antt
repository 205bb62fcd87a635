-- ===== src/Tests/Buffer.antt =====
-- The theorems of the cyclic buffer with two replicas.
use verified_node_replicatio.Prelude.{ℕ, Bool, true, ◌+◌, ◌≤◌, ◌<◌, ◌≡◌, ◌≢◌, refl, some, arith}
use verified_node_replicatio.CyclicBuffer
use verified_node_replicatio.CyclicBuffer.{State, CombinerState, log_size, log_entry_idx}
use verified_node_replicatio.CyclicBuffer.Inv.{Inv}
use verified_node_replicatio.CyclicBuffer.Next.{Action, step, Reachable, inited, stepped}
use verified_node_replicatio.CyclicBuffer.Preserve
use verified_node_replicatio.CyclicBuffer.Safety
use verified_node_replicatio.CyclicBuffer.Safety.{Reachable-Inv}
use verified_node_replicatio.Tests.Counter.{get_or}
use verified_node_replicatio.Tests.Lock.{below_ten}

abbrev anything : ℕ → ℕ → Bool
anything x i = true

abbrev entries : ℕ → ℕ
entries i = i

abbrev next : Action ℕ → State ℕ → State ℕ
next a s = get_or s (step anything a s)

abbrev both_ready : State ℕ
both_ready =
    next (Action.advance_tail_start 1)
      (next (Action.advance_tail_start 0) (CyclicBuffer.initialize 2 entries))

both_ready-Reachable : Reachable anything both_ready
unfolding CyclicBuffer.initialize step CyclicBuffer.advance_tail_start
both_ready-Reachable =
    stepped (Action.advance_tail_start 1)
      (stepped (Action.advance_tail_start 0) (inited 2 entries) refl) refl

abbrev one_appends : State ℕ
one_appends = next (Action.advance_tail_finish 0 3) both_ready

one_appends-step : step anything (Action.advance_tail_finish 0 3) both_ready ≡ some one_appends
unfolding CyclicBuffer.initialize step CyclicBuffer.advance_tail_start
    CyclicBuffer.advance_tail_finish
one_appends-step = refl

one_appends-Reachable : Reachable anything one_appends
one_appends-Reachable =
    stepped (Action.advance_tail_finish 0 3) both_ready-Reachable one_appends-step

abbrev both_append : State ℕ
both_append = next (Action.advance_tail_finish 1 5) one_appends

both_append-Reachable : Reachable anything both_append
unfolding CyclicBuffer.initialize step CyclicBuffer.advance_tail_start
    CyclicBuffer.advance_tail_finish
both_append-Reachable = stepped (Action.advance_tail_finish 1 5) one_appends-Reachable refl

buffer_step-Inv_example : Inv anything one_appends
buffer_step-Inv_example =
    Preserve.buffer_step-Inv anything (Action.advance_tail_finish 0 3) both_ready
      (Reachable-Inv both_ready-Reachable) one_appends-step

no_overrun_example :
    (both_append.head ≤ 0) × (0 ≤ both_append.tail) × (both_append.tail ≤ 0 + log_size)
unfolding CyclicBuffer.initialize step CyclicBuffer.advance_tail_start
    CyclicBuffer.advance_tail_finish
no_overrun_example = Safety.no_overrun {n = 1} {v = 0} both_append-Reachable refl

lt_three : 0 < 3
lt_three = omega arith

le_four : 0 ≤ 4
le_four = omega arith

four-lt : 4 < 5
four-lt = omega arith

four-ne : ◌≢◌ {A = ℕ} 4 0
four-ne e = omega arith

node_zero-ne : ◌≢◌ {A = ℕ} 0 1
node_zero-ne e = omega arith

three_le : 3 ≤ 4
three_le = omega arith

zero_le : 0 ≤ 0
zero_le = omega arith

append_slot-free_example : log_entry_idx 4 log_size ≢ log_entry_idx 0 log_size
unfolding CyclicBuffer.initialize step CyclicBuffer.advance_tail_start
    CyclicBuffer.advance_tail_finish
append_slot-free_example =
    Safety.append_slot-free {n = 0} {m = 1} {cur = 0} {tail = 3} {v = 0} {k = 4}
      both_append-Reachable refl lt_three refl le_four four-lt four-ne

appenders-apart_example : log_entry_idx 0 log_size ≢ log_entry_idx 4 log_size
unfolding CyclicBuffer.initialize step CyclicBuffer.advance_tail_start
    CyclicBuffer.advance_tail_finish
appenders-apart_example =
    Safety.appenders-apart {n = 0} {m = 1} {cur = 0} {tail = 3} {cur' = 3} {tail' = 5} {i = 0}
      {j = 4} both_append-Reachable node_zero-ne refl refl zero_le lt_three three_le four-lt

-- Replica 0 appends the value 7, and replica 1 reads it.
abbrev small : ℕ → ℕ → Bool
small x i = below_ten x

abbrev go_on : Action ℕ → State ℕ → State ℕ
go_on a s = get_or s (step small a s)

abbrev appended : State ℕ
appended = go_on (Action.append_flip_bit 0 7) (
    go_on (Action.advance_tail_finish 0 1)
      (go_on (Action.advance_tail_start 0) (CyclicBuffer.initialize 2 entries)))

appended-Reachable : Reachable small appended
unfolding CyclicBuffer.initialize step CyclicBuffer.advance_tail_start
    CyclicBuffer.advance_tail_finish CyclicBuffer.append_flip_bit
appended-Reachable =
    stepped (Action.append_flip_bit 0 7)
      (stepped (Action.advance_tail_finish 0 1)
        (stepped (Action.advance_tail_start 0) (inited 2 entries) refl) refl)
      refl

abbrev guarding : State ℕ
guarding =
    go_on (Action.reader_guard 1)
      (go_on (Action.reader_enter 1) (go_on (Action.reader_start 1) appended))

guarding-Reachable : Reachable small guarding
unfolding CyclicBuffer.initialize step CyclicBuffer.advance_tail_start
    CyclicBuffer.advance_tail_finish CyclicBuffer.append_flip_bit CyclicBuffer.reader_start
    CyclicBuffer.reader_enter CyclicBuffer.reader_guard
guarding-Reachable =
    stepped (Action.reader_guard 1)
      (stepped (Action.reader_enter 1) (stepped (Action.reader_start 1) appended-Reachable refl)
        refl)
      refl

guard_guards_example : (guarding.contents (0 + log_size) ≡ some 7) × (small 7 0 ≡ true)
unfolding CyclicBuffer.initialize step CyclicBuffer.advance_tail_start
    CyclicBuffer.advance_tail_finish CyclicBuffer.append_flip_bit CyclicBuffer.reader_start
    CyclicBuffer.reader_enter CyclicBuffer.reader_guard
guard_guards_example =
    Safety.guard_guards {n = 1} {start = 0} {end = 1} {cur = 0} {val = 7} guarding-Reachable refl
