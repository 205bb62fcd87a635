-- ===== src/Tests/Simple.antt =====
-- The theorems of the simple log on a counter.
use verified_node_replicatio.Prelude.{refl, arith}
use verified_node_replicatio.Dispatch.{InputOperation, AsyncLabel}
use verified_node_replicatio.SimpleLog
use verified_node_replicatio.SimpleLog.{
  State, update_start, update_add_op_to_log, update_starts, update_adds_op_to_log,
}
use verified_node_replicatio.SimpleLog.Inv
use verified_node_replicatio.Behavior.{
  SimpleLogBehavior, AsynchronousSingletonBehavior, LogWf, SingletonWf, Equiv,
}
use verified_node_replicatio.Linearization.Refinement
use verified_node_replicatio.Tests.Counter.{counter, get_or}

abbrev started : State counter
started = get_or (SimpleLog.initialize counter) (update_start 7 5 (SimpleLog.initialize counter))

abbrev logged : State counter
logged = get_or started (update_add_op_to_log 7 started)

abbrev behavior : SimpleLogBehavior counter
behavior = SimpleLogBehavior.stepped logged AsyncLabel.internal (
    SimpleLogBehavior.stepped started (AsyncLabel.start 7 (InputOperation.write 5))
      (SimpleLogBehavior.inited (SimpleLog.initialize counter)))

logged_step : SimpleLog.Next started AsyncLabel.internal logged
unfolding SimpleLog.initialize update_start update_add_op_to_log
logged_step = update_adds_op_to_log 7 refl

behavior-LogWf : LogWf behavior
unfolding SimpleLog.initialize update_start
behavior-LogWf = ((refl, update_starts 7 5 refl), logged_step)

exists_Equiv_behavior_example :
    (b : AsynchronousSingletonBehavior counter) × SingletonWf b × Equiv behavior b
exists_Equiv_behavior_example = Refinement.exists_Equiv_behavior behavior behavior-LogWf

started-Inv : Inv.Inv started
unfolding SimpleLog.initialize update_start
started-Inv = grind arith

simple_Next-Inv_example : Inv.Inv logged
simple_Next-Inv_example = Inv.simple_Next-Inv logged_step started-Inv
