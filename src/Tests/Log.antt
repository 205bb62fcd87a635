-- ===== src/Tests/Log.antt =====
-- The theorems of the unbounded log at the run of two nodes on a counter.
use verified_node_replicatio.Prelude.{
  ℕ, ◌≡◌, ◌≢◌, ◌<◌, ◌⊎◌, refl, none, some, List, [], ◌∷◌, length, get_elem?, arith,
}
use verified_node_replicatio.Dispatch.{AsyncLabel}
use verified_node_replicatio.SimpleLog
use verified_node_replicatio.UnboundedLog
use verified_node_replicatio.UnboundedLog.{State, CombinerState, UpdateState, LogEntry}
use verified_node_replicatio.UnboundedLog.Steps
use verified_node_replicatio.UnboundedLog.Inv.{Inv}
use verified_node_replicatio.UnboundedLog.Next.{Action, step, add_ticket, Next, acts}
use verified_node_replicatio.UnboundedLog.Preserve.Reachable
use verified_node_replicatio.UnboundedLog.Safety
use verified_node_replicatio.Behavior.{AsynchronousSingletonBehavior, SingletonWf}
use verified_node_replicatio.LogRefinement.{interp}
use verified_node_replicatio.LogRefinement.Simulation
use verified_node_replicatio.LogRefinement.Runs
use verified_node_replicatio.LogRefinement.Runs.{seen_of_singleton}
use verified_node_replicatio.UnboundedLog.Preserve.Reachable.{Run, Run-Inv, stepped}
use verified_node_replicatio.Tests.Counter.{
  counter, get_or, after, begun, begun_seen, placing, ending, placed-Run, ended-Run, begun-Run,
  Run-on, answered_seen, answered-Run,
}

linearizable_example :
    (b : AsynchronousSingletonBehavior counter) × SingletonWf b
    × (seen_of_singleton b ≡ answered_seen)
linearizable_example = Runs.linearizable answered-Run

abbrev looping : State counter
looping = after placing begun

abbrev executed : State counter
executed = get_or looping (step (Action.exec_dispatch_local 0) looping)

executed_step : Next looping AsyncLabel.internal executed
unfolding UnboundedLog.initialize add_ticket step Steps.exec_trivial_start
    Steps.update_place_ops_in_log_one Steps.exec_load_local_version Steps.exec_load_global_head
    Steps.exec_dispatch_local
executed_step = acts (Action.exec_dispatch_local 0) refl

Next-Inv_example : Inv executed
Next-Inv_example = Reachable.Next-Inv (Run-Inv placed-Run) executed_step

Next-refines_example : SimpleLog.Next (interp looping) AsyncLabel.internal (interp executed)
Next-refines_example = Simulation.Next-refines (Run-Inv placed-Run) executed_step

lt_one : 0 < 1
lt_one = omega arith

exec_dispatch_local-enabled_example :
    (rid : ℕ) × (op : ℕ) × (0 < 1)
    × (get_elem? (7 ∷ []) 0 ≡ some rid)
    × (looping.local_updates rid ≡ some (UpdateState.placed op 0))
    × (Steps.exec_dispatch_local 0 looping ≢ none)
unfolding UnboundedLog.initialize add_ticket step Steps.exec_trivial_start
    Steps.update_place_ops_in_log_one Steps.exec_load_local_version Steps.exec_load_global_head
exec_dispatch_local-enabled_example =
    Safety.exec_dispatch_local-enabled {lv = 0} {idx = 0} {end = 1} {q = 7 ∷ []}
      {e = record { op = 5; node_id = 0 }} placed-Run refl lt_one refl refl

loop-enabled_example :
    (Steps.exec_dispatch_local 0 looping ≢ none)
    ⊎ ((Steps.exec_dispatch_remote 0 looping ≢ none)
        ⊎ (Steps.exec_update_version_upper_bound 0 looping ≢ none))
unfolding UnboundedLog.initialize add_ticket step Steps.exec_trivial_start
    Steps.update_place_ops_in_log_one Steps.exec_load_local_version Steps.exec_load_global_head
loop-enabled_example = Safety.loop-enabled {lv = 0} {idx = 0} {end = 1} {q = 7 ∷ []} placed-Run refl

abbrev one_request : List ℕ
one_request = 7 ∷ []

loop_end-all_answered_example :
    (1 ≡ length one_request)
    × ((j rid op i : ℕ)
        → get_elem? one_request j ≡ some rid
        → executed.local_updates rid ≢ some (UpdateState.placed op i))
unfolding UnboundedLog.initialize add_ticket step Steps.exec_trivial_start
    Steps.update_place_ops_in_log_one Steps.exec_load_local_version Steps.exec_load_global_head
    Steps.exec_dispatch_local
loop_end-all_answered_example =
    Safety.loop_end-all_answered {n = 0} {lv = 1} {idx = 1} {end = 1} {q = one_request}
      (stepped placed-Run executed_step) refl refl

-- The combiner of node 1 finds nothing new.
abbrev idling : List Action
idling = Action.exec_trivial_start 1 ∷ Action.exec_load_local_version 1 ∷ []

idling-Run : Run 2 begun_seen (after idling begun)
unfolding UnboundedLog.initialize add_ticket step Steps.exec_trivial_start
    Steps.exec_load_local_version
idling-Run = Run-on idling begun begun-Run (tt, (tt, tt))

abbrev no_requests : List ℕ
no_requests = []

no_change-empty_example : no_requests ≡ []
unfolding UnboundedLog.initialize add_ticket step Steps.exec_trivial_start
    Steps.exec_load_local_version
no_change-empty_example =
    Safety.no_change-empty {n = 1} {lv = 0} {q = no_requests} idling-Run refl refl

-- Node 1 executes the request of node 0.
abbrev catching_up : List Action
catching_up =
    Action.exec_trivial_start 1
    ∷ Action.exec_load_local_version 1
    ∷ Action.exec_load_global_head 1
    ∷ Action.exec_dispatch_remote 1
    ∷ []

abbrev caught_up : State counter
caught_up = after catching_up (after ending looping)

caught_up-Run : Run 2 begun_seen caught_up
unfolding UnboundedLog.initialize add_ticket step Steps.exec_trivial_start
    Steps.update_place_ops_in_log_one Steps.exec_load_local_version Steps.exec_load_global_head
    Steps.exec_dispatch_local Steps.exec_dispatch_remote Steps.exec_update_version_upper_bound
    Steps.exec_finish Steps.update_done
caught_up-Run = Run-on catching_up (after ending looping) ended-Run (tt, (tt, (tt, (tt, tt))))

replicas-agree_example : get_or 8 (caught_up.replicas 0) ≡ get_or 9 (caught_up.replicas 1)
unfolding UnboundedLog.initialize add_ticket step Steps.exec_trivial_start
    Steps.update_place_ops_in_log_one Steps.exec_load_local_version Steps.exec_load_global_head
    Steps.exec_dispatch_local Steps.exec_dispatch_remote Steps.exec_update_version_upper_bound
    Steps.exec_finish Steps.update_done
replicas-agree_example =
    Safety.replicas-agree {n = 0} {m = 1} {c = CombinerState.ready}
      {d = CombinerState.loop no_requests 1 0 1} {vn = 1} {vm = 0} caught_up-Run refl refl refl refl
      refl refl refl
