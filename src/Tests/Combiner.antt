-- ===== src/Tests/Combiner.antt =====
-- The theorems of the flat combiner with two threads.
use verified_node_replicatio.Prelude.{ℕ, ◌≡◌, refl, none, some, [], ◌∷◌}
use verified_node_replicatio.FlatCombiner
use verified_node_replicatio.FlatCombiner.{State, ClientState, SlotState, CombinerState, get_req_id}
use verified_node_replicatio.FlatCombiner.Inv.{Inv}
use verified_node_replicatio.FlatCombiner.Next.{Action, step, Reachable, inited, stepped}
use verified_node_replicatio.FlatCombiner.Preserve
use verified_node_replicatio.FlatCombiner.Safety
use verified_node_replicatio.FlatCombiner.Safety.{IsCombiner, Reachable-Inv}
use verified_node_replicatio.Tests.Counter.{get_or}

abbrev next : Action → State → State
next a s = get_or s (step a s)

abbrev sent : State
sent = next (Action.send_request 1 7) (FlatCombiner.initialize 2)

sent-Reachable : Reachable 2 sent
unfolding FlatCombiner.initialize step FlatCombiner.send_request
sent-Reachable = stepped (Action.send_request 1 7) inited refl

waits_for_its_own_example :
    ((rid : ℕ)
      → ClientState.waiting 7 ≡ ClientState.waiting rid
      → get_req_id (SlotState.request 7) ≡ some rid)
    × (ClientState.waiting 7 ≡ ClientState.idle → SlotState.request 7 ≡ SlotState.empty)
unfolding FlatCombiner.initialize step FlatCombiner.send_request
waits_for_its_own_example =
    Safety.waits_for_its_own 1 {c = ClientState.waiting 7} {sl = SlotState.request 7} sent-Reachable
      refl refl

abbrev one_collected : State
one_collected = next Action.combiner_collect_empty sent

one_collected-Reachable : Reachable 2 one_collected
unfolding FlatCombiner.initialize step FlatCombiner.send_request FlatCombiner.combiner_collect_empty
one_collected-Reachable = stepped Action.combiner_collect_empty sent-Reachable refl

abbrev collected : State
collected = next Action.combiner_collect_request one_collected

collected-step : step Action.combiner_collect_request one_collected ≡ some collected
unfolding FlatCombiner.initialize step FlatCombiner.send_request FlatCombiner.combiner_collect_empty
    FlatCombiner.combiner_collect_request
collected-step = refl

collected-Reachable : Reachable 2 collected
collected-Reachable = stepped Action.combiner_collect_request one_collected-Reachable collected-step

combiner_step-Inv_example : Inv collected
combiner_step-Inv_example =
    Preserve.combiner_step-Inv Action.combiner_collect_request one_collected
      (Reachable-Inv one_collected-Reachable) collected-step

IsCombiner-enabled_example : (a : Action) × (t : State) × IsCombiner a × (step a collected ≡ some t)
IsCombiner-enabled_example = Safety.IsCombiner-enabled collected-Reachable

abbrev responding : State
responding = next Action.combiner_responding_empty (next Action.combiner_responding_start collected)

responding-Reachable : Reachable 2 responding
unfolding FlatCombiner.initialize step FlatCombiner.send_request FlatCombiner.combiner_collect_empty
    FlatCombiner.combiner_collect_request FlatCombiner.combiner_responding_start
    FlatCombiner.combiner_responding_empty
responding-Reachable =
    stepped Action.combiner_responding_empty
      (stepped Action.combiner_responding_start collected-Reachable refl) refl

responding_result-enabled_example :
    (t : State) × (FlatCombiner.combiner_responding_result responding ≡ some t)
    × (responding.slots 1 ≡ some (SlotState.in_progress 7))
    × (t.slots 1 ≡ some (SlotState.response 7))
unfolding FlatCombiner.initialize step FlatCombiner.send_request FlatCombiner.combiner_collect_empty
    FlatCombiner.combiner_collect_request FlatCombiner.combiner_responding_start
    FlatCombiner.combiner_responding_empty
responding_result-enabled_example =
    Safety.responding_result-enabled {reqs = none ∷ some 7 ∷ []} {idx = 1} {rid = 7}
      responding-Reachable refl refl
