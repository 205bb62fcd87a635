-- ===== src/FlatCombiner/Next.antt =====
-- spec/flat_combiner.rs, `FlatCombiner::State::next`.
use verified_node_replicatio.Prelude.{ℕ, ◌≡◌, Option, some}
use verified_node_replicatio.FlatCombiner
use verified_node_replicatio.FlatCombiner.{State}

-- The transitions with their arguments (`FlatCombiner::Step`).
pub data Action : Type 0 where
  combiner_collect_empty : Action
  combiner_collect_request : Action
  combiner_responding_start : Action
  combiner_responding_empty : Action
  combiner_responding_result : Action
  combiner_responding_done : Action
  send_request : (tid rid : ℕ) → Action
  recv_response : (tid rid : ℕ) → Action

unfoldable pub step : Action → State → Option State
step Action.combiner_collect_empty s = FlatCombiner.combiner_collect_empty s
step Action.combiner_collect_request s = FlatCombiner.combiner_collect_request s
step Action.combiner_responding_start s = FlatCombiner.combiner_responding_start s
step Action.combiner_responding_empty s = FlatCombiner.combiner_responding_empty s
step Action.combiner_responding_result s = FlatCombiner.combiner_responding_result s
step Action.combiner_responding_done s = FlatCombiner.combiner_responding_done s
step (Action.send_request tid rid) s = FlatCombiner.send_request tid rid s
step (Action.recv_response tid rid) s = FlatCombiner.recv_response tid rid s

-- The states that the combiner and its threads reach.
pub data Reachable (num_threads : ℕ) : State → Type 0 where
  inited : Reachable num_threads (FlatCombiner.initialize num_threads)
  stepped :
      {s t : State} (a : Action)
      → Reachable num_threads s
      → step a s ≡ some t
      → Reachable num_threads t
