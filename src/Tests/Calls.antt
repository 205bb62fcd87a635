-- ===== src/Tests/Calls.antt =====
-- Calls of two threads on the counter, on two replicas.
use verified_node_replicatio.Prelude.{
  ℕ, zero, suc, ◌≡◌, true, some, List, [], ◌∷◌, get_elem?, refl, arith,
}
use verified_node_replicatio.Counter.{
  replicated_counter, UpdateOp, inc, get, value, init, dispatch, dispatch_mut,
}
use verified_node_replicatio.Counter
use verified_node_replicatio.Exec.Context.{ThreadToken}
use verified_node_replicatio.Exec.Log.Append.{returned}
use verified_node_replicatio.Exec.NodeReplicated.{NodeReplicated, Result, new}
use verified_node_replicatio.Exec.NodeReplicated.FromNew.{run_calls_correct}
use verified_node_replicatio.Exec.NodeReplicated.Sequential.{
  Call, update, query, IsKnown, run_calls,
}

abbrev writer : ThreadToken
writer = record { rid = 0; tid = 0 }

abbrev reader : ThreadToken
reader = record { rid = 1; tid = 5 }

abbrev two_calls : List (Call replicated_counter)
two_calls = update inc writer ∷ query get reader ∷ []

two_calls-IsKnown :
    (i : ℕ) (c : Call replicated_counter) → get_elem? two_calls i ≡ some c → IsKnown 2 c
two_calls-IsKnown zero (update op tkn) at = (ground (arith, at), ground (arith, at))
two_calls-IsKnown zero (query op tkn) at = absurd (ground (arith, at))
two_calls-IsKnown (suc zero) (update op tkn) at = absurd (ground (arith, at))
two_calls-IsKnown (suc zero) (query op tkn) at = (ground (arith, at), ground (arith, at))
two_calls-IsKnown (suc (suc i)) c at = absurd (cc at)

run_calls_correct_example :
    (after : NodeReplicated replicated_counter) × (run_calls (λ i. true) 1 2 two_calls (new 2).1
      ≡ some (returned (Result.ok (Counter.ok, writer) ∷ Result.ok (value 1, reader) ∷ [], after)))
unfolding dispatch dispatch_mut init
run_calls_correct_example =
    run_calls_correct (λ i. true) 1 0 0 2 two_calls (omega arith) refl two_calls-IsKnown
      (omega arith)
