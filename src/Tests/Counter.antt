-- ===== src/Tests/Counter.antt =====
-- A counter behind the `Dispatch` trait, as in examples/counter.rs: a write adds to it and returns the
-- sum, a read returns the value. A run of two nodes on it.
use verified_node_replicatio.Prelude.{ℕ, ◌+◌, ◌≡◌, refl, Option, none, some, List, [], ◌∷◌, arith}
use verified_node_replicatio.Dispatch.{Dispatch, InputOperation, OutputOperation, AsyncLabel}
use verified_node_replicatio.UnboundedLog
use verified_node_replicatio.UnboundedLog.{State, CombinerState, queued_ops}
use verified_node_replicatio.UnboundedLog.Steps
use verified_node_replicatio.UnboundedLog.Next.{
  Action, step, add_ticket, consume_update, IsFreshId, acts, adds_ticket, consumes_update,
}
use verified_node_replicatio.UnboundedLog.Preserve.Reachable.{Run, inited, stepped}

abbrev pub counter : Dispatch
counter = record {
  View = ℕ;
  ReadOperation = Unit {0};
  WriteOperation = ℕ;
  Response = ℕ;
  init_spec = 0;
  dispatch_spec = λ v o. v;
  dispatch_mut_spec = λ v o. (v + o, v + o);
}

abbrev pub get_or {ℓ} : {A : Type ℓ} → A → Option A → A
get_or d none = d
get_or d (some a) = a

abbrev pub IsSome {ℓ} : {A : Type ℓ} → Option A → Type 0
IsSome none = ⊥
IsSome (some a) = Unit {0}

some-get_or : {A : Type 0} (d : A) (o : Option A) → IsSome o → o ≡ some (get_or d o)
some-get_or d none h = elim h [ ]
some-get_or d (some a) h = refl

abbrev pub after : List Action → State counter → State counter
after [] s = s
after (a ∷ rest) s = after rest (get_or s (step a s))

abbrev pub AllSome : List Action → State counter → Type 0
AllSome [] s = Unit {0}
AllSome (a ∷ rest) s = IsSome (step a s) × AllSome rest (get_or s (step a s))

-- Internal transitions that are enabled one after the other make a run longer.
pub Run-on :
    {n : ℕ} {seen : List (AsyncLabel counter)} (actions : List Action) (s : State counter)
    → Run n seen s
    → AllSome actions s
    → Run n seen (after actions s)
Run-on [] s r h = r
Run-on (a ∷ rest) s r h =
    Run-on rest (get_or s (step a s)) (stepped r (acts a (some-get_or s (step a s) h.0))) h.1

abbrev pub begun : State counter
begun =
    get_or (UnboundedLog.initialize counter 2)
      (add_ticket 7 (InputOperation.write 5) (UnboundedLog.initialize counter 2))

-- The combiner of node 0 places the request 7 and is about to execute it.
abbrev pub placing : List Action
placing =
    Action.exec_trivial_start 0
    ∷ Action.update_place_ops_in_log_one 0 7
    ∷ Action.exec_load_local_version 0
    ∷ Action.exec_load_global_head 0
    ∷ []

abbrev pub ending : List Action
ending =
    Action.exec_dispatch_local 0
    ∷ Action.exec_update_version_upper_bound 0
    ∷ Action.exec_finish 0
    ∷ Action.update_done 7
    ∷ []

abbrev pub begun_seen : List (AsyncLabel counter)
begun_seen = AsyncLabel.start 7 (InputOperation.write 5) ∷ []

initialize-fresh : (rid : ℕ) → IsFreshId (UnboundedLog.initialize counter 2) rid
unfolding UnboundedLog.initialize
initialize-fresh rid n j c e g =
    let same : c ≡ CombinerState.ready = ground arith in absurd (cc (rw same at g))

pub begun-Run : Run 2 begun_seen begun
unfolding UnboundedLog.initialize add_ticket
begun-Run = stepped inited (
    adds_ticket 7 (InputOperation.write 5) (initialize-fresh 7) (
      some-get_or (UnboundedLog.initialize counter 2)
        (add_ticket 7 (InputOperation.write 5) (UnboundedLog.initialize counter 2)) tt))

pub placed-Run : Run 2 begun_seen (after placing begun)
unfolding UnboundedLog.initialize add_ticket step Steps.exec_trivial_start
    Steps.update_place_ops_in_log_one Steps.exec_load_local_version Steps.exec_load_global_head
placed-Run = Run-on placing begun begun-Run (tt, (tt, (tt, (tt, tt))))

pub ended-Run : Run 2 begun_seen (after ending (after placing begun))
unfolding UnboundedLog.initialize add_ticket step Steps.exec_trivial_start
    Steps.update_place_ops_in_log_one Steps.exec_load_local_version Steps.exec_load_global_head
    Steps.exec_dispatch_local Steps.exec_update_version_upper_bound Steps.exec_finish
    Steps.update_done
ended-Run = Run-on ending (after placing begun) placed-Run (tt, (tt, (tt, (tt, tt))))

abbrev pub answered : State counter
answered =
    let s = after ending (after placing begun) in
    elim (consume_update 7 s) [ none ↦ s | some r ↦ r.1 ]

abbrev pub answered_seen : List (AsyncLabel counter)
answered_seen = AsyncLabel.end 7 (OutputOperation.write 5) ∷ begun_seen

-- The request is answered with 5, the value of the counter after the write.
pub answered-Run : Run 2 answered_seen answered
unfolding UnboundedLog.initialize add_ticket consume_update step Steps.exec_trivial_start
    Steps.update_place_ops_in_log_one Steps.exec_load_local_version Steps.exec_load_global_head
    Steps.exec_dispatch_local Steps.exec_update_version_upper_bound Steps.exec_finish
    Steps.update_done
answered-Run = stepped ended-Run (consumes_update 7 refl)
