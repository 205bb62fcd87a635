-- ===== src/UnboundedLog/Preserve/Reachable.antt =====
-- spec/unbounded_log.rs: the invariant holds at first and after every step.
use verified_node_replicatio.Prelude.{List, [], ◌∷◌, ℕ, ◌≡◌, refl, some, arith}
use verified_node_replicatio.Dispatch.{Dispatch, AsyncLabel}
use verified_node_replicatio.UnboundedLog.{
  CombinerState, State, initialize, compute_nrstate_at_version,
}
use verified_node_replicatio.UnboundedLog.Next.{
  Action, step, Next, acts, adds_ticket, consumes_read, consumes_update,
}
use verified_node_replicatio.UnboundedLog.Inv.{Inv}
use verified_node_replicatio.UnboundedLog.Preserve.Requests
use verified_node_replicatio.UnboundedLog.Preserve.Exec
use verified_node_replicatio.UnboundedLog.Preserve.Dispatched.{
  exec_dispatch_local-Inv, exec_dispatch_remote-Inv,
}
use verified_node_replicatio.UnboundedLog.Preserve.Place.{update_place_ops_in_log_one-Inv}

module _ (dt : Dispatch) where
  -- The invariant holds of the initial state, for any number of nodes.
  pub initialize-Inv : (number_of_nodes : ℕ) → Inv (initialize dt number_of_nodes)
  unfolding initialize compute_nrstate_at_version
  initialize-Inv number_of_nodes = record {
    vub_le = omega arith;
    log_full = λ i lt. absurd (omega arith);
    log_end = λ i le. refl;
    nodes = λ n c e.
        let same : c ≡ CombinerState.ready = ground arith in
        record {
          v = 0;
          the_version = ground arith;
          version_le = omega arith;
          the_replica = rw same (ground arith);
          wf = rw same (record { free = λ i lo hi. absurd (omega arith) });
        };
    combiners = λ n v e. (CombinerState.ready, ground arith);
    owner = λ n n' j j' rid c c' e f g h.
        let same : c ≡ CombinerState.ready = ground arith in absurd (cc (rw same at g));
    reads = λ rid r e. absurd (cc);
    updates = λ rid u e. absurd (cc);
  }

module _ {dt : Dispatch} where
  -- Every internal transition keeps the invariant.
  pub step-Inv : (a : Action) (s : State dt) {t : State dt} → Inv s → step a s ≡ some t → Inv t
  unfolding step
  step-Inv (Action.readonly_version_upper_bound rid) s inv e =
      Requests.readonly_version_upper_bound-Inv rid s inv e
  step-Inv (Action.readonly_ready_to_read rid node_id) s inv e =
      Requests.readonly_ready_to_read-Inv rid node_id s inv e
  step-Inv (Action.readonly_apply rid) s inv e = Requests.readonly_apply-Inv rid s inv e
  step-Inv (Action.update_place_ops_in_log_one node_id rid) s inv e =
      update_place_ops_in_log_one-Inv node_id rid s inv e
  step-Inv (Action.update_done rid) s inv e = Requests.update_done-Inv rid s inv e
  step-Inv (Action.exec_trivial_start n) s inv e = Exec.exec_trivial_start-Inv n s inv e
  step-Inv (Action.exec_load_local_version n) s inv e = Exec.exec_load_local_version-Inv n s inv e
  step-Inv (Action.exec_load_global_head n) s inv e = Exec.exec_load_global_head-Inv n s inv e
  step-Inv (Action.exec_dispatch_local n) s inv e = exec_dispatch_local-Inv n s inv e
  step-Inv (Action.exec_dispatch_remote n) s inv e = exec_dispatch_remote-Inv n s inv e
  step-Inv (Action.exec_update_version_upper_bound n) s inv e =
      Exec.exec_update_version_upper_bound-Inv n s inv e
  step-Inv (Action.exec_finish n) s inv e = Exec.exec_finish-Inv n s inv e
  step-Inv (Action.exec_finish_no_change n) s inv e = Exec.exec_finish_no_change-Inv n s inv e

  -- Every step keeps the invariant: an internal transition, a request that enters, an answer that
  -- leaves.
  pub Next-Inv : {s t : State dt} {l : AsyncLabel dt} → Inv s → Next s l t → Inv t
  Next-Inv {s} inv (acts a e) = step-Inv a s inv e
  Next-Inv {s} inv (adds_ticket rid input fresh e) = Requests.add_ticket-Inv rid input s inv fresh e
  Next-Inv {s} inv (consumes_read rid e) = Requests.consume_read-Inv rid s inv e
  Next-Inv {s} inv (consumes_update rid e) = Requests.consume_update-Inv rid s inv e

  -- A client sees the labels that are not internal, the last one first.
  abbrev pub see : AsyncLabel dt → List (AsyncLabel dt) → List (AsyncLabel dt)
  see AsyncLabel.internal seen = seen
  see (AsyncLabel.start rid input) seen = AsyncLabel.start rid input ∷ seen
  see (AsyncLabel.end rid output) seen = AsyncLabel.end rid output ∷ seen

  -- The runs of the unbounded log from its initial state, with what a client sees of them.
  pub data Run (number_of_nodes : ℕ) : List (AsyncLabel dt) → State dt → Type 0 where
    inited : Run number_of_nodes [] (initialize dt number_of_nodes)
    stepped :
        {seen : List (AsyncLabel dt)} {s t : State dt} {l : AsyncLabel dt}
        → Run number_of_nodes seen s
        → Next s l t
        → Run number_of_nodes (see l seen) t

  -- Every state that a run reaches has the invariant.
  pub Run-Inv :
      {number_of_nodes : ℕ} {seen : List (AsyncLabel dt)} {s : State dt}
      → Run number_of_nodes seen s
      → Inv s
  Run-Inv {number_of_nodes} inited = initialize-Inv dt number_of_nodes
  Run-Inv (stepped r n) = Next-Inv (Run-Inv r) n
