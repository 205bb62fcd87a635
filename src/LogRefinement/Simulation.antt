-- ===== src/LogRefinement/Simulation.antt =====
-- spec/unbounded_log_refines_simplelog.rs, `refinement_init`, `refinement_next`,
-- `refinement_add_ticket` and `refinement_consume_stub`.
use verified_node_replicatio.Prelude.{ℕ, ◌≡◌, refl, some}
use verified_node_replicatio.Dispatch.{Dispatch, InputOperation, AsyncLabel}
use verified_node_replicatio.SimpleLog
use verified_node_replicatio.SimpleLog.{no_op}
use verified_node_replicatio.UnboundedLog
use verified_node_replicatio.UnboundedLog.{State}
use verified_node_replicatio.UnboundedLog.Next.{
  Action, step, Next, acts, adds_ticket, consumes_read, consumes_update,
}
use verified_node_replicatio.UnboundedLog.Enabled.{
  trivial_start_lem, load_local_version_lem, load_global_head_lem, dispatch_remote_lem, finish_lem,
  finish_no_change_lem,
}
use verified_node_replicatio.UnboundedLog.Inv.{Inv}
use verified_node_replicatio.LogRefinement.{interp, interp_log}
use verified_node_replicatio.LogRefinement.Reads
use verified_node_replicatio.LogRefinement.Updates

module _ (dt : Dispatch) where
  -- The initial state stands for the initial simple log, for any number of nodes.
  pub initialize-refines :
      (number_of_nodes : ℕ)
      → interp (UnboundedLog.initialize dt number_of_nodes) ≡ SimpleLog.initialize dt
  unfolding interp interp_log UnboundedLog.initialize SimpleLog.initialize
  initialize-refines number_of_nodes = refl

module _ {dt : Dispatch} where
  step-refines :
      (a : Action) (s : State dt) {t : State dt}
      → Inv s
      → step a s ≡ some t
      → SimpleLog.Next (interp s) AsyncLabel.internal (interp t)
  unfolding step interp
  step-refines (Action.readonly_version_upper_bound rid) s inv e =
      Reads.readonly_version_upper_bound-refines rid s e
  step-refines (Action.readonly_ready_to_read rid node_id) s inv e =
      Reads.readonly_ready_to_read-refines rid node_id s e
  step-refines (Action.readonly_apply rid) s inv e = Reads.readonly_apply-refines rid s e
  step-refines (Action.update_place_ops_in_log_one node_id rid) s inv e =
      Updates.update_place_ops_in_log_one-refines node_id rid s inv e
  step-refines (Action.update_done rid) s inv e = Updates.update_done-refines rid s e
  step-refines (Action.exec_trivial_start n) s inv e =
      let (c, eq) = trivial_start_lem n s e in rw eq no_op
  step-refines (Action.exec_load_local_version n) s inv e =
      let (q, v, c, h, eq) = load_local_version_lem n s e in rw eq no_op
  step-refines (Action.exec_load_global_head n) s inv e =
      let (q, lv, c, eq) = load_global_head_lem n s e in rw eq no_op
  step-refines (Action.exec_dispatch_local n) s inv e =
      Updates.exec_dispatch_local-refines n s inv e
  step-refines (Action.exec_dispatch_remote n) s inv e =
      let (q, lv, idx, end, old, l, c, o, h, lt, ne, eq) = dispatch_remote_lem n s e in rw eq no_op
  step-refines (Action.exec_update_version_upper_bound n) s inv e =
      Updates.exec_update_version_upper_bound-refines n s inv e
  step-refines (Action.exec_finish n) s inv e =
      let (q, end, v, c, h, eq) = finish_lem n s e in rw eq no_op
  step-refines (Action.exec_finish_no_change n) s inv e =
      let (q, lv, c, at, eq) = finish_no_change_lem n s e in rw eq no_op

  -- Every step from a state of the invariant is a step of the simple log with the same label, between
  -- the simple logs that the two states stand for.
  pub Next-refines :
      {s t : State dt} {l : AsyncLabel dt}
      → Inv s
      → Next s l t
      → SimpleLog.Next (interp s) l (interp t)
  Next-refines {s} inv (acts a e) = step-refines a s inv e
  Next-refines {s} inv (adds_ticket rid (InputOperation.read op) fresh e) =
      Reads.add_read-refines rid op s e
  Next-refines {s} inv (adds_ticket rid (InputOperation.write op) fresh e) =
      Updates.add_write-refines rid op s e
  Next-refines {s} inv (consumes_read rid e) = Reads.consume_read-refines rid s inv e
  Next-refines {s} inv (consumes_update rid e) = Updates.consume_update-refines rid s inv e
