-- ===== src/LogRefinement.antt =====
-- spec/unbounded_log_refines_simplelog.rs: the simple log that a state of the unbounded log stands
-- for.
pub mod Interp
pub mod Reads
pub mod Updates
pub mod Simulation
pub mod Runs
use verified_node_replicatio.Prelude.{ℕ, zero, suc, Option, none, some, List, [], push, ◌>>=◌, Map}
use verified_node_replicatio.Dispatch.{Dispatch}
use verified_node_replicatio.SimpleLog.{ReadReq, UpdateResp}
use verified_node_replicatio.SimpleLog
use verified_node_replicatio.UnboundedLog.{LogEntry, ReadonlyState, UpdateState, State}

module _ {dt : Dispatch} where
  -- The operations of the entries below the tail. The source leaves the value open where the log has
  -- a hole; here the hole is left out.
  unfoldable pub interp_log : ℕ → Map (LogEntry dt) → List (dt.WriteOperation)
  interp_log zero log = []
  interp_log (suc i) log =
      let rest = interp_log i log in elim (log i) [ none ↦ rest | some e ↦ push rest (e.op) ]

  abbrev pub read_req : ReadonlyState dt → ReadReq (dt.ReadOperation)
  read_req (ReadonlyState.init op) = ReadReq.init op
  read_req (ReadonlyState.version_upper_bound op idx) = ReadReq.req idx op
  read_req (ReadonlyState.ready_to_read op idx node_id) = ReadReq.req idx op
  read_req (ReadonlyState.done op idx node_id ret) = ReadReq.req idx op

  abbrev pub interp_readonly_reqs : Map (ReadonlyState dt) → Map (ReadReq (dt.ReadOperation))
  interp_readonly_reqs local_reads rid = do r ← local_reads rid; some (read_req r)

  abbrev pub update_req : UpdateState dt → Option (dt.WriteOperation)
  update_req (UpdateState.init op) = some op
  update_req (UpdateState.placed op idx) = none
  update_req (UpdateState.applied ret idx) = none
  update_req (UpdateState.done ret idx) = none

  abbrev pub interp_update_reqs : Map (UpdateState dt) → Map (dt.WriteOperation)
  interp_update_reqs local_updates rid = do u ← local_updates rid; update_req u

  abbrev pub update_resp : UpdateState dt → Option UpdateResp
  update_resp (UpdateState.init op) = none
  update_resp (UpdateState.placed op idx) = some (record { idx = idx })
  update_resp (UpdateState.applied ret idx) = some (record { idx = idx })
  update_resp (UpdateState.done ret idx) = some (record { idx = idx })

  abbrev pub interp_update_resps : Map (UpdateState dt) → Map UpdateResp
  interp_update_resps local_updates rid = do u ← local_updates rid; update_resp u

  unfoldable pub interp : State dt → SimpleLog.State dt
  interp s = record {
    log = interp_log (s.tail) (s.log);
    version = s.version_upper_bound;
    readonly_reqs = interp_readonly_reqs (s.local_reads);
    update_reqs = interp_update_reqs (s.local_updates);
    update_resps = interp_update_resps (s.local_updates);
  }
