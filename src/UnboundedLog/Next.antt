-- ===== src/UnboundedLog/Next.antt =====
-- spec/unbounded_log.rs, `UnboundedLog::State::next`, and lib.rs, `add_ticket` and `consume_stub`.
use verified_node_replicatio.Prelude.{
  ℕ, ◌≡◌, ◌≢◌, ◌&&◌, Option, some, get_elem?, is_none, guard, ◌>>=◌, ◌>>◌, insert, remove,
}
use verified_node_replicatio.Dispatch.{Dispatch, InputOperation, OutputOperation, AsyncLabel}
use verified_node_replicatio.UnboundedLog.{
  ReadonlyState, UpdateState, CombinerState, queued_ops, State,
}
use verified_node_replicatio.UnboundedLog.Steps
use verified_node_replicatio.UnboundedLog.Steps.{read_done, update_ended}

-- The internal transitions with their arguments (`UnboundedLog::Step`).
pub data Action : Type 0 where
  readonly_version_upper_bound : (rid : ℕ) → Action
  readonly_ready_to_read : (rid node_id : ℕ) → Action
  readonly_apply : (rid : ℕ) → Action
  update_place_ops_in_log_one : (node_id rid : ℕ) → Action
  update_done : (rid : ℕ) → Action
  exec_trivial_start : (node_id : ℕ) → Action
  exec_load_local_version : (node_id : ℕ) → Action
  exec_load_global_head : (node_id : ℕ) → Action
  exec_dispatch_local : (node_id : ℕ) → Action
  exec_dispatch_remote : (node_id : ℕ) → Action
  exec_update_version_upper_bound : (node_id : ℕ) → Action
  exec_finish : (node_id : ℕ) → Action
  exec_finish_no_change : (node_id : ℕ) → Action

module _ {dt : Dispatch} where
  unfoldable pub step : Action → State dt → Option (State dt)
  step (Action.readonly_version_upper_bound rid) s = Steps.readonly_version_upper_bound rid s
  step (Action.readonly_ready_to_read rid node_id) s = Steps.readonly_ready_to_read rid node_id s
  step (Action.readonly_apply rid) s = Steps.readonly_apply rid s
  step (Action.update_place_ops_in_log_one node_id rid) s =
      Steps.update_place_ops_in_log_one node_id rid s
  step (Action.update_done rid) s = Steps.update_done rid s
  step (Action.exec_trivial_start node_id) s = Steps.exec_trivial_start node_id s
  step (Action.exec_load_local_version node_id) s = Steps.exec_load_local_version node_id s
  step (Action.exec_load_global_head node_id) s = Steps.exec_load_global_head node_id s
  step (Action.exec_dispatch_local node_id) s = Steps.exec_dispatch_local node_id s
  step (Action.exec_dispatch_remote node_id) s = Steps.exec_dispatch_remote node_id s
  step (Action.exec_update_version_upper_bound node_id) s =
      Steps.exec_update_version_upper_bound node_id s
  step (Action.exec_finish node_id) s = Steps.exec_finish node_id s
  step (Action.exec_finish_no_change node_id) s = Steps.exec_finish_no_change node_id s

  -- A request enters under an id that is no key of `local_reads` and `local_updates`.
  unfoldable pub add_ticket : ℕ → InputOperation dt → State dt → Option (State dt)
  add_ticket rid (InputOperation.read op) s = do
    guard (is_none (s.local_reads rid) && is_none (s.local_updates rid))
    some (record s { local_reads = insert (s.local_reads) rid (ReadonlyState.init op) })
  add_ticket rid (InputOperation.write op) s = do
    guard (is_none (s.local_reads rid) && is_none (s.local_updates rid))
    some (record s { local_updates = insert (s.local_updates) rid (UpdateState.init op) })

  -- A finished read leaves with its answer, and so does a finished update.
  unfoldable pub consume_read : ℕ → State dt → Option (dt.Response × State dt)
  consume_read rid s = do
    r ← s.local_reads rid
    ret ← read_done r
    some (ret, record s { local_reads = remove (s.local_reads) rid })

  unfoldable pub consume_update : ℕ → State dt → Option (dt.Response × State dt)
  consume_update rid s = do
    u ← s.local_updates rid
    ret ← update_ended u
    some (ret, record s { local_updates = remove (s.local_updates) rid })

  -- `combiner_request_id_fresh`: no combiner has the id in its queue.
  abbrev pub IsFreshId : State dt → ℕ → Type 0
  IsFreshId s rid =
      (n j : ℕ) (c : CombinerState) → s.combiner n ≡ some c → get_elem? (queued_ops c) j ≢ some rid

  -- One step, as a client sees it. A new id is one that `get_fresh_nat` may choose.
  pub data Next (s : State dt) : AsyncLabel dt → State dt → Type 0 where
    acts : (a : Action) {t : State dt} → step a s ≡ some t → Next s AsyncLabel.internal t
    adds_ticket :
        (rid : ℕ) (input : InputOperation dt) {t : State dt}
        → IsFreshId s rid
        → add_ticket rid input s ≡ some t
        → Next s (AsyncLabel.start rid input) t
    consumes_read :
        (rid : ℕ) {ret : dt.Response} {t : State dt}
        → consume_read rid s ≡ some (ret, t)
        → Next s (AsyncLabel.end rid (OutputOperation.read ret)) t
    consumes_update :
        (rid : ℕ) {ret : dt.Response} {t : State dt}
        → consume_update rid s ≡ some (ret, t)
        → Next s (AsyncLabel.end rid (OutputOperation.write ret)) t
