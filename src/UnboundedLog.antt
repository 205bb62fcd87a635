-- ===== src/UnboundedLog.antt =====
-- spec/unbounded_log.rs: the log that the replicas share, with the state of each replica, of its
-- combiner and of each request in flight. A transition is a partial function on the state: `none`
-- where a `require`, `have` or `remove` of the source does not hold. A `remove` that is followed by
-- an `add` at the same key is one `insert`.
pub mod Steps
pub mod Next
pub mod LogRange
pub mod Inv
pub mod Enabled
pub mod Keep
pub mod Append
pub mod Preserve
pub mod Safety
use verified_node_replicatio.Prelude.{
  ℕ, zero, suc, Option, none, some, List, [], Map, empty, if◌then◌else◌, ltb,
}
use verified_node_replicatio.Dispatch.{Dispatch}

-- `struct LogEntry` of spec/types.rs
pub record LogEntry (dt : Dispatch) : Type 0 where
  pub op : dt.WriteOperation
  pub node_id : ℕ

-- `enum ReadonlyState`
pub data ReadonlyState (dt : Dispatch) : Type 0 where
  init : (op : dt.ReadOperation) → ReadonlyState dt
  version_upper_bound : (op : dt.ReadOperation) (vub : ℕ) → ReadonlyState dt
  ready_to_read : (op : dt.ReadOperation) (vub node_id : ℕ) → ReadonlyState dt
  done : (op : dt.ReadOperation) (vub node_id : ℕ) (ret : dt.Response) → ReadonlyState dt

-- `enum UpdateState`
pub data UpdateState (dt : Dispatch) : Type 0 where
  init : (op : dt.WriteOperation) → UpdateState dt
  placed : (op : dt.WriteOperation) (idx : ℕ) → UpdateState dt
  applied : (ret : dt.Response) (idx : ℕ) → UpdateState dt
  done : (ret : dt.Response) (idx : ℕ) → UpdateState dt

-- `enum CombinerState`
pub data CombinerState : Type 0 where
  ready : CombinerState
  placed : (queued_ops : List ℕ) → CombinerState
  loaded_local_version : (queued_ops : List ℕ) (lversion : ℕ) → CombinerState
  loop : (queued_ops : List ℕ) (lversion idx tail : ℕ) → CombinerState
  updated_version : (queued_ops : List ℕ) (tail : ℕ) → CombinerState

abbrev pub queued_ops : CombinerState → List ℕ
queued_ops CombinerState.ready = []
queued_ops (CombinerState.placed q) = q
queued_ops (CombinerState.loaded_local_version q lversion) = q
queued_ops (CombinerState.loop q lversion idx tail) = q
queued_ops (CombinerState.updated_version q tail) = q

pub record State (dt : Dispatch) : Type 0 where
  pub num_replicas : ℕ
  pub log : Map (LogEntry dt)
  pub tail : ℕ
  pub replicas : Map (dt.View)
  pub local_versions : Map ℕ
  pub version_upper_bound : ℕ
  pub local_reads : Map (ReadonlyState dt)
  pub local_updates : Map (UpdateState dt)
  pub combiner : Map CombinerState

module _ (dt : Dispatch) where
  -- The state of the data structure after the operations below `version`. The source leaves the
  -- value open where the log has a hole; here the state then stays.
  unfoldable pub compute_nrstate_at_version : Map (LogEntry dt) → ℕ → dt.View
  compute_nrstate_at_version log zero = dt.init_spec
  compute_nrstate_at_version log (suc v) =
      let prev = compute_nrstate_at_version log v in
      elim (log v) [ none ↦ prev | some e ↦ (dt.dispatch_mut_spec prev (e.op)).0 ]

  -- The source requires a node at least; nothing here depends on it.
  unfoldable pub initialize : ℕ → State dt
  initialize number_of_nodes = record {
    num_replicas = number_of_nodes;
    log = empty;
    tail = 0;
    replicas = λ n. if ltb n number_of_nodes then some (dt.init_spec) else none;
    local_versions = λ n. if ltb n number_of_nodes then some 0 else none;
    version_upper_bound = 0;
    local_reads = empty;
    local_updates = empty;
    combiner = λ n. if ltb n number_of_nodes then some CombinerState.ready else none;
  }

-- `current_local_version`: how far the replica of a combiner has executed the log.
abbrev pub current_version : CombinerState → ℕ → ℕ
current_version CombinerState.ready local = local
current_version (CombinerState.placed q) local = local
current_version (CombinerState.loaded_local_version q lversion) local = lversion
current_version (CombinerState.loop q lversion idx tail) local = lversion
current_version (CombinerState.updated_version q tail) local = tail
