-- ===== src/UnboundedLog/Steps.antt =====
-- spec/unbounded_log.rs: the transitions, and lib.rs, `add_ticket` and `consume_stub`: how requests
-- enter and leave.
use verified_node_replicatio.Prelude.{
  ℕ, suc, ◌==◌, not, Option, none, some, List, [], get_elem?, push, leb, ltb, if◌then◌else◌, guard,
  ◌>>=◌, ◌>>◌, insert,
}
use verified_node_replicatio.Dispatch.{Dispatch}
use verified_node_replicatio.UnboundedLog.{ReadonlyState, UpdateState, CombinerState, State}

-- `let CombinerState::… = …`
abbrev pub as_ready : CombinerState → Option (Unit {0})
as_ready CombinerState.ready = some tt
as_ready _ = none

abbrev pub as_placed : CombinerState → Option (List ℕ)
as_placed (CombinerState.placed q) = some q
as_placed _ = none

abbrev pub as_loaded : CombinerState → Option (List ℕ × ℕ)
as_loaded (CombinerState.loaded_local_version q lversion) = some (q, lversion)
as_loaded _ = none

abbrev pub as_loop : CombinerState → Option (List ℕ × ℕ × ℕ × ℕ)
as_loop (CombinerState.loop q lversion idx tail) = some (q, lversion, idx, tail)
as_loop _ = none

abbrev pub as_updated : CombinerState → Option (List ℕ × ℕ)
as_updated (CombinerState.updated_version q tail) = some (q, tail)
as_updated _ = none

module _ {dt : Dispatch} where
  -- `let ReadonlyState::… = …`
  abbrev pub read_init : ReadonlyState dt → Option (dt.ReadOperation)
  read_init (ReadonlyState.init op) = some op
  read_init _ = none

  abbrev pub read_bound : ReadonlyState dt → Option (dt.ReadOperation × ℕ)
  read_bound (ReadonlyState.version_upper_bound op vub) = some (op, vub)
  read_bound _ = none

  abbrev pub read_ready : ReadonlyState dt → Option (dt.ReadOperation × ℕ × ℕ)
  read_ready (ReadonlyState.ready_to_read op vub node_id) = some (op, vub, node_id)
  read_ready _ = none

  abbrev pub read_done : ReadonlyState dt → Option (dt.Response)
  read_done (ReadonlyState.done op vub node_id ret) = some ret
  read_done _ = none

  -- `let UpdateState::… = …`
  abbrev pub update_init : UpdateState dt → Option (dt.WriteOperation)
  update_init (UpdateState.init op) = some op
  update_init _ = none

  abbrev pub update_applied : UpdateState dt → Option (dt.Response × ℕ)
  update_applied (UpdateState.applied ret idx) = some (ret, idx)
  update_applied _ = none

  abbrev pub update_ended : UpdateState dt → Option (dt.Response)
  update_ended (UpdateState.done ret idx) = some ret
  update_ended _ = none

  unfoldable pub readonly_version_upper_bound : ℕ → State dt → Option (State dt)
  readonly_version_upper_bound rid s = do
    r ← s.local_reads rid
    op ← read_init r
    some (record s {
      local_reads =
          insert (s.local_reads) rid (ReadonlyState.version_upper_bound op (s.version_upper_bound));
    })

  unfoldable pub readonly_ready_to_read : ℕ → ℕ → State dt → Option (State dt)
  readonly_ready_to_read rid node_id s = do
    r ← s.local_reads rid
    b ← read_bound r
    local_head ← s.local_versions node_id
    guard (leb b.1 local_head)
    some (record s {
      local_reads = insert (s.local_reads) rid (ReadonlyState.ready_to_read b.0 b.1 node_id);
    })

  unfoldable pub readonly_apply : ℕ → State dt → Option (State dt)
  readonly_apply rid s = do
    r ← s.local_reads rid
    b ← read_ready r
    c ← s.combiner b.2
    as_ready c
    state ← s.replicas b.2
    some (record s {
      local_reads =
          insert (s.local_reads) rid (ReadonlyState.done b.0 b.1 b.2 (dt.dispatch_spec state b.0));
    })

  unfoldable pub update_place_ops_in_log_one : ℕ → ℕ → State dt → Option (State dt)
  update_place_ops_in_log_one node_id rid s = do
    c ← s.combiner node_id
    q ← as_placed c
    u ← s.local_updates rid
    op ← update_init u
    some (record s {
      tail = suc (s.tail);
      log = insert (s.log) (s.tail) (record { op = op; node_id = node_id });
      local_updates = insert (s.local_updates) rid (UpdateState.placed op (s.tail));
      combiner = insert (s.combiner) node_id (CombinerState.placed (push q rid));
    })

  unfoldable pub update_done : ℕ → State dt → Option (State dt)
  update_done rid s = do
    u ← s.local_updates rid
    a ← update_applied u
    guard (ltb a.1 (s.version_upper_bound))
    some (record s { local_updates = insert (s.local_updates) rid (UpdateState.done a.0 a.1) })

  unfoldable pub exec_trivial_start : ℕ → State dt → Option (State dt)
  exec_trivial_start node_id s = do
    c ← s.combiner node_id
    as_ready c
    some (record s { combiner = insert (s.combiner) node_id (CombinerState.placed []) })

  unfoldable pub exec_load_local_version : ℕ → State dt → Option (State dt)
  exec_load_local_version node_id s = do
    c ← s.combiner node_id
    q ← as_placed c
    lversion ← s.local_versions node_id
    some (record s {
      combiner = insert (s.combiner) node_id (CombinerState.loaded_local_version q lversion);
    })

  unfoldable pub exec_load_global_head : ℕ → State dt → Option (State dt)
  exec_load_global_head node_id s = do
    c ← s.combiner node_id
    l ← as_loaded c
    some (record s {
      combiner = insert (s.combiner) node_id (CombinerState.loop l.0 l.1 0 (s.tail));
    })

  -- The source leaves `queued_ops.index(idx)` open out of range; here the step is then not enabled.
  unfoldable pub exec_dispatch_local : ℕ → State dt → Option (State dt)
  exec_dispatch_local node_id s = do
    c ← s.combiner node_id
    l ← as_loop c
    old ← s.replicas node_id
    rid ← get_elem? l.0 l.2
    _ ← s.local_updates rid
    e ← s.log l.1
    guard (ltb l.1 l.3)
    guard (e.node_id == node_id)
    let next = dt.dispatch_mut_spec old (e.op)
    some (record s {
      local_updates = insert (s.local_updates) rid (UpdateState.applied next.1 l.1);
      replicas = insert (s.replicas) node_id next.0;
      combiner = insert (s.combiner) node_id (CombinerState.loop l.0 (suc l.1) (suc l.2) l.3);
    })

  unfoldable pub exec_dispatch_remote : ℕ → State dt → Option (State dt)
  exec_dispatch_remote node_id s = do
    c ← s.combiner node_id
    l ← as_loop c
    old ← s.replicas node_id
    e ← s.log l.1
    guard (ltb l.1 l.3)
    guard (not (e.node_id == node_id))
    some (record s {
      replicas = insert (s.replicas) node_id (dt.dispatch_mut_spec old (e.op)).0;
      combiner = insert (s.combiner) node_id (CombinerState.loop l.0 (suc l.1) l.2 l.3);
    })

  unfoldable pub exec_update_version_upper_bound : ℕ → State dt → Option (State dt)
  exec_update_version_upper_bound node_id s = do
    c ← s.combiner node_id
    l ← as_loop c
    guard (l.1 == l.3)
    some (record s {
      version_upper_bound = if leb l.3 (s.version_upper_bound) then s.version_upper_bound else l.3;
      combiner = insert (s.combiner) node_id (CombinerState.updated_version l.0 l.3);
    })

  unfoldable pub exec_finish : ℕ → State dt → Option (State dt)
  exec_finish node_id s = do
    c ← s.combiner node_id
    u ← as_updated c
    _ ← s.local_versions node_id
    some (record s {
      local_versions = insert (s.local_versions) node_id u.1;
      combiner = insert (s.combiner) node_id CombinerState.ready;
    })

  unfoldable pub exec_finish_no_change : ℕ → State dt → Option (State dt)
  exec_finish_no_change node_id s = do
    c ← s.combiner node_id
    l ← as_loaded c
    guard (l.1 == s.tail)
    some (record s { combiner = insert (s.combiner) node_id CombinerState.ready })
