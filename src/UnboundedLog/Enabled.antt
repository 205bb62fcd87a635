-- ===== src/UnboundedLog/Enabled.antt =====
-- What an enabled transition of spec/unbounded_log.rs found, and the state that it leaves.
use verified_node_replicatio.Prelude.{
  ℕ, suc, present, ◌≤◌, ◌<◌, ◌≡◌, ◌≢◌, some, List, [], get_elem?, push, leb, if◌then◌else◌, insert,
  remove, arith,
}
use verified_node_replicatio.Dispatch.{Dispatch}
use verified_node_replicatio.UnboundedLog.{
  LogEntry, ReadonlyState, UpdateState, CombinerState, State,
}
use verified_node_replicatio.UnboundedLog.Steps
use verified_node_replicatio.UnboundedLog.Next.{consume_read, consume_update}

module _ {dt : Dispatch} where
  pub version_upper_bound_lem :
      (rid : ℕ) (s : State dt) {t : State dt}
      → Steps.readonly_version_upper_bound rid s ≡ some t
      → (op : dt.ReadOperation) × (s.local_reads rid ≡ some (ReadonlyState.init op))
        × (t ≡ record s {
          local_reads =
              insert
                (s.local_reads)
                rid
                (ReadonlyState.version_upper_bound op (s.version_upper_bound));
        })
  unfolding Steps.readonly_version_upper_bound
  version_upper_bound_lem rid s e = ground arith

  pub ready_to_read_lem :
      (rid node_id : ℕ) (s : State dt) {t : State dt}
      → Steps.readonly_ready_to_read rid node_id s ≡ some t
      → (op : dt.ReadOperation) × (vub v : ℕ) × (s.local_reads rid
          ≡ some (ReadonlyState.version_upper_bound op vub))
        × (s.local_versions node_id ≡ some v)
        × (vub ≤ v)
        × (t ≡ record s {
          local_reads = insert (s.local_reads) rid (ReadonlyState.ready_to_read op vub node_id);
        })
  unfolding Steps.readonly_ready_to_read
  ready_to_read_lem rid node_id s e = ground arith

  pub apply_lem :
      (rid : ℕ) (s : State dt) {t : State dt}
      → Steps.readonly_apply rid s ≡ some t
      → (op : dt.ReadOperation) × (vub node_id : ℕ) × (state : dt.View) × (s.local_reads rid
          ≡ some (ReadonlyState.ready_to_read op vub node_id))
        × (s.combiner node_id ≡ some CombinerState.ready)
        × (s.replicas node_id ≡ some state)
        × (t ≡ record s {
          local_reads =
              insert
                (s.local_reads)
                rid
                (ReadonlyState.done op vub node_id (dt.dispatch_spec state op));
        })
  unfolding Steps.readonly_apply
  apply_lem rid s e = ground arith

  -- The state after the request `rid` has been placed.
  abbrev pub placed_state : State dt → ℕ → ℕ → dt.WriteOperation → List ℕ → State dt
  placed_state s node_id rid op q = record s {
    tail = suc (s.tail);
    log = insert (s.log) (s.tail) (record { op = op; node_id = node_id });
    local_updates = insert (s.local_updates) rid (UpdateState.placed op (s.tail));
    combiner = insert (s.combiner) node_id (CombinerState.placed (push q rid));
  }

  pub place_lem :
      (node_id rid : ℕ) (s : State dt) {t : State dt}
      → Steps.update_place_ops_in_log_one node_id rid s ≡ some t
      → (q : List ℕ) × (op : dt.WriteOperation) × (s.combiner node_id
          ≡ some (CombinerState.placed q))
        × (s.local_updates rid ≡ some (UpdateState.init op))
        × (t ≡ placed_state s node_id rid op q)
  unfolding Steps.update_place_ops_in_log_one
  place_lem node_id rid s e = ground arith

  pub update_done_lem :
      (rid : ℕ) (s : State dt) {t : State dt}
      → Steps.update_done rid s ≡ some t
      → (ret : dt.Response) × (idx : ℕ) × (s.local_updates rid ≡ some (UpdateState.applied ret idx))
        × (idx < s.version_upper_bound)
        × (t ≡ record s { local_updates = insert (s.local_updates) rid (UpdateState.done ret idx) })
  unfolding Steps.update_done
  update_done_lem rid s e = ground arith

  pub trivial_start_lem :
      (n : ℕ) (s : State dt) {t : State dt}
      → Steps.exec_trivial_start n s ≡ some t
      → (s.combiner n ≡ some CombinerState.ready)
        × (t ≡ record s { combiner = insert (s.combiner) n (CombinerState.placed []) })
  unfolding Steps.exec_trivial_start
  trivial_start_lem n s e = ground arith

  pub load_local_version_lem :
      (n : ℕ) (s : State dt) {t : State dt}
      → Steps.exec_load_local_version n s ≡ some t
      → (q : List ℕ) × (v : ℕ) × (s.combiner n ≡ some (CombinerState.placed q))
        × (s.local_versions n ≡ some v)
        × (t ≡ record s {
          combiner = insert (s.combiner) n (CombinerState.loaded_local_version q v);
        })
  unfolding Steps.exec_load_local_version
  load_local_version_lem n s e = ground arith

  pub load_global_head_lem :
      (n : ℕ) (s : State dt) {t : State dt}
      → Steps.exec_load_global_head n s ≡ some t
      → (q : List ℕ) × (lv : ℕ) × (s.combiner n ≡ some (CombinerState.loaded_local_version q lv))
        × (t ≡ record s { combiner = insert (s.combiner) n (CombinerState.loop q lv 0 (s.tail)) })
  unfolding Steps.exec_load_global_head
  load_global_head_lem n s e = ground arith

  -- The state after the combiner of `n` has executed its own request `rid` at `lv`.
  abbrev pub local_state : State dt → ℕ → ℕ → dt.View × dt.Response → List ℕ → ℕ → ℕ → ℕ → State dt
  local_state s n rid next q lv idx end = record s {
    local_updates = insert (s.local_updates) rid (UpdateState.applied next.1 lv);
    replicas = insert (s.replicas) n next.0;
    combiner = insert (s.combiner) n (CombinerState.loop q (suc lv) (suc idx) end);
  }

  local_loop :
      (n : ℕ) (s : State dt) {t : State dt}
      → Steps.exec_dispatch_local n s ≡ some t
      → (q : List ℕ) × (lv idx end : ℕ) × (s.combiner n ≡ some (CombinerState.loop q lv idx end))
  unfolding Steps.exec_dispatch_local
  local_loop n s e = ground arith

  local_found :
      (n : ℕ) (s : State dt) {t : State dt} {q : List ℕ} {lv idx end : ℕ}
      → s.combiner n ≡ some (CombinerState.loop q lv idx end)
      → Steps.exec_dispatch_local n s ≡ some t
      → (old : dt.View) × (rid : ℕ) × (s.replicas n ≡ some old) × (get_elem? q idx ≡ some rid)
  unfolding Steps.exec_dispatch_local
  local_found n s c e = ground arith

  local_entry :
      (n : ℕ) (s : State dt) {t : State dt} {q : List ℕ} {lv idx end rid : ℕ} {old : dt.View}
      → s.combiner n ≡ some (CombinerState.loop q lv idx end)
      → s.replicas n ≡ some old
      → get_elem? q idx ≡ some rid
      → Steps.exec_dispatch_local n s ≡ some t
      → (u : UpdateState dt) × (s.local_updates rid ≡ some u)
        × (e : LogEntry dt) × (s.log lv ≡ some e)
  unfolding Steps.exec_dispatch_local
  local_entry n s {lv = lv} {rid = rid} c o g e =
      let (u, f) = present (s.local_updates rid) (λ h. ground arith) in
      let (l, h) = present (s.log lv) (λ h. ground arith) in (u, f, l, h)

  local_state_lem :
      (n : ℕ) (s : State dt) {t : State dt} {q : List ℕ} {lv idx end rid : ℕ} {old : dt.View}
      {u : UpdateState dt} {e : LogEntry dt}
      → s.combiner n ≡ some (CombinerState.loop q lv idx end)
      → s.replicas n ≡ some old
      → get_elem? q idx ≡ some rid
      → s.local_updates rid ≡ some u
      → s.log lv ≡ some e
      → Steps.exec_dispatch_local n s ≡ some t
      → (lv < end)
        × (e.node_id ≡ n)
        × (t ≡ local_state s n rid (dt.dispatch_mut_spec old (e.op)) q lv idx end)
  unfolding Steps.exec_dispatch_local
  local_state_lem n s c o g f l e = (ground arith, ground arith, ground arith)

  pub dispatch_local_lem :
      (n : ℕ) (s : State dt) {t : State dt}
      → Steps.exec_dispatch_local n s ≡ some t
      → (q : List ℕ) × (lv idx end rid : ℕ) × (old : dt.View) × (u : UpdateState dt) × (e : LogEntry
          dt)
        × (s.combiner n ≡ some (CombinerState.loop q lv idx end))
        × (s.replicas n ≡ some old)
        × (get_elem? q idx ≡ some rid)
        × (s.local_updates rid ≡ some u)
        × (s.log lv ≡ some e)
        × (lv < end)
        × (e.node_id ≡ n)
        × (t ≡ local_state s n rid (dt.dispatch_mut_spec old (e.op)) q lv idx end)
  unfolding Steps.exec_dispatch_local
  dispatch_local_lem n s e =
      let (q, lv, idx, end, c) = local_loop n s e in
      let (old, rid, o, g) = local_found n s c e in
      let (u, d, f, l) = local_entry n s c o g e in
      let (lt, own, eq) = local_state_lem n s c o g d l e in
      (q, lv, idx, end, rid, old, u, f, c, o, g, d, l, lt, own, eq)

  -- The state after the combiner of `n` has executed a request of another node at `lv`.
  abbrev pub remote_state : State dt → ℕ → dt.View → List ℕ → ℕ → ℕ → ℕ → State dt
  remote_state s n next q lv idx end = record s {
    replicas = insert (s.replicas) n next;
    combiner = insert (s.combiner) n (CombinerState.loop q (suc lv) idx end);
  }

  remote_loop :
      (n : ℕ) (s : State dt) {t : State dt}
      → Steps.exec_dispatch_remote n s ≡ some t
      → (q : List ℕ) × (lv idx end : ℕ) × (s.combiner n ≡ some (CombinerState.loop q lv idx end))
  unfolding Steps.exec_dispatch_remote
  remote_loop n s e = ground arith

  remote_found :
      (n : ℕ) (s : State dt) {t : State dt} {q : List ℕ} {lv idx end : ℕ}
      → s.combiner n ≡ some (CombinerState.loop q lv idx end)
      → Steps.exec_dispatch_remote n s ≡ some t
      → (old : dt.View) × (s.replicas n ≡ some old) × (e : LogEntry dt) × (s.log lv ≡ some e)
  unfolding Steps.exec_dispatch_remote
  remote_found n s {lv = lv} c e =
      let (old, f) = present (s.replicas n) (λ h. ground arith) in
      let (l, h) = present (s.log lv) (λ h. ground arith) in (old, f, l, h)

  remote_state_lem :
      (n : ℕ) (s : State dt) {t : State dt} {q : List ℕ} {lv idx end : ℕ} {old : dt.View}
      {e : LogEntry dt}
      → s.combiner n ≡ some (CombinerState.loop q lv idx end)
      → s.replicas n ≡ some old
      → s.log lv ≡ some e
      → Steps.exec_dispatch_remote n s ≡ some t
      → (lv < end)
        × (e.node_id ≢ n)
        × (t ≡ remote_state s n (dt.dispatch_mut_spec old (e.op)).0 q lv idx end)
  unfolding Steps.exec_dispatch_remote
  remote_state_lem n s c o l e = (ground arith, ground arith, ground arith)

  pub dispatch_remote_lem :
      (n : ℕ) (s : State dt) {t : State dt}
      → Steps.exec_dispatch_remote n s ≡ some t
      → (q : List ℕ) × (lv idx end : ℕ) × (old : dt.View) × (e : LogEntry dt) × (s.combiner n
          ≡ some (CombinerState.loop q lv idx end))
        × (s.replicas n ≡ some old)
        × (s.log lv ≡ some e)
        × (lv < end)
        × (e.node_id ≢ n)
        × (t ≡ remote_state s n (dt.dispatch_mut_spec old (e.op)).0 q lv idx end)
  unfolding Steps.exec_dispatch_remote
  dispatch_remote_lem n s e =
      let (q, lv, idx, end, c) = remote_loop n s e in
      let (old, o, f, l) = remote_found n s c e in
      let (lt, ne, eq) = remote_state_lem n s c o l e in
      (q, lv, idx, end, old, f, c, o, l, lt, ne, eq)

  pub update_version_lem :
      (n : ℕ) (s : State dt) {t : State dt}
      → Steps.exec_update_version_upper_bound n s ≡ some t
      → (q : List ℕ) × (lv idx end : ℕ) × (s.combiner n ≡ some (CombinerState.loop q lv idx end))
        × (lv ≡ end)
        × (t ≡ record s {
          version_upper_bound =
              if leb end (s.version_upper_bound) then s.version_upper_bound else end;
          combiner = insert (s.combiner) n (CombinerState.updated_version q end);
        })
  unfolding Steps.exec_update_version_upper_bound
  update_version_lem n s e = ground arith

  pub finish_lem :
      (n : ℕ) (s : State dt) {t : State dt}
      → Steps.exec_finish n s ≡ some t
      → (q : List ℕ) × (end v : ℕ) × (s.combiner n ≡ some (CombinerState.updated_version q end))
        × (s.local_versions n ≡ some v)
        × (t ≡ record s {
          local_versions = insert (s.local_versions) n end;
          combiner = insert (s.combiner) n CombinerState.ready;
        })
  unfolding Steps.exec_finish
  finish_lem n s e = ground arith

  pub finish_no_change_lem :
      (n : ℕ) (s : State dt) {t : State dt}
      → Steps.exec_finish_no_change n s ≡ some t
      → (q : List ℕ) × (lv : ℕ) × (s.combiner n ≡ some (CombinerState.loaded_local_version q lv))
        × (lv ≡ s.tail)
        × (t ≡ record s { combiner = insert (s.combiner) n CombinerState.ready })
  unfolding Steps.exec_finish_no_change
  finish_no_change_lem n s e = ground arith

  pub consume_read_lem :
      (rid : ℕ) (s : State dt) {ret : dt.Response} {t : State dt}
      → consume_read rid s ≡ some (ret, t)
      → (op : dt.ReadOperation) × (vub n : ℕ) × (s.local_reads rid
          ≡ some (ReadonlyState.done op vub n ret))
        × (t ≡ record s { local_reads = remove (s.local_reads) rid })
  unfolding consume_read
  consume_read_lem rid s e = ground arith

  pub consume_update_lem :
      (rid : ℕ) (s : State dt) {ret : dt.Response} {t : State dt}
      → consume_update rid s ≡ some (ret, t)
      → (idx : ℕ) × (s.local_updates rid ≡ some (UpdateState.done ret idx))
        × (t ≡ record s { local_updates = remove (s.local_updates) rid })
  unfolding consume_update
  consume_update_lem rid s e = ground arith
