-- ===== src/UnboundedLog/Preserve/Requests.antt =====
-- spec/unbounded_log.rs: the transitions of one request, and the requests that enter and leave,
-- keep the invariant.
use verified_node_replicatio.Prelude.{
  ℕ, ◌≤◌, ◌≡◌, some, insert, remove, insert-All, remove-All, arith,
}
use verified_node_replicatio.Dispatch.{Dispatch, InputOperation}
use verified_node_replicatio.UnboundedLog.{ReadonlyState, UpdateState, CombinerState, State}
use verified_node_replicatio.UnboundedLog.Steps
use verified_node_replicatio.UnboundedLog.Next.{add_ticket, consume_read, consume_update, IsFreshId}
use verified_node_replicatio.UnboundedLog.Enabled.{
  version_upper_bound_lem, ready_to_read_lem, apply_lem, update_done_lem, consume_read_lem,
  consume_update_lem,
}
use verified_node_replicatio.UnboundedLog.Inv.{Inv, ReadWf}
use verified_node_replicatio.UnboundedLog.Keep.{
  Keeps-of_not_queued, Keeps-of_late, Keeps-remove, version-current,
}
use verified_node_replicatio.UnboundedLog.Preserve.Parts.{reads-Inv, updates-Inv}

module _ {dt : Dispatch} where
  -- The reads after the state of one request has been set.
  set_read-Inv :
      (s : State dt) (rid : ℕ) (r : ReadonlyState dt)
      → ReadWf (s.log) (s.version_upper_bound) (s.combiner) (s.local_versions) r
      → Inv s
      → Inv (record s { local_reads = insert (s.local_reads) rid r })
  set_read-Inv s rid r w inv =
      reads-Inv s (insert (s.local_reads) rid r)
        (insert-All (s.local_reads) rid r w (λ j u other e. inv.reads j u e)) inv

  pub readonly_version_upper_bound-Inv :
      (rid : ℕ) (s : State dt) {t : State dt}
      → Inv s
      → Steps.readonly_version_upper_bound rid s ≡ some t
      → Inv t
  readonly_version_upper_bound-Inv rid s inv e =
      let (op, _, eq) = version_upper_bound_lem rid s e in
      rw eq (
        set_read-Inv s rid (ReadonlyState.version_upper_bound op (s.version_upper_bound))
          (omega arith) inv)

  pub readonly_ready_to_read-Inv :
      (rid node_id : ℕ) (s : State dt) {t : State dt}
      → Inv s
      → Steps.readonly_ready_to_read rid node_id s ≡ some t
      → Inv t
  readonly_ready_to_read-Inv rid node_id s inv e =
      let (op, vub, v, r, h, le, eq) = ready_to_read_lem rid node_id s e in
      let (c, f) = inv.combiners node_id v h in
      let node = inv.nodes node_id c f in
      let same : node.v ≡ v = ground (arith, node.the_version) in
      let ge =
        version-current (s.log) (s.tail) (s.version_upper_bound) (s.local_updates) node_id (node.v)
          c (node.wf) in
      rw eq (
        set_read-Inv s rid (ReadonlyState.ready_to_read op vub node_id)
          (
            inv.reads rid (ReadonlyState.version_upper_bound op vub) r,
            record { c = c; v = v; the_combiner = f; the_version = h; enough = ground arith },
          )
          inv)

  pub readonly_apply-Inv :
      (rid : ℕ) (s : State dt) {t : State dt} → Inv s → Steps.readonly_apply rid s ≡ some t → Inv t
  readonly_apply-Inv rid s inv e =
      let (op, vub, n, state, r, c, view, eq) = apply_lem rid s e in
      let node = inv.nodes n CombinerState.ready c in
      let w = (inv.reads rid (ReadonlyState.ready_to_read op vub n) r).1 in
      let same : w.c ≡ CombinerState.ready = ground (arith, w.the_combiner) in
      let at : w.v ≡ node.v = ground (arith, w.the_version, node.the_version) in
      let reached : vub ≤ node.v = ground (arith, w.enough) in
      rw eq (
        set_read-Inv s rid (ReadonlyState.done op vub n (dt.dispatch_spec state op))
          (record {
            at = node.v;
            lo = reached;
            hi = node.version_le;
            answer = ground (arith, node.the_replica);
          })
          inv)

  pub update_done-Inv :
      (rid : ℕ) (s : State dt) {t : State dt} → Inv s → Steps.update_done rid s ≡ some t → Inv t
  update_done-Inv rid s inv e =
      let (ret, idx, u, lt, eq) = update_done_lem rid s e in
      let w = inv.updates rid (UpdateState.applied ret idx) u in
      rw eq (
        updates-Inv s (insert (s.local_updates) rid (UpdateState.done ret idx))
          (λ n c _.
            Keeps-of_late (s.local_updates) rid (UpdateState.applied ret idx)
              (UpdateState.done ret idx) u tt tt)
          (insert-All (s.local_updates) rid (UpdateState.done ret idx)
            (record { e = w.e; below = lt; entry = w.entry; result = w.result })
            (λ j r other f. inv.updates j r f))
          inv)

  pub add_ticket-Inv :
      (rid : ℕ) (input : InputOperation dt) (s : State dt) {t : State dt}
      → Inv s
      → IsFreshId s rid
      → add_ticket rid input s ≡ some t
      → Inv t
  unfolding add_ticket
  add_ticket-Inv rid (InputOperation.read op) s {t} inv fresh e =
      let eq : t ≡ record s { local_reads = insert (s.local_reads) rid (ReadonlyState.init op) } =
        ground arith in
      rw eq (set_read-Inv s rid (ReadonlyState.init op) tt inv)
  add_ticket-Inv rid (InputOperation.write op) s {t} inv fresh e =
      let eq : t ≡ record s { local_updates = insert (s.local_updates) rid (UpdateState.init op) } =
        ground arith in
      rw eq (
        updates-Inv s (insert (s.local_updates) rid (UpdateState.init op))
          (λ n c f.
            Keeps-of_not_queued (s.local_updates) rid (UpdateState.init op)
              (λ j g. fresh n j c f g))
          (insert-All (s.local_updates) rid (UpdateState.init op) tt
            (λ j r other f. inv.updates j r f))
          inv)

  pub consume_read-Inv :
      (rid : ℕ) (s : State dt) {ret : dt.Response} {t : State dt}
      → Inv s
      → consume_read rid s ≡ some (ret, t)
      → Inv t
  consume_read-Inv rid s inv e =
      let (op, vub, n, r, eq) = consume_read_lem rid s e in
      rw eq (
        reads-Inv s (remove (s.local_reads) rid)
          (remove-All (s.local_reads) rid (λ j r other f. inv.reads j r f)) inv)

  pub consume_update-Inv :
      (rid : ℕ) (s : State dt) {ret : dt.Response} {t : State dt}
      → Inv s
      → consume_update rid s ≡ some (ret, t)
      → Inv t
  consume_update-Inv rid s {ret} inv e =
      let (idx, u, eq) = consume_update_lem rid s e in
      rw eq (
        updates-Inv s (remove (s.local_updates) rid)
          (λ n c _. Keeps-remove (s.local_updates) rid (UpdateState.done ret idx) u tt)
          (remove-All (s.local_updates) rid (λ j r other f. inv.updates j r f)) inv)
