-- ===== src/UnboundedLog/Preserve/Dispatched.antt =====
-- spec/unbounded_log.rs, `exec_dispatch_local` and `exec_dispatch_remote`: a combiner executes one
-- entry of the log, and the invariant stays.
use verified_node_replicatio.Prelude.{
  ℕ, suc, ap, ◌<◌, ◌≡◌, ◌≢◌, ◌==◌, refl, ◌∙◌, Bool-cases, ==_refl, inl, inr, some, List, get_elem?,
  get_elem?-lt, Map, insert, insert_ne, insert-All, arith,
}
use verified_node_replicatio.Dispatch.{Dispatch}
use verified_node_replicatio.UnboundedLog.{
  LogEntry, UpdateState, CombinerState, State, compute_nrstate_at_version,
}
use verified_node_replicatio.UnboundedLog.Steps
use verified_node_replicatio.UnboundedLog.LogRange.{
  LogRangeMatchesQueue, matches_map, compute-suc, finished, local, remote,
}
use verified_node_replicatio.UnboundedLog.Enabled.{dispatch_local_lem, dispatch_remote_lem}
use verified_node_replicatio.UnboundedLog.Inv.{Inv, QueueWf}
use verified_node_replicatio.UnboundedLog.Keep.{Keeps-of_not_queued}
use verified_node_replicatio.UnboundedLog.Preserve.Parts.{Moves-Inv}
use verified_node_replicatio.UnboundedLog.Preserve.Exec.{same_updates}

module _ {dt : Dispatch} where
  -- The range begins at an entry of the node.
  pub matches-local :
      {queue : List ℕ} {log : Map (LogEntry dt)} {upper node_id : ℕ}
      {updates : Map (UpdateState dt)} {qi lower : ℕ} (e : LogEntry dt)
      → lower < upper
      → log lower ≡ some e
      → e.node_id ≡ node_id
      → LogRangeMatchesQueue queue log upper node_id updates qi lower
      → (rid : ℕ) × (op : dt.WriteOperation) × (get_elem? queue qi ≡ some rid)
        × (updates rid ≡ some (UpdateState.placed op lower))
        × LogRangeMatchesQueue queue log upper node_id updates (suc qi) (suc lower)
  matches-local e lt h own (finished p q) = absurd (omega arith)
  matches-local e lt h own (local f rid op _ h' n g u m) = (rid, op, g, u, m)
  matches-local e lt h own (remote f _ h' n m) =
      let same : e ≡ f = ground arith in absurd (n (ground arith))

  -- The range begins at an entry of another node.
  pub matches-remote :
      {queue : List ℕ} {log : Map (LogEntry dt)} {upper node_id : ℕ}
      {updates : Map (UpdateState dt)} {qi lower : ℕ} (e : LogEntry dt)
      → lower < upper
      → log lower ≡ some e
      → e.node_id ≢ node_id
      → LogRangeMatchesQueue queue log upper node_id updates qi lower
      → LogRangeMatchesQueue queue log upper node_id updates qi (suc lower)
  matches-remote e lt h other (finished p q) = absurd (omega arith)
  matches-remote e lt h other (local f rid op _ h' n g u m) =
      let same : e ≡ f = ground arith in absurd (other (ground arith))
  matches-remote e lt h other (remote f _ h' n m) = m

  -- The queue after its request at `idx` has been executed.
  executed-QueueWf :
      {q : List ℕ} {updates : Map (UpdateState dt)} {idx rid : ℕ} (ret : dt.Response) (lv : ℕ)
      → get_elem? q idx ≡ some rid
      → ((j : ℕ) → get_elem? q j ≡ some rid → j ≡ idx)
      → QueueWf q updates idx
      → QueueWf q (insert updates rid (UpdateState.applied ret lv)) (suc idx)
  executed-QueueWf {updates} {idx} {rid} ret lv g once w = record {
    late = λ j r u lt f e. elim (Bool-cases (rid == r)) [
      | inl here ↦ let same : UpdateState.applied ret lv ≡ u = ground arith in rw (← same) tt
      | inr other ↦ w.late j r u (ground arith) f (rw other at e)
    ];
    waiting = λ j r le f.
        let ne : rid ≢ r = λ same. ground (arith, once j) in
        let (op, i, u) = w.waiting j r (omega arith) f in
        (op, i, insert_ne updates rid r (UpdateState.applied ret lv) ne ∙ u);
  }

  pub exec_dispatch_local-Inv :
      (n : ℕ) (s : State dt) {t : State dt} → Inv s → Steps.exec_dispatch_local n s ≡ some t → Inv t
  exec_dispatch_local-Inv n s inv run =
      let (q, lv, idx, end, rid, old, u, e, c, o, g, d, l, lt, own, eq) =
        dispatch_local_lem n s run in
      let node = inv.nodes n (CombinerState.loop q lv idx end) c in
      let w = node.wf in
      let (rid', op, g', p, m) = matches-local e lt l own (w.range) in
      let next = dt.dispatch_mut_spec old (e.op) in
      let applied : UpdateState dt = UpdateState.applied next.1 lv in
      let view : old ≡ compute_nrstate_at_version dt (s.log) lv =
        ground (arith, node.the_replica) in
      let once : (j : ℕ) → get_elem? q j ≡ some rid → j ≡ idx = (λ j f.
        (inv.owner n n j idx rid (CombinerState.loop q lv idx end) (CombinerState.loop q lv idx end)
          c c f g).1) in
      rw eq (
        Moves-Inv s n (CombinerState.loop q lv idx end)
          (CombinerState.loop q (suc lv) (suc idx) end) (s.version_upper_bound) (s.local_versions)
          (insert (s.replicas) n next.0) (insert (s.local_updates) rid applied)
          (record {
            was = c;
            queue = λ j r f. f;
            vub_lo = omega arith;
            vub_hi = inv.vub_le;
            same_version = λ k other. refl;
            same_replica = λ k other. rw other refl;
            keeps = λ k b other f. Keeps-of_not_queued (s.local_updates) rid applied (λ j h.
                ground
                  (arith, inv.owner n k idx j rid (CombinerState.loop q lv idx end) b c f g h));
            node = record {
              v = node.v;
              the_version = node.the_version;
              version_le = node.version_le;
              the_replica = rw (==_refl n) (ground (arith, compute-suc (s.log) lv l));
              wf = record {
                end_le = w.end_le;
                from = omega (arith, w.from);
                to = omega arith;
                idx_le = omega (arith, get_elem?-lt q idx g);
                range =
                    matches_map (λ i h. refl)
                      (λ j r i b le f h.
                        insert_ne (s.local_updates) rid r applied (λ same. ground (arith, once j))
                        ∙ h)
                      m;
                free = w.free;
                queue = executed-QueueWf next.1 lv g once (w.queue);
              };
            };
            progress = λ v v' a b. omega arith;
            updated =
                insert-All (s.local_updates) rid applied
                  (record {
                    e = e;
                    below = omega (arith, w.end_le);
                    entry = l;
                    result = ap (λ x. (dt.dispatch_mut_spec x (e.op)).1) view;
                  })
                  (λ j r other f. inv.updates j r f);
          })
          inv)

  pub exec_dispatch_remote-Inv :
      (n : ℕ) (s : State dt) {t : State dt}
      → Inv s
      → Steps.exec_dispatch_remote n s ≡ some t
      → Inv t
  exec_dispatch_remote-Inv n s inv run =
      let (q, lv, idx, end, old, e, c, o, l, lt, other, eq) = dispatch_remote_lem n s run in
      let node = inv.nodes n (CombinerState.loop q lv idx end) c in
      let w = node.wf in
      let view : old ≡ compute_nrstate_at_version dt (s.log) lv =
        ground (arith, node.the_replica) in
      rw eq (
        Moves-Inv s n (CombinerState.loop q lv idx end) (CombinerState.loop q (suc lv) idx end)
          (s.version_upper_bound) (s.local_versions)
          (insert (s.replicas) n (dt.dispatch_mut_spec old (e.op)).0) (s.local_updates)
          (record {
            was = c;
            queue = λ j r f. f;
            vub_lo = omega arith;
            vub_hi = inv.vub_le;
            same_version = λ k _. refl;
            same_replica = λ k ne. rw ne refl;
            keeps = λ k b _ f. same_updates;
            node = record {
              v = node.v;
              the_version = node.the_version;
              version_le = node.version_le;
              the_replica = rw (==_refl n) (ground (arith, compute-suc (s.log) lv l));
              wf = record {
                end_le = w.end_le;
                from = omega (arith, w.from);
                to = omega arith;
                idx_le = w.idx_le;
                range = matches-remote e lt l other (w.range);
                free = w.free;
                queue = w.queue;
              };
            };
            progress = λ v v' a b. omega arith;
            updated = inv.updates;
          })
          inv)
