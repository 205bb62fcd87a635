-- ===== src/UnboundedLog/Preserve/Exec.antt =====
-- spec/unbounded_log.rs: the transitions of a combiner keep the invariant.
use verified_node_replicatio.Prelude.{
  ℕ, ◌+◌, ◌-◌, ◌≤◌, ◌≡◌, refl, sym, if◌then◌else◌, leb, ==_refl, some, List, [], length, get_elem?,
  Map, insert, arith,
}
use verified_node_replicatio.Dispatch.{Dispatch}
use verified_node_replicatio.UnboundedLog.{
  LogEntry, UpdateState, CombinerState, queued_ops, State, current_version,
}
use verified_node_replicatio.UnboundedLog.Steps
use verified_node_replicatio.UnboundedLog.LogRange.{
  LogRangeNoNodeId, LogRangeMatchesQueue, no_node-matches, finished, local, remote,
}
use verified_node_replicatio.UnboundedLog.Enabled.{
  trivial_start_lem, load_local_version_lem, load_global_head_lem, update_version_lem, finish_lem,
  finish_no_change_lem,
}
use verified_node_replicatio.UnboundedLog.Inv.{Inv, CombinerWf}
use verified_node_replicatio.UnboundedLog.Keep.{Keeps, UpdateWf-mono}
use verified_node_replicatio.UnboundedLog.Preserve.Parts.{Moves-Inv}

module _ {dt : Dispatch} where
  pub same_updates : {q : List ℕ} {updates : Map (UpdateState dt)} → Keeps q updates updates
  same_updates = record { placed = λ j r i op g e. e; late = λ j r u g old e. old u e }

  -- Only the state of the combiner changes.
  combiner-Inv :
      (s : State dt) (n : ℕ) (c c' : CombinerState) (inv : Inv s)
      → (f : s.combiner n ≡ some c)
      → ((j rid : ℕ)
          → get_elem? (queued_ops c') j ≡ some rid
          → get_elem? (queued_ops c) j ≡ some rid)
      → current_version c ((inv.nodes n c f).v) ≡ current_version c' ((inv.nodes n c f).v)
      → CombinerWf
          (s.log)
          (s.tail)
          (s.version_upper_bound)
          (s.local_updates)
          n
          ((inv.nodes n c f).v)
          c'
      → Inv (record s { combiner = insert (s.combiner) n c' })
  combiner-Inv s n c c' inv f queue same w =
      let node = inv.nodes n c f in
      Moves-Inv s n c c' (s.version_upper_bound) (s.local_versions) (s.replicas) (s.local_updates)
        (record {
          was = f;
          queue = queue;
          vub_lo = omega arith;
          vub_hi = inv.vub_le;
          same_version = λ m other. refl;
          same_replica = λ m other. refl;
          keeps = λ m d other g. same_updates;
          node = record {
            v = node.v;
            the_version = node.the_version;
            version_le = node.version_le;
            the_replica = ground (arith, node.the_replica);
            wf = w;
          };
          progress = λ v v' a b. ground (arith, node.the_version);
          updated = inv.updates;
        })
        inv

  -- The end of the log holds nothing for a queue that is empty.
  pub free-matches :
      {log : Map (LogEntry dt)} {upper node_id : ℕ} {updates : Map (UpdateState dt)} (v : ℕ)
      → v ≤ upper
      → LogRangeNoNodeId log v upper node_id
      → LogRangeMatchesQueue [] log upper node_id updates 0 v
  free-matches {upper} {node_id} v le free =
      let k = upper - v in
      let e : k + v ≡ upper = omega arith in
      no_node-matches k v (omega arith) (rw e free) (finished (omega arith) refl)

  pub exec_trivial_start-Inv :
      (n : ℕ) (s : State dt) {t : State dt} → Inv s → Steps.exec_trivial_start n s ≡ some t → Inv t
  exec_trivial_start-Inv n s inv e =
      let (c, eq) = trivial_start_lem n s e in
      let node = inv.nodes n CombinerState.ready c in
      rw eq (
        combiner-Inv s n CombinerState.ready (CombinerState.placed []) inv c (λ j rid g. g) refl
          (record {
            range =
                free-matches (node.v) (omega (arith, node.version_le, inv.vub_le)) (node.wf.free);
            queue = record {
              late = λ j r u lt g f. absurd (cc);
              waiting = λ j r le g. absurd (cc);
            };
          }))

  pub exec_load_local_version-Inv :
      (n : ℕ) (s : State dt) {t : State dt}
      → Inv s
      → Steps.exec_load_local_version n s ≡ some t
      → Inv t
  exec_load_local_version-Inv n s inv e =
      let (q, v, c, h, eq) = load_local_version_lem n s e in
      let node = inv.nodes n (CombinerState.placed q) c in
      let same : node.v ≡ v = ground (arith, node.the_version) in
      rw eq (
        combiner-Inv s n (CombinerState.placed q) (CombinerState.loaded_local_version q v) inv c
          (λ j rid g. g) same
          (record { same = sym same; range = rw (← same) (node.wf.range); queue = node.wf.queue }))

  pub exec_load_global_head-Inv :
      (n : ℕ) (s : State dt) {t : State dt}
      → Inv s
      → Steps.exec_load_global_head n s ≡ some t
      → Inv t
  exec_load_global_head-Inv n s inv e =
      let (q, lv, c, eq) = load_global_head_lem n s e in
      let node = inv.nodes n (CombinerState.loaded_local_version q lv) c in
      rw eq (
        combiner-Inv s n (CombinerState.loaded_local_version q lv)
          (CombinerState.loop q lv 0 (s.tail)) inv c (λ j rid g. g) refl
          (record {
            end_le = omega arith;
            from = omega (arith, node.wf.same);
            to = omega (arith, node.wf.same, node.version_le, inv.vub_le);
            idx_le = omega arith;
            range = node.wf.range;
            free = λ i lo hi. absurd (omega arith);
            queue = node.wf.queue;
          }))

  -- A range that is executed as far as its end is that of an executed queue.
  pub matches_end :
      {queue : List ℕ} {log : Map (LogEntry dt)} {upper node_id : ℕ}
      {updates : Map (UpdateState dt)} {qi lower : ℕ}
      → lower ≡ upper
      → LogRangeMatchesQueue queue log upper node_id updates qi lower
      → qi ≡ length queue
  matches_end e (finished p q) = q
  matches_end e (local f rid op lt h n g u m) = absurd (omega arith)
  matches_end e (remote f lt h n m) = absurd (omega arith)

  pub exec_update_version_upper_bound-Inv :
      (n : ℕ) (s : State dt) {t : State dt}
      → Inv s
      → Steps.exec_update_version_upper_bound n s ≡ some t
      → Inv t
  exec_update_version_upper_bound-Inv n s inv e =
      let (q, lv, idx, end, c, at, eq) = update_version_lem n s e in
      let node = inv.nodes n (CombinerState.loop q lv idx end) c in
      let w = node.wf in
      let vub = if leb end (s.version_upper_bound) then s.version_upper_bound else end in
      let up : s.version_upper_bound ≤ vub = ground arith in
      let all : idx ≡ length q = matches_end at (w.range) in
      rw eq (
        Moves-Inv s n (CombinerState.loop q lv idx end) (CombinerState.updated_version q end) vub
          (s.local_versions) (s.replicas) (s.local_updates)
          (record {
            was = c;
            queue = λ j rid g. g;
            vub_lo = up;
            vub_hi = ground (arith, w.end_le, inv.vub_le);
            same_version = λ m other. refl;
            same_replica = λ m other. refl;
            keeps = λ m d other g. same_updates;
            node = record {
              v = node.v;
              the_version = node.the_version;
              version_le = omega (arith, node.version_le);
              the_replica = rw (← at) (node.the_replica);
              wf = record {
                end_le = ground arith;
                from = omega (arith, w.from, w.to);
                free = w.free;
                queue = rw (← all) (w.queue);
              };
            };
            progress = λ v v' a b. omega arith;
            updated = λ rid u f.
                UpdateWf-mono (s.log) (s.log) (s.tail) (s.tail) (s.version_upper_bound) vub
                  (λ i lt. refl) (omega arith) up (inv.vub_le) u (inv.updates rid u f);
          })
          inv)

  pub exec_finish-Inv :
      (n : ℕ) (s : State dt) {t : State dt} → Inv s → Steps.exec_finish n s ≡ some t → Inv t
  exec_finish-Inv n s inv e =
      let (q, end, v, c, h, eq) = finish_lem n s e in
      let node = inv.nodes n (CombinerState.updated_version q end) c in
      rw eq (
        Moves-Inv s n (CombinerState.updated_version q end) CombinerState.ready
          (s.version_upper_bound) (insert (s.local_versions) n end) (s.replicas) (s.local_updates)
          (record {
            was = c;
            queue = λ j rid g. absurd (cc);
            vub_lo = omega arith;
            vub_hi = inv.vub_le;
            same_version = λ m other. rw other refl;
            same_replica = λ m other. refl;
            keeps = λ m d other g. same_updates;
            node = record {
              v = end;
              the_version = rw (==_refl n) refl;
              version_le = node.wf.end_le;
              the_replica = node.the_replica;
              wf = record { free = node.wf.free };
            };
            progress = λ v v' a b. ground (arith, ==_refl n);
            updated = inv.updates;
          })
          inv)

  pub exec_finish_no_change-Inv :
      (n : ℕ) (s : State dt) {t : State dt}
      → Inv s
      → Steps.exec_finish_no_change n s ≡ some t
      → Inv t
  exec_finish_no_change-Inv n s inv e =
      let (q, lv, c, at, eq) = finish_no_change_lem n s e in
      let node = inv.nodes n (CombinerState.loaded_local_version q lv) c in
      rw eq (
        combiner-Inv s n (CombinerState.loaded_local_version q lv) CombinerState.ready inv c
          (λ j rid g. absurd (cc)) (node.wf.same)
          (record { free = λ i lo hi. absurd (omega (arith, node.wf.same)) }))
