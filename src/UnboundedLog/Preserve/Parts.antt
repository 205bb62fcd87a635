-- ===== src/UnboundedLog/Preserve/Parts.antt =====
-- spec/unbounded_log.rs: the invariant after a change of one part of the state.
use verified_node_replicatio.Prelude.{
  ℕ, ◌≤◌, ◌≡◌, ◌==◌, refl, Bool-cases, inl, inr, false, some, get_elem?, Map, insert, insert-All,
  arith,
}
use verified_node_replicatio.Dispatch.{Dispatch}
use verified_node_replicatio.UnboundedLog.{
  ReadonlyState, UpdateState, CombinerState, queued_ops, State, current_version,
}
use verified_node_replicatio.UnboundedLog.Inv.{Inv, NodeWf, ReadWf, Reached, UpdateWf}
use verified_node_replicatio.UnboundedLog.Keep.{Keeps, CombinerWf-Keeps, Owner-insert, ReadWf-mono}

module _ {dt : Dispatch} where
  pub reads-Inv :
      (s : State dt) (reads : Map (ReadonlyState dt))
      → ((rid : ℕ) (r : ReadonlyState dt)
          → reads rid ≡ some r
          → ReadWf (s.log) (s.version_upper_bound) (s.combiner) (s.local_versions) r)
      → Inv s
      → Inv (record s { local_reads = reads })
  reads-Inv s reads new inv = record {
    vub_le = inv.vub_le;
    log_full = inv.log_full;
    log_end = inv.log_end;
    nodes = inv.nodes;
    combiners = inv.combiners;
    owner = inv.owner;
    reads = new;
    updates = inv.updates;
  }

  -- A node is as before under a change of the updates that respects its queue.
  pub NodeWf-Keeps :
      (s : State dt) (vub : ℕ) (updates : Map (UpdateState dt)) (n : ℕ) (c : CombinerState)
      → s.version_upper_bound ≤ vub
      → Keeps (queued_ops c) (s.local_updates) updates
      → NodeWf
          (s.log)
          (s.tail)
          (s.version_upper_bound)
          (s.local_updates)
          n
          (s.local_versions n)
          (s.replicas n)
          c
      → NodeWf (s.log) (s.tail) vub updates n (s.local_versions n) (s.replicas n) c
  NodeWf-Keeps s vub updates n c le k w = record {
    v = w.v;
    the_version = w.the_version;
    version_le = omega (arith, w.version_le);
    the_replica = w.the_replica;
    wf =
        CombinerWf-Keeps (s.log) (s.tail) (s.version_upper_bound) vub (s.local_updates) updates n
          (w.v) le c k (w.wf);
  }

  pub updates-Inv :
      (s : State dt) (updates : Map (UpdateState dt))
      → ((n : ℕ) (c : CombinerState)
          → s.combiner n ≡ some c
          → Keeps (queued_ops c) (s.local_updates) updates)
      → ((rid : ℕ) (u : UpdateState dt)
          → updates rid ≡ some u
          → UpdateWf (s.log) (s.tail) (s.version_upper_bound) u)
      → Inv s
      → Inv (record s { local_updates = updates })
  updates-Inv s updates keeps new inv = record {
    vub_le = inv.vub_le;
    log_full = inv.log_full;
    log_end = inv.log_end;
    nodes = λ n c e.
        NodeWf-Keeps s (s.version_upper_bound) updates n c (omega arith) (keeps n c e)
          (inv.nodes n c e);
    combiners = inv.combiners;
    owner = inv.owner;
    reads = inv.reads;
    updates = new;
  }

  -- What the combiner of `n` may change when it goes from `c` to `c'`.
  pub record Moves (s : State dt) (n : ℕ) (c c' : CombinerState) (vub : ℕ) (versions : Map ℕ)
      (replicas : Map (dt.View)) (updates : Map (UpdateState dt)) : Type 0 where
    pub was : s.combiner n ≡ some c
    pub queue :
        (j rid : ℕ) → get_elem? (queued_ops c') j ≡ some rid → get_elem? (queued_ops c) j ≡ some rid
    pub vub_lo : s.version_upper_bound ≤ vub
    pub vub_hi : vub ≤ s.tail
    pub same_version : (m : ℕ) → (n == m) ≡ false → versions m ≡ s.local_versions m
    pub same_replica : (m : ℕ) → (n == m) ≡ false → replicas m ≡ s.replicas m
    pub keeps :
        (m : ℕ) (d : CombinerState)
        → (n == m) ≡ false
        → s.combiner m ≡ some d
        → Keeps (queued_ops d) (s.local_updates) updates
    pub node : NodeWf (s.log) (s.tail) vub updates n (versions n) (replicas n) c'
    pub progress :
        (v v' : ℕ)
        → s.local_versions n ≡ some v
        → versions n ≡ some v'
        → current_version c v ≤ current_version c' v'
    pub updated :
        (rid : ℕ) (u : UpdateState dt) → updates rid ≡ some u → UpdateWf (s.log) (s.tail) vub u

  Moves-Reached :
      (s : State dt) (n : ℕ) (c c' : CombinerState) (vub : ℕ) (versions : Map ℕ)
      (replicas : Map (dt.View)) (updates : Map (UpdateState dt))
      → Moves s n c c' vub versions replicas updates
      → (k b : ℕ) → Reached (s.combiner k) (s.local_versions k) b
      → Reached (insert (s.combiner) n c' k) (versions k) b
  Moves-Reached s n c c' vub versions replicas updates m k b r = elim (Bool-cases (n == k)) [
    | inl here ↦
        let old : s.local_versions n ≡ some (r.v) = ground (arith, r.the_version) in
        let was : r.c ≡ c = ground (arith, r.the_combiner, m.was) in
        record {
          c = c';
          v = m.node.v;
          the_combiner = ground arith;
          the_version = ground (arith, m.node.the_version);
          enough = ground (arith, m.progress (r.v) (m.node.v) old (m.node.the_version), r.enough);
        }
    | inr other ↦ record {
      c = r.c;
      v = r.v;
      the_combiner = rw other (r.the_combiner);
      the_version = rw (m.same_version k other) (r.the_version);
      enough = r.enough;
    }
  ]

  pub Moves-Inv :
      (s : State dt) (n : ℕ) (c c' : CombinerState) (vub : ℕ) (versions : Map ℕ)
      (replicas : Map (dt.View)) (updates : Map (UpdateState dt))
      → Moves s n c c' vub versions replicas updates
      → Inv s
      → Inv (record s {
        version_upper_bound = vub;
        local_versions = versions;
        replicas = replicas;
        local_updates = updates;
        combiner = insert (s.combiner) n c';
      })
  Moves-Inv s n c c' vub versions replicas updates m inv = record {
    vub_le = m.vub_hi;
    log_full = inv.log_full;
    log_end = inv.log_end;
    nodes = insert-All (s.combiner) n c' (m.node) (λ k d other e. rw (m.same_version k other) (
        rw (m.same_replica k other)
          (NodeWf-Keeps s vub updates k d (m.vub_lo) (m.keeps k d other e) (inv.nodes k d e))));
    combiners = λ k v e. elim (Bool-cases (n == k)) [
      | inl here ↦ (c', rw here refl)
      | inr other ↦
          let (d, f) = inv.combiners k v (rw (m.same_version k other) at e) in (d, rw other f)
    ];
    owner = Owner-insert (s.combiner) n c c' (m.was) (m.queue) (inv.owner);
    reads = λ rid r e.
        ReadWf-mono (s.log) (s.log) (s.version_upper_bound) vub (s.combiner)
          (insert (s.combiner) n c') (s.local_versions) versions (λ i lt. refl) (m.vub_lo)
          (Moves-Reached s n c c' vub versions replicas updates m) r (inv.reads rid r e);
    updates = m.updated;
  }
