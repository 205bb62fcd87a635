-- ===== src/UnboundedLog/Preserve/Place.antt =====
-- spec/unbounded_log.rs, `update_place_ops_in_log_one`: a combiner places a request in the log, and
-- the invariant stays.
use verified_node_replicatio.Prelude.{
  ℕ, suc, ◌≤◌, ◌≡◌, ◌≢◌, ◌==◌, refl, ◌∙◌, Bool-cases, inl, inr, false, some, List, get_elem?, push,
  get_elem?-push, Map, insert, insert_ne, insert-All, arith,
}
use verified_node_replicatio.Dispatch.{Dispatch}
use verified_node_replicatio.UnboundedLog.{
  LogEntry, UpdateState, CombinerState, queued_ops, State, current_version,
  compute_nrstate_at_version,
}
use verified_node_replicatio.UnboundedLog.Steps
use verified_node_replicatio.UnboundedLog.LogRange.{matches-append, compute-agree}
use verified_node_replicatio.UnboundedLog.Enabled.{place_lem, placed_state}
use verified_node_replicatio.UnboundedLog.Inv.{Inv, NodeWf, CombinerWf, QueueWf, Owner, Reached}
use verified_node_replicatio.UnboundedLog.Keep.{
  Keeps-of_not_queued, queue_of, init_not_queued, UpdateWf-mono, ReadWf-mono,
}
use verified_node_replicatio.UnboundedLog.Append.{agree_below, CombinerWf-append_other}

-- No combiner has the request in its queue.
abbrev pub IsUnqueued : Map CombinerState → ℕ → Type 0
IsUnqueued m rid =
    (k j : ℕ) (d : CombinerState) → m k ≡ some d → get_elem? (queued_ops d) j ≢ some rid

-- A combiner queues a request that no combiner has queued.
Owner-push :
    (m : Map CombinerState) (n : ℕ) (q : List ℕ) (rid : ℕ)
    → m n ≡ some (CombinerState.placed q)
    → IsUnqueued m rid
    → Owner m
    → Owner (insert m n (CombinerState.placed (push q rid)))
Owner-push m n q rid c out own a b j k r d f p p' g h = elim (Bool-cases (n == a)) [
  | inl na ↦ elim (Bool-cases (n == b)) [
    | inl nb ↦ ground (
      arith,
      own n n j k r (CombinerState.placed q) (CombinerState.placed q),
      get_elem?-push q rid j {r = r},
      get_elem?-push q rid k {r = r},
      out n j (CombinerState.placed q),
      out n k (CombinerState.placed q),
    )
    | inr nb ↦
        ground (
          arith,
          own n b j k r (CombinerState.placed q) f,
          get_elem?-push q rid j {r = r},
          out b k f,
        )
  ]
  | inr na ↦ elim (Bool-cases (n == b)) [
    | inl nb ↦
        ground (
          arith,
          own a n j k r d (CombinerState.placed q),
          get_elem?-push q rid k {r = r},
          out a j d,
        )
    | inr nb ↦ ground (arith, own a b j k r d f)
  ]
]

module _ {dt : Dispatch} where
  current_le :
      (log : Map (LogEntry dt)) (tail vub : ℕ) (updates : Map (UpdateState dt)) (n v : ℕ)
      (c : CombinerState)
      → v ≤ vub
      → vub ≤ tail
      → CombinerWf log tail vub updates n v c
      → current_version c v ≤ tail
  current_le log tail vub updates n v CombinerState.ready a b w = omega arith
  current_le log tail vub updates n v (CombinerState.placed q) a b w = omega arith
  current_le log tail vub updates n v (CombinerState.loaded_local_version q lv) a b w =
      omega (arith, w.same)
  current_le log tail vub updates n v (CombinerState.loop q lv idx end) a b w =
      omega (arith, w.to, w.end_le)
  current_le log tail vub updates n v (CombinerState.updated_version q end) a b w =
      omega (arith, w.end_le)

  placed-QueueWf :
      {q : List ℕ} {updates : Map (UpdateState dt)} (rid tail : ℕ) (op : dt.WriteOperation)
      → ((j : ℕ) → get_elem? q j ≢ some rid)
      → QueueWf q updates 0
      → QueueWf (push q rid) (insert updates rid (UpdateState.placed op tail)) 0
  placed-QueueWf {q} {updates} rid tail op out w = record {
    late = λ j r u lt g e. absurd (omega arith);
    waiting = λ j r le g. elim (get_elem?-push q rid j g) [
      | inl old ↦
          let (o, i, u) = w.waiting j r le old in
          (
            o,
            i,
            insert_ne updates rid r (UpdateState.placed op tail) (λ same. ground (arith, out j))
                ∙ u,
          )
      | inr new ↦ (op, tail, ground arith)
    ];
  }

  -- A request that waits to be placed is in no queue.
  pub init-IsUnqueued :
      (s : State dt) (rid : ℕ) (op : dt.WriteOperation)
      → Inv s
      → s.local_updates rid ≡ some (UpdateState.init op)
      → IsUnqueued (s.combiner) rid
  init-IsUnqueued s rid op inv u k j d f g =
      let node = inv.nodes k d f in
      let (idx, w) =
        queue_of (s.log) (s.tail) (s.version_upper_bound) (s.local_updates) k (node.v) d
          (node.wf) in
      init_not_queued w u j g

  module _ (s : State dt) (n rid : ℕ) (op : dt.WriteOperation) (q : List ℕ) (inv : Inv s)
      (c : s.combiner n ≡ some (CombinerState.placed q))
      (u : s.local_updates rid ≡ some (UpdateState.init op)) where
    abbrev entry : LogEntry dt
    entry = record { op = op; node_id = n }

    abbrev placed_log : Map (LogEntry dt)
    placed_log = insert (s.log) (s.tail) entry

    abbrev placed_updates : Map (UpdateState dt)
    placed_updates = insert (s.local_updates) rid (UpdateState.placed op (s.tail))

    same_view :
        (v : ℕ)
        → v ≤ s.tail
        → compute_nrstate_at_version dt placed_log v ≡ compute_nrstate_at_version dt (s.log) v
    same_view v le = compute-agree v (agree_below (s.log) (s.tail) entry v le)

    placed_node :
        NodeWf placed_log
          (suc (s.tail))
          (s.version_upper_bound)
          placed_updates
          n
          (s.local_versions n)
          (s.replicas n)
          (CombinerState.placed (push q rid))
    placed_node =
        let node = inv.nodes n (CombinerState.placed q) c in
        let out : (j : ℕ) → get_elem? q j ≢ some rid =
          (λ j. init-IsUnqueued s rid op inv u n j (CombinerState.placed q) c) in
        record {
          v = node.v;
          the_version = node.the_version;
          version_le = node.version_le;
          the_replica = ground (
            arith,
            node.the_replica,
            same_view (node.v) (omega (arith, node.version_le, inv.vub_le)),
          );
          wf = record {
            range = matches-append rid op (λ j r g same. ground (arith, out j)) (node.wf.range);
            queue = placed-QueueWf rid (s.tail) op out (node.wf.queue);
          };
        }

    other_node :
        (k : ℕ) (d : CombinerState)
        → (n == k) ≡ false
        → s.combiner k ≡ some d
        → NodeWf placed_log
            (suc (s.tail))
            (s.version_upper_bound)
            placed_updates
            k
            (s.local_versions k)
            (s.replicas k)
            d
    other_node k d ne f =
        let node = inv.nodes k d f in
        let le =
          current_le (s.log) (s.tail) (s.version_upper_bound) (s.local_updates) k (node.v) d
            (node.version_le) (inv.vub_le) (node.wf) in
        record {
          v = node.v;
          the_version = node.the_version;
          version_le = node.version_le;
          the_replica = ground (arith, node.the_replica, same_view (current_version d (node.v)) le);
          wf =
              CombinerWf-append_other (s.log) (s.tail) (s.version_upper_bound) (s.local_updates)
                placed_updates k (node.v) entry (λ same. ground arith) (inv.vub_le) d
                (Keeps-of_not_queued (s.local_updates) rid (UpdateState.placed op (s.tail))
                  (λ j. init-IsUnqueued s rid op inv u k j d f))
                (node.wf);
        }

    placed_Reached :
        (k b : ℕ)
        → Reached (s.combiner k) (s.local_versions k) b
        → Reached
            (insert (s.combiner) n (CombinerState.placed (push q rid)) k)
            (s.local_versions k)
            b
    placed_Reached k b r = elim (Bool-cases (n == k)) [
      | inl here ↦
          let same : r.c ≡ CombinerState.placed q = ground (arith, r.the_combiner) in
          record {
            c = CombinerState.placed (push q rid);
            v = r.v;
            the_combiner = ground arith;
            the_version = r.the_version;
            enough = ground (arith, r.enough);
          }
      | inr other ↦ rw other r
    ]

    pub placed_state-Inv : Inv (placed_state s n rid op q)
    placed_state-Inv = record {
      vub_le = omega (arith, inv.vub_le);
      log_full = λ i lt. elim (Bool-cases (s.tail == i)) [
        | inl here ↦ (entry, rw here refl)
        | inr other ↦ let (e, f) = inv.log_full i (ground arith) in (e, rw other f)
      ];
      log_end = λ i le. ground (arith, inv.log_end i);
      nodes = insert-All (s.combiner) n (CombinerState.placed (push q rid)) placed_node other_node;
      combiners = λ k v e. elim (Bool-cases (n == k)) [
        | inl here ↦ (CombinerState.placed (push q rid), rw here refl)
        | inr other ↦ let (d, f) = inv.combiners k v e in (d, rw other f)
      ];
      owner = Owner-push (s.combiner) n q rid c (init-IsUnqueued s rid op inv u) (inv.owner);
      reads = λ r w e.
          ReadWf-mono (s.log) placed_log (s.version_upper_bound) (s.version_upper_bound)
            (s.combiner) (insert (s.combiner) n (CombinerState.placed (push q rid)))
            (s.local_versions) (s.local_versions)
            (agree_below (s.log) (s.tail) entry (s.version_upper_bound) (inv.vub_le)) (omega arith)
            placed_Reached w (inv.reads r w e);
      updates =
          insert-All (s.local_updates) rid (UpdateState.placed op (s.tail)) (omega arith)
            (λ r w other e.
              UpdateWf-mono (s.log) placed_log (s.tail) (suc (s.tail)) (s.version_upper_bound)
                (s.version_upper_bound) (agree_below (s.log) (s.tail) entry (s.tail) (omega arith))
                (omega arith) (omega arith) (inv.vub_le) w (inv.updates r w e));
    }

  pub update_place_ops_in_log_one-Inv :
      (n rid : ℕ) (s : State dt) {t : State dt}
      → Inv s
      → Steps.update_place_ops_in_log_one n rid s ≡ some t
      → Inv t
  update_place_ops_in_log_one-Inv n rid s inv e =
      let (q, op, c, u, eq) = place_lem n rid s e in rw eq (placed_state-Inv s n rid op q inv c u)
