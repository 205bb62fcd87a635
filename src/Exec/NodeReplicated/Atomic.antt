-- ===== src/Exec/NodeReplicated/Atomic.antt =====
-- exec/mod.rs, `NodeReplicated`: calls one after the other against the data structure that is replicated.
use mathlib.Core.List.{append-nil}
use mathlib.Core.Path.{subst}
use verified_node_replicatio.Prelude.{
  ℕ, zero, suc, ◌+◌, ◌-◌, ◌≤◌, ◌<◌, ◌≡◌, true, Bool, none, some, List, [], ◌∷◌, ◌++◌, map,
  get_elem?, get_elem?_total, length, length-append, set_at, set_at_same, set_at-undo, inl, inr,
  refl, sym, ap, ◌∙◌, arith,
}
use verified_node_replicatio.Dispatch.{Dispatch}
use verified_node_replicatio.Exec.Constants.{log_size, gc_from_head, max_threads_per_replica}
use verified_node_replicatio.Exec.Context.{Context, ThreadToken, new_pending}
use verified_node_replicatio.Exec.Log.{LogEntry}
use verified_node_replicatio.Exec.Log.Append.{returned}
use verified_node_replicatio.Exec.Log.Append.Entries.{entry}
use verified_node_replicatio.Exec.Log.Represents.{Represents, drop, replay}
use verified_node_replicatio.Exec.NodeReplicated.{NodeReplicated}
use verified_node_replicatio.Exec.NodeReplicated.Settled.{
  Settled, Rests, round-Settled, rested, drop-length,
}
use verified_node_replicatio.Exec.Replica.{Replica}
use verified_node_replicatio.Exec.Replica.Combine
use verified_node_replicatio.Exec.Replica.Combine.{Node, and_then}
use verified_node_replicatio.Exec.Replica.Correct.{Quiet, replay-append, log_after}
use verified_node_replicatio.Exec.Replica.ExecuteMut.{execute_mut_lem, with_request}
use verified_node_replicatio.Exec.Replica.ExecuteRead.{execute_read_lem}
use verified_node_replicatio.Exec.Replica.OneSlot.{request-Slots, Served-none, Served-one}
use verified_node_replicatio.Exec.Replica.Slots.{settled, answered}

get_elem?-single : {A : Type 0} (k : ℕ) {x y : A} → get_elem? (x ∷ []) k ≡ some y → y ≡ x
get_elem?-single zero e = ground (arith, e)
get_elem?-single (suc k) e = absurd (cc)

no_rest :
    {A : Type 0} (seen rest : List A) → length (seen ++ rest) ≤ length seen → seen ++ rest ≡ seen
no_rest seen [] le = append-nil seen
no_rest seen (x ∷ rest) le = absurd (omega (arith, length-append seen (x ∷ rest)))

module _ {dt : Dispatch} where
  -- The node of the replica `i`.
  abbrev pub node_of : NodeReplicated dt → Replica dt → Node dt
  node_of nr r = record { slog = nr.log; replica = r }

  request-Quiet :
      (nr : NodeReplicated dt) {entries : List (LogEntry (dt.WriteOperation))} {i : ℕ}
      {r : Replica dt} (tid : ℕ) (op : dt.WriteOperation)
      {c : Context (dt.WriteOperation) (dt.Response)} (h : Rests (nr.log) entries i r)
      → get_elem? (r.contexts) tid ≡ some c
      → Quiet
          (with_request (node_of nr r) tid op)
          entries
          (length (h.seen))
          (replay dt (dt.init_spec) (h.seen))
          (op ∷ [])
  request-Quiet nr {r = r} tid op h at = record {
    log = h.quiet.log;
    version = h.quiet.version;
    own = h.quiet.own;
    slots = request-Slots (r.contexts) tid (new_pending op) h.empty at;
    responses = h.quiet.responses;
    collected = h.quiet.collected;
    per_thread = h.quiet.per_thread;
    unlocked = h.quiet.unlocked;
    zeros = h.quiet.zeros;
    cell = h.quiet.cell;
  }

  -- What the replica has applied, and the entries from its version on, are all the entries.
  replay-seen :
      (nr : NodeReplicated dt) {entries : List (LogEntry (dt.WriteOperation))} {i : ℕ}
      {r : Replica dt} (h : Rests (nr.log) entries i r)
      → replay dt (replay dt (dt.init_spec) (h.seen)) (drop (length (h.seen)) entries)
        ≡ replay dt (dt.init_spec) entries
  replay-seen nr {entries = entries} h =
      rw (h.split, drop-length (h.seen) (h.rest))
        (sym (replay-append dt (dt.init_spec) h.seen h.rest))

module _ {dt : Dispatch} (succeeds : ℕ → Bool) (fuel n : ℕ) (lt : n < fuel)
    (ok_n : succeeds n ≡ true) where
  -- An update at the replica: the response to it after all the entries so far, and the node.
  pub update_node :
      (loops i : ℕ) (nr : NodeReplicated dt) {entries : List (LogEntry (dt.WriteOperation))}
      {r : Replica dt} (tkn : ThreadToken) (op : dt.WriteOperation)
      → Settled nr entries
      → get_elem? (nr.replicas) i ≡ some r
      → tkn.tid < max_threads_per_replica
      → length entries + 1 ≤ log_size - gc_from_head
      → (Combine.execute_mut succeeds fuel (suc loops) op tkn (node_of nr r)
          ≡ some (
              returned (
                (dt.dispatch_mut_spec (replay dt (dt.init_spec) entries) op).1,
                tkn,
                record {
                  slog = log_after (node_of nr r) (op ∷ []);
                  replica = rested r (
                      replay dt
                        (dt.init_spec)
                        (entries ++ map (entry (r.replica_token)) (op ∷ [])));
                },
              )))
        × Represents
            (log_after (node_of nr r) (op ∷ []))
            (entries ++ map (entry (r.replica_token)) (op ∷ []))
  update_node loops i nr {entries} {r} tkn op h at small room =
      let tid = tkn.tid in
      let mine = h.rests i r at in
      let (c, at_c) = get_elem?_total (r.contexts) tid (omega (arith, mine.slots)) in
      let at_empty = at_c ∙ ap some (mine.empty tid c at_c) in
      let (ds, k, resp, e, at_op, at_resp, rep, at_slot, served) =
        execute_mut_lem succeeds fuel n lt ok_n loops (node_of nr r) tkn op at_empty mine.free
          (request-Quiet nr tid op mine at_c) (omega (arith, h.log.tail, h.head))
          (omega (arith, h.log.tail)) in
      let before =
        replay dt (replay dt (dt.init_spec) mine.seen) (drop (length mine.seen) entries) in
      let first = (dt.dispatch_mut_spec before op).1 in
      let new = map (entry (r.replica_token)) (op ∷ []) in
      let at_same : before ≡ replay dt (dt.init_spec) entries = replay-seen nr mine in
      let resp_is : resp ≡ (dt.dispatch_mut_spec (replay dt (dt.init_spec) entries) op).1 =
        get_elem?-single k at_resp ∙ ap (λ d. (dt.dispatch_mut_spec d op).1) at_same in
      let handed =
        Served-one (r.contexts) tid (new_pending op) first mine.empty at_c served refl refl in
      let contexts_are : set_at ds tid (settled none) ≡ r.contexts =
        ap (λ cs. set_at cs tid (settled none)) handed
        ∙ set_at-undo (r.contexts) tid (settled none) (answered op first) at_empty in
      let data_is : replay dt (replay dt (dt.init_spec) mine.seen)
            (drop (length mine.seen) entries ++ new)
          ≡ replay dt (dt.init_spec) (entries ++ new) =
        replay-append dt (replay dt (dt.init_spec) mine.seen) (drop (length mine.seen) entries) new
        ∙ ap (λ d. replay dt d new) at_same
        ∙ sym (replay-append dt (dt.init_spec) entries new) in
      (
        e ∙ λ j. some (
            returned (
              resp_is j,
              tkn,
              record {
                slog = log_after (node_of nr r) (op ∷ []);
                replica = record (rested r (data_is j)) { contexts = contexts_are j };
              },
            )),
        rep,
      )

  -- A read at the replica: the response to it after all the entries so far, and the node.
  pub read_node :
      (loops i : ℕ) (nr : NodeReplicated dt) {entries : List (LogEntry (dt.WriteOperation))}
      {r : Replica dt} (tkn : ThreadToken) (op : dt.ReadOperation)
      → Settled nr entries
      → get_elem? (nr.replicas) i ≡ some r
      → tkn.tid < max_threads_per_replica
      → length entries ≤ log_size - gc_from_head
      → (after : Node dt) × (Combine.execute_read succeeds fuel
            (suc (suc loops))
            op
            tkn
            (node_of nr r)
          ≡ some (returned (dt.dispatch_spec (replay dt (dt.init_spec) entries) op, tkn, after)))
        × Settled
            (record { log = after.slog; replicas = set_at (nr.replicas) i (after.replica) })
            entries
  read_node loops i nr {entries} {r} tkn op h at small room =
      let tid = tkn.tid in
      let mine = h.rests i r at in
      let (rc, lane) =
        get_elem?_total ((r.replicated).ref_counts) tid (omega (arith, mine.lanes)) in
      elim (execute_read_lem succeeds fuel n lt ok_n loops (node_of nr r) tkn op mine.free
        mine.quiet (omega (arith, h.log.tail, h.head)) (omega (arith, h.log.tail)) lane) [
          | inl (reached, e) ↦
              let all : entries ≡ mine.seen =
                mine.split
                ∙ no_rest mine.seen mine.rest (omega (arith, h.upper, ap length mine.split)) in
              (
                node_of nr r,
                e
                    ∙ ap
                        (λ d. some (
                          returned
                            (dt.dispatch_spec (replay dt (dt.init_spec) d) op, tkn, node_of nr r)))
                        (sym all),
                rw (set_at_same (nr.replicas) i r at) h,
              )
          | inr (ds, e, served, rep) ↦
              let data_is : replay dt (replay dt (dt.init_spec) mine.seen)
                    (drop (length mine.seen) entries ++ [])
                  ≡ replay dt (dt.init_spec) entries =
                ap (replay dt (replay dt (dt.init_spec) mine.seen))
                  (append-nil (drop (length mine.seen) entries))
                ∙ replay-seen nr mine in
              let after : Node dt = record {
                slog = log_after (node_of nr r) [];
                replica = rested r (replay dt (dt.init_spec) entries);
              } in
              (
                after,
                e ∙ λ j. some (
                    returned (
                      dt.dispatch_spec (data_is j) op,
                      tkn,
                      record {
                        slog = log_after (node_of nr r) [];
                        replica = record (rested r (data_is j)) {
                          contexts = Served-none served refl j;
                        };
                      },
                    )),
                subst
                    (λ es.
                      Settled
                        (record {
                          log = after.slog;
                          replicas =
                              set_at (nr.replicas) i (rested r (replay dt (dt.init_spec) es));
                        })
                        es)
                    (append-nil entries) (round-Settled i [] h at rep),
              )
        ]
