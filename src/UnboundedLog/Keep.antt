-- ===== src/UnboundedLog/Keep.antt =====
-- How the parts of the invariant of spec/unbounded_log.rs live through a change elsewhere.
use verified_node_replicatio.Prelude.{
  ℕ, ◌≤◌, ◌<◌, ◌≡◌, ◌≢◌, ◌==◌, refl, ◌∙◌, inl, inr, Bool-cases, some, List, length, get_elem?, Map,
  insert, remove, arith,
}
use native.Mathlib.Decide.{dec_lt}
use verified_node_replicatio.Dispatch.{Dispatch}
use verified_node_replicatio.UnboundedLog.{
  LogEntry, ReadonlyState, UpdateState, CombinerState, queued_ops, current_version,
}
use verified_node_replicatio.UnboundedLog.LogRange.{matches_map, compute-agree}
use verified_node_replicatio.UnboundedLog.Inv.{
  IsLate, QueueWf, CombinerWf, Reached, Owner, ReadWf, AnswerAt, ResultAt, UpdateWf,
}

-- The queue of one combiner becomes a part of what it was.
pub Owner-insert :
    (m : Map CombinerState) (n : ℕ) (c c' : CombinerState)
    → m n ≡ some c
    → ((j rid : ℕ) → get_elem? (queued_ops c') j ≡ some rid → get_elem? (queued_ops c) j ≡ some rid)
    → Owner m
    → Owner (insert m n c')
Owner-insert m n c c' e sub own a b j k rid d f p q g h = elim (Bool-cases (n == a)) [
  | inl na ↦ elim (Bool-cases (n == b)) [
    | inl nb ↦ ground (arith, own n n j k rid c c, sub j rid, sub k rid)
    | inr nb ↦ ground (arith, own n b j k rid c f, sub j rid)
  ]
  | inr na ↦ elim (Bool-cases (n == b)) [
    | inl nb ↦ ground (arith, own a n j k rid d c, sub k rid)
    | inr nb ↦ ground (arith, own a b j k rid d f)
  ]
]

module _ {dt : Dispatch} where
  pub AnswerAt-mono :
      {log log' : Map (LogEntry dt)} {vub limit limit' : ℕ} {op : dt.ReadOperation}
      {ret : dt.Response}
      → ((i : ℕ) → i < limit → log' i ≡ log i)
      → limit ≤ limit'
      → AnswerAt log vub limit op ret
      → AnswerAt log' vub limit' op ret
  AnswerAt-mono agree le a = record {
    at = a.at;
    lo = a.lo;
    hi = omega (arith, a.hi);
    answer = ground (arith, a.answer, compute-agree (a.at) (λ i lt. agree i (omega (arith, a.hi))));
  }

  -- A read in flight lives through a longer log, a higher bound and a combiner's progress.
  pub ReadWf-mono :
      (log log' : Map (LogEntry dt)) (limit limit' : ℕ) (combiner combiner' : Map CombinerState)
      (versions versions' : Map ℕ)
      → ((i : ℕ) → i < limit → log' i ≡ log i)
      → limit ≤ limit'
      → ((k vub : ℕ)
          → Reached (combiner k) (versions k) vub
          → Reached (combiner' k) (versions' k) vub)
      → (r : ReadonlyState dt) → ReadWf log limit combiner versions r
      → ReadWf log' limit' combiner' versions' r
  ReadWf-mono log log' limit limit' c c' vs vs' agree le go (ReadonlyState.init op) w = tt
  ReadWf-mono log log' limit limit' c c' vs vs' agree le go
        (ReadonlyState.version_upper_bound op vub) w =
      omega arith
  ReadWf-mono log log' limit limit' c c' vs vs' agree le go
        (ReadonlyState.ready_to_read op vub node_id) w =
      (omega arith, go node_id vub w.1)
  ReadWf-mono log log' limit limit' c c' vs vs' agree le go (ReadonlyState.done op vub node_id ret)
        w =
      AnswerAt-mono agree le w

  pub ResultAt-mono :
      {log log' : Map (LogEntry dt)} {limit limit' idx : ℕ} {ret : dt.Response}
      → ((i : ℕ) → i < limit → log' i ≡ log i)
      → limit ≤ limit'
      → ResultAt log limit idx ret
      → ResultAt log' limit' idx ret
  ResultAt-mono {limit} {idx} agree le r = record {
    e = r.e;
    below = omega (arith, r.below);
    entry = agree idx (r.below) ∙ r.entry;
    result = ground (arith, r.result, compute-agree idx (λ i lt. agree i (omega (arith, r.below))));
  }

  pub UpdateWf-mono :
      (log log' : Map (LogEntry dt)) (tail tail' vub vub' : ℕ)
      → ((i : ℕ) → i < tail → log' i ≡ log i)
      → tail ≤ tail'
      → vub ≤ vub'
      → vub ≤ tail
      → (u : UpdateState dt) → UpdateWf log tail vub u
      → UpdateWf log' tail' vub' u
  UpdateWf-mono log log' tail tail' vub vub' agree lt lv le (UpdateState.init op) w = tt
  UpdateWf-mono log log' tail tail' vub vub' agree lt lv le (UpdateState.placed op idx) w =
      omega arith
  UpdateWf-mono log log' tail tail' vub vub' agree lt lv le (UpdateState.applied ret idx) w =
      ResultAt-mono agree lt w
  UpdateWf-mono log log' tail tail' vub vub' agree lt lv le (UpdateState.done ret idx) w =
      ResultAt-mono (λ i h. agree i (omega arith)) lv w

  -- What a change of the updates must respect for the requests of a queue.
  pub record Keeps (q : List ℕ) (updates updates' : Map (UpdateState dt)) : Type 0 where
    pub placed :
        (j rid i : ℕ) (op : dt.WriteOperation)
        → get_elem? q j ≡ some rid
        → updates rid ≡ some (UpdateState.placed op i)
        → updates' rid ≡ some (UpdateState.placed op i)
    pub late :
        (j rid : ℕ) (u' : UpdateState dt)
        → get_elem? q j ≡ some rid
        → ((u : UpdateState dt) → updates rid ≡ some u → IsLate u)
        → updates' rid ≡ some u'
        → IsLate u'

  QueueWf-Keeps :
      {q : List ℕ} {updates updates' : Map (UpdateState dt)} {idx : ℕ}
      → Keeps q updates updates'
      → QueueWf q updates idx
      → QueueWf q updates' idx
  QueueWf-Keeps k w = record {
    late = λ j rid u lt g e. k.late j rid u g (λ u' f. w.late j rid u' lt g f) e;
    waiting =
        λ j rid le g. let (op, i, e) = w.waiting j rid le g in (op, i, k.placed j rid i op g e);
  }

  -- A combiner is as before under a change of the updates and a higher version bound.
  pub CombinerWf-Keeps :
      (log : Map (LogEntry dt)) (tail vub vub' : ℕ) (updates updates' : Map (UpdateState dt))
      (n v : ℕ)
      → vub ≤ vub'
      → (c : CombinerState) → Keeps (queued_ops c) updates updates'
      → CombinerWf log tail vub updates n v c
      → CombinerWf log tail vub' updates' n v c
  CombinerWf-Keeps log tail vub vub' upd upd' n v le CombinerState.ready k w = record {
    free = w.free;
  }
  CombinerWf-Keeps log tail vub vub' upd upd' n v le (CombinerState.placed q) k w = record {
    range = matches_map (λ i h. refl) (λ j r i o _. k.placed j r i o) (w.range);
    queue = QueueWf-Keeps k (w.queue);
  }
  CombinerWf-Keeps log tail vub vub' upd upd' n v le (CombinerState.loaded_local_version q lv) k w =
      record {
        same = w.same;
        range = matches_map (λ i h. refl) (λ j r i o _. k.placed j r i o) (w.range);
        queue = QueueWf-Keeps k (w.queue);
      }
  CombinerWf-Keeps log tail vub vub' upd upd' n v le (CombinerState.loop q lv idx end) k w =
      record {
        end_le = w.end_le;
        from = w.from;
        to = w.to;
        idx_le = w.idx_le;
        range = matches_map (λ i h. refl) (λ j r i o _. k.placed j r i o) (w.range);
        free = w.free;
        queue = QueueWf-Keeps k (w.queue);
      }
  CombinerWf-Keeps log tail vub vub' upd upd' n v le (CombinerState.updated_version q end) k w =
      record {
        end_le = omega (arith, w.end_le);
        from = w.from;
        free = w.free;
        queue = QueueWf-Keeps k (w.queue);
      }

  -- A replica never falls behind its local version.
  pub version-current :
      (log : Map (LogEntry dt)) (tail vub : ℕ) (updates : Map (UpdateState dt)) (n v : ℕ)
      (c : CombinerState)
      → CombinerWf log tail vub updates n v c
      → v ≤ current_version c v
  version-current log tail vub updates n v CombinerState.ready w = omega arith
  version-current log tail vub updates n v (CombinerState.placed q) w = omega arith
  version-current log tail vub updates n v (CombinerState.loaded_local_version q lv) w =
      omega (arith, w.same)
  version-current log tail vub updates n v (CombinerState.loop q lv idx end) w = w.from
  version-current log tail vub updates n v (CombinerState.updated_version q end) w = w.from

  -- The queue of a combiner, with how far its requests are executed.
  pub queue_of :
      (log : Map (LogEntry dt)) (tail vub : ℕ) (updates : Map (UpdateState dt)) (n v : ℕ)
      (c : CombinerState)
      → CombinerWf log tail vub updates n v c
      → (idx : ℕ) × QueueWf (queued_ops c) updates idx
  queue_of log tail vub updates n v CombinerState.ready w =
      (0, record { late = λ j r u lt g e. cc; waiting = λ j r le g. absurd (cc) })
  queue_of log tail vub updates n v (CombinerState.placed q) w = (0, w.queue)
  queue_of log tail vub updates n v (CombinerState.loaded_local_version q lv) w = (0, w.queue)
  queue_of log tail vub updates n v (CombinerState.loop q lv idx end) w = (idx, w.queue)
  queue_of log tail vub updates n v (CombinerState.updated_version q end) w = (length q, w.queue)

  -- A request that waits to be placed is in no queue.
  pub init_not_queued :
      {q : List ℕ} {updates : Map (UpdateState dt)} {idx rid : ℕ} {op : dt.WriteOperation}
      → QueueWf q updates idx
      → updates rid ≡ some (UpdateState.init op)
      → (j : ℕ) → get_elem? q j ≢ some rid
  init_not_queued {idx} {rid} {op} w e j g = elim (dec_lt j idx) [
    | yes early ↦ w.late j rid (UpdateState.init op) early g e
    | no late ↦ let (_, _, f) = w.waiting j rid (omega arith) g in cc
  ]

  -- A change at one request that is not in the queue.
  pub Keeps-of_not_queued :
      {q : List ℕ} (updates : Map (UpdateState dt)) (rid : ℕ) (u : UpdateState dt)
      → ((j : ℕ) → get_elem? q j ≢ some rid)
      → Keeps q updates (insert updates rid u)
  Keeps-of_not_queued {q} updates rid u out = record {
    placed = λ j r i op g e. ground (arith, out j);
    late = λ j r u' g old e. elim (Bool-cases (rid == r)) [
      | inl here ↦ absurd (ground (arith, out j))
      | inr other ↦ old u' (rw other at e)
    ];
  }

  -- A change at one request that is not placed, to an executed one.
  pub Keeps-of_late :
      {q : List ℕ} (updates : Map (UpdateState dt)) (rid : ℕ) (u u' : UpdateState dt)
      → updates rid ≡ some u
      → IsLate u
      → IsLate u'
      → Keeps q updates (insert updates rid u')
  Keeps-of_late updates rid u u' e l l' = record {
    placed = λ j r i op g f. ground (arith);
    late = λ j r w g old f. elim (Bool-cases (rid == r)) [
      | inl here ↦ let same : u' ≡ w = ground arith in rw (← same) l'
      | inr other ↦ old w (rw other at f)
    ];
  }

  pub Keeps-remove :
      {q : List ℕ} (updates : Map (UpdateState dt)) (rid : ℕ) (u : UpdateState dt)
      → updates rid ≡ some u
      → IsLate u
      → Keeps q updates (remove updates rid)
  Keeps-remove updates rid u e l = record {
    placed = λ j r i op g f. ground (arith);
    late = λ j r w g old f. elim (Bool-cases (rid == r)) [
      | inl here ↦ absurd (cc (rw here at f))
      | inr other ↦ old w (rw other at f)
    ];
  }
