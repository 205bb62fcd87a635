-- ===== src/Exec/NodeReplicated/Sequential.antt =====
-- exec/mod.rs, `NodeReplicated`: a sequence of calls against the data structure that is replicated.
use verified_node_replicatio.Prelude.{
  ℕ, suc, ◌+◌, ◌-◌, ◌≤◌, ◌<◌, ◌≡◌, Bool, true, Option, some, List, [], ◌∷◌, ◌++◌, map, get_elem?,
  get_elem?_total, length, length-append, length-set_at, set_at, refl, ap, ◌∙◌, arith,
}
use verified_node_replicatio.Dispatch.{Dispatch}
use verified_node_replicatio.Exec.Constants.{log_size, gc_from_head, max_threads_per_replica}
use verified_node_replicatio.Exec.Context.{ThreadToken}
use verified_node_replicatio.Exec.Log.{LogEntry}
use verified_node_replicatio.Exec.Log.Append.{Outcome, returned}
use verified_node_replicatio.Exec.Log.Append.Entries.{entry}
use verified_node_replicatio.Exec.Log.Represents.{replay}
use verified_node_replicatio.Exec.NodeReplicated.{NodeReplicated, Result, ok, execute_mut, execute}
use verified_node_replicatio.Exec.NodeReplicated.Atomic.{update_node, read_node, node_of}
use verified_node_replicatio.Exec.NodeReplicated.Settled.{Settled, round-Settled, rested}
use verified_node_replicatio.Exec.Replica.Combine.{and_then}
use verified_node_replicatio.Exec.Replica.Correct.{replay-append, log_after}

-- A call that a thread makes with its token.
pub data Call (dt : Dispatch) : Type 0 where
  update : (op : dt.WriteOperation) (tkn : ThreadToken) → Call dt
  query : (op : dt.ReadOperation) (tkn : ThreadToken) → Call dt

module _ {dt : Dispatch} where
  abbrev pub token_of : Call dt → ThreadToken
  token_of (update op tkn) = tkn
  token_of (query op tkn) = tkn

  -- The data structure itself: the response to a call, and the data after it.
  abbrev pub answer : dt.View → Call dt → dt.Response
  answer s (update op tkn) = (dt.dispatch_mut_spec s op).1
  answer s (query op tkn) = dt.dispatch_spec s op

  abbrev pub next_data : dt.View → Call dt → dt.View
  next_data s (update op tkn) = (dt.dispatch_mut_spec s op).0
  next_data s (query op tkn) = s

  abbrev pub answers_to :
      dt.View → List (Call dt) → List (Result (dt.Response × ThreadToken) ThreadToken)
  answers_to s [] = []
  answers_to s (c ∷ calls) = ok (answer s c, token_of c) ∷ answers_to (next_data s c) calls

  -- The thread of the call is one of a replica.
  abbrev pub IsKnown : ℕ → Call dt → Type 0
  IsKnown replicas c = ((token_of c).rid < replicas) × ((token_of c).tid < max_threads_per_replica)

  -- The updates so far, `n` of them, lead to the data `s`; the structure has `replicas` replicas.
  pub record AtRest (replicas : ℕ) (nr : NodeReplicated dt) (s : dt.View) (n : ℕ) : Type 0 where
    pub entries : List (LogEntry (dt.WriteOperation))
    pub settled : Settled nr entries
    pub data_is : replay dt (dt.init_spec) entries ≡ s
    pub number : length entries ≡ n
    pub replicas_are : length (nr.replicas) ≡ replicas

module _ {dt : Dispatch} (succeeds : ℕ → Bool) (fuel loops : ℕ) where
  unfoldable pub call :
      Call dt
      → NodeReplicated dt
      → Option (Outcome (Result (dt.Response × ThreadToken) ThreadToken × NodeReplicated dt))
  call (update op tkn) nr = execute_mut succeeds fuel loops op tkn nr
  call (query op tkn) nr = execute succeeds fuel loops op tkn nr

  -- One call after the other: the results, and the structure after them.
  unfoldable pub run_calls :
      List (Call dt)
      → NodeReplicated dt
      → Option (Outcome (List (Result (dt.Response × ThreadToken) ThreadToken) × NodeReplicated dt))
  run_calls [] nr = some (returned ([], nr))
  run_calls (c ∷ calls) nr =
      and_then (call c nr)
        λ done. and_then (run_calls calls done.1) λ rest. some (returned (done.0 ∷ rest.0, rest.1))

module _ {dt : Dispatch} (succeeds : ℕ → Bool) (fuel n : ℕ) (lt : n < fuel)
    (ok_n : succeeds n ≡ true) where
  -- A call of a known thread gets the answer of the data structure.
  call_lem :
      (loops replicas k : ℕ) (nr : NodeReplicated dt) (s : dt.View) (c : Call dt)
      → AtRest replicas nr s k
      → IsKnown replicas c
      → k + 1 ≤ log_size - gc_from_head
      → (after : NodeReplicated dt) × (k' : ℕ) × (call succeeds fuel (suc (suc loops)) c nr
          ≡ some (returned (ok (answer s c, token_of c), after)))
        × AtRest replicas after (next_data s c) k'
        × (k' ≤ k + 1)
  unfolding call execute_mut execute
  call_lem loops replicas k nr s (update op tkn) h (rid, tid) room =
      let i = tkn.rid in
      let (r, at) = get_elem?_total (nr.replicas) i (omega (arith, h.replicas_are)) in
      let (e, rep) =
        update_node succeeds fuel n lt ok_n (suc loops) i nr tkn op h.settled at tid
          (omega (arith, h.number)) in
      let new = map (entry (r.replica_token)) (op ∷ []) in
      let after : NodeReplicated dt = record {
        log = log_after (node_of nr r) (op ∷ []);
        replicas = set_at (nr.replicas) i (rested r (replay dt (dt.init_spec) (h.entries ++ new)));
      } in
      (
        after,
        suc k,
        rw (execute_mut, at, e, and_then)
            (ap (λ d. some (returned (ok ((dt.dispatch_mut_spec d op).1, tkn), after))) h.data_is),
        record {
          entries = h.entries ++ new;
          settled = round-Settled i (op ∷ []) h.settled at rep;
          data_is =
              replay-append dt (dt.init_spec) h.entries new
              ∙ ap (λ d. (dt.dispatch_mut_spec d op).0) h.data_is;
          number = omega (arith, h.number, length-append h.entries new);
          replicas_are =
              length-set_at (nr.replicas) i (rested r (replay dt (dt.init_spec) (h.entries ++ new)))
              ∙ h.replicas_are;
        },
        omega arith,
      )
  call_lem loops replicas k nr s (query op tkn) h (rid, tid) room =
      let i = tkn.rid in
      let (r, at) = get_elem?_total (nr.replicas) i (omega (arith, h.replicas_are)) in
      let (after, e, rests) =
        read_node succeeds fuel n lt ok_n loops i nr tkn op h.settled at tid
          (omega (arith, h.number)) in
      let rests_after : NodeReplicated dt = record {
        log = after.slog;
        replicas = set_at (nr.replicas) i (after.replica);
      } in
      (
        rests_after,
        k,
        rw (execute, at, e, and_then)
            (ap (λ d. some (returned (ok (dt.dispatch_spec d op, tkn), rests_after))) h.data_is),
        record {
          entries = h.entries;
          settled = rests;
          data_is = h.data_is;
          number = h.number;
          replicas_are = length-set_at (nr.replicas) i (after.replica) ∙ h.replicas_are;
        },
        omega arith,
      )

  pub run_calls_lem :
      (loops replicas k : ℕ) (nr : NodeReplicated dt) (s : dt.View) (calls : List (Call dt))
      → AtRest replicas nr s k
      → ((i : ℕ) (c : Call dt) → get_elem? calls i ≡ some c → IsKnown replicas c)
      → k + length calls ≤ log_size - gc_from_head
      → (after : NodeReplicated dt) × (run_calls succeeds fuel (suc (suc loops)) calls nr
          ≡ some (returned (answers_to s calls, after)))
  unfolding run_calls
  run_calls_lem loops replicas k nr s [] h known room = (nr, refl)
  run_calls_lem loops replicas k nr s (c ∷ calls) h known room =
      let (next, k', e, h', le) =
        call_lem loops replicas k nr s c h (known 0 c refl) (omega arith) in
      let (after, f) =
        run_calls_lem loops replicas k' next (next_data s c) calls h' (λ i. known (suc i))
          (omega arith) in
      (after, rw (e, and_then, f, and_then) refl)
