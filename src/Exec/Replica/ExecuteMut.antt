-- ===== src/Exec/Replica/ExecuteMut.antt =====
-- exec/replica.rs, `Replica::execute_mut`: the response of an update.
use verified_node_replicatio.Prelude.{
  ℕ, suc, ◌+◌, ◌-◌, ◌≤◌, ◌<◌, ◌≡◌, ◌==◌, true, Bool, none, some, List, ◌++◌, map, get_elem?,
  get_elem?-set_at_self, length, set_at, refl, ◌∙◌,
}
use verified_node_replicatio.Dispatch.{Dispatch}
use verified_node_replicatio.Exec.Constants.{log_size, gc_from_head, max_idx}
use verified_node_replicatio.Exec.Context
use verified_node_replicatio.Exec.Context.{Context, ThreadToken, new_pending}
use verified_node_replicatio.Exec.Log.{LogEntry}
use verified_node_replicatio.Exec.Log.Append.{returned}
use verified_node_replicatio.Exec.Log.Append.Entries.{entry}
use verified_node_replicatio.Exec.Log.Represents.{Represents, drop, replay}
use verified_node_replicatio.Exec.Replica
use verified_node_replicatio.Exec.Replica.{acquire_combiner_lock, release_combiner_lock}
use verified_node_replicatio.Exec.Replica.Combine.{
  Node, try_combine, execute_mut, get_response, and_then,
}
use verified_node_replicatio.Exec.Replica.Correct.{
  Quiet, node_after, log_after, outputs, combine_correct, and_then-some,
}
use verified_node_replicatio.Exec.Replica.Slots.{Served, settled, requested, answered, Served-at}

module _ {dt : Dispatch} where
  -- The node with the operation in the thread's slot.
  abbrev pub with_request : Node dt → ℕ → dt.WriteOperation → Node dt
  with_request n tid op = record n {
    replica = record (n.replica) {
      contexts = set_at ((n.replica).contexts) tid (requested (new_pending op));
    };
  }

  -- With another value of the combiner lock.
  abbrev pub with_combiner : Node dt → ℕ → Node dt
  with_combiner n c = record n { replica = record (n.replica) { combiner = c } }

  Quiet-combiner :
      (n : Node dt) (c : ℕ) {entries : List (LogEntry (dt.WriteOperation))} {v : ℕ} {d : dt.View}
      {operations : List (dt.WriteOperation)}
      → Quiet n entries v d operations
      → Quiet (with_combiner n c) entries v d operations
  Quiet-combiner n c q = record {
    log = q.log;
    version = q.version;
    own = q.own;
    slots = q.slots;
    responses = q.responses;
    collected = q.collected;
    per_thread = q.per_thread;
    unlocked = q.unlocked;
    zeros = q.zeros;
    cell = q.cell;
  }

module _ {dt : Dispatch} (succeeds : ℕ → Bool) (fuel n : ℕ) (lt : n < fuel)
    (ok : succeeds n ≡ true) where
  -- The round of a caller that gets the combiner lock.
  pub try_combine_lem :
      (m : Node dt) {entries : List (LogEntry (dt.WriteOperation))} {v : ℕ} {d : dt.View}
      {operations : List (dt.WriteOperation)}
      → Quiet m entries v d operations
      → ((m.replica).combiner == 0) ≡ true
      → (m.slog).tail + length operations ≤ (m.slog).head + (log_size - gc_from_head)
      → (m.slog).tail + length operations < max_idx
      → (ds : List (Context (dt.WriteOperation) (dt.Response))) × (try_combine succeeds fuel m
          ≡ some (returned (with_combiner (node_after m entries v d operations ds) 0)))
        × Served ((m.replica).contexts) (outputs dt (replay dt d (drop v entries)) operations) ds
        × Represents
            (log_after m operations)
            (entries ++ map (entry ((m.replica).replica_token)) operations)
  unfolding try_combine acquire_combiner_lock release_combiner_lock
  try_combine_lem m q free room small =
      let (ds, e, served, rep) =
        combine_correct succeeds fuel n lt ok (with_combiner m 2) (Quiet-combiner m 2 q) room
          small in
      let got : acquire_combiner_lock (m.replica)
          ≡ (true, record (m.replica) { combiner = 1 + 1 }) =
        rw (acquire_combiner_lock, free) refl in
      (ds, rw (try_combine, got, got, e, and_then) refl, served, rep)

  make_pending_lem :
      (m : Node dt) (tid : ℕ) (op : dt.WriteOperation)
      → get_elem? ((m.replica).contexts) tid ≡ some (settled none)
      → Replica.make_pending op tid (m.replica) ≡ some ((with_request m tid op).replica)
  unfolding Replica.make_pending Context.enqueue_op
  make_pending_lem m tid op e = rw (Replica.make_pending, e) refl

  -- The slot emptied.
  abbrev pub with_empty : Node dt → ℕ → Node dt
  with_empty m tid = record m {
    replica = record (m.replica) { contexts = set_at ((m.replica).contexts) tid (settled none) };
  }

  -- The first pass of the loop finds a response that is there.
  get_response_lem :
      (loops : ℕ) (m : Node dt) (tid : ℕ) (op : dt.WriteOperation) (resp : dt.Response)
      → get_elem? ((m.replica).contexts) tid ≡ some (answered op resp)
      → get_response succeeds fuel (suc loops) tid 0 m ≡ some (returned (resp, with_empty m tid))
  unfolding get_response Context.dequeue_response
  get_response_lem loops m tid op resp e = rw (get_response, e) refl

  -- The node that `execute_mut` leaves, where the round has handed out the slots `ds`.
  abbrev pub node_updated :
      Node dt
      → ℕ
      → dt.WriteOperation
      → List (LogEntry (dt.WriteOperation))
      → ℕ
      → dt.View
      → List (dt.WriteOperation)
      → List (Context (dt.WriteOperation) (dt.Response))
      → Node dt
  node_updated m tid op entries v d operations ds =
      with_empty (with_combiner (node_after (with_request m tid op) entries v d operations ds) 0)
        tid

  -- `execute_mut` where its request is the one at the slot `ds` answers.
  pub execute_mut_lem :
      (loops : ℕ) (m : Node dt) (tkn : ThreadToken) (op : dt.WriteOperation)
      {entries : List (LogEntry (dt.WriteOperation))} {v : ℕ} {d : dt.View}
      {operations : List (dt.WriteOperation)}
      → get_elem? ((m.replica).contexts) (tkn.tid) ≡ some (settled none)
      → ((m.replica).combiner == 0) ≡ true
      → Quiet (with_request m (tkn.tid) op) entries v d operations
      → (m.slog).tail + length operations ≤ (m.slog).head + (log_size - gc_from_head)
      → (m.slog).tail + length operations < max_idx
      → (ds : List (Context (dt.WriteOperation) (dt.Response))) × (k : ℕ) × (resp : dt.Response)
        × (execute_mut succeeds fuel (suc loops) op tkn m
            ≡ some (returned (resp, tkn, node_updated m (tkn.tid) op entries v d operations ds)))
        × (get_elem? operations k ≡ some op)
        × (get_elem? (outputs dt (replay dt d (drop v entries)) operations) k ≡ some resp)
        × Represents
            (log_after m operations)
            (entries ++ map (entry ((m.replica).replica_token)) operations)
        × (get_elem? ds (tkn.tid) ≡ some (answered op resp))
        × Served
            (set_at ((m.replica).contexts) (tkn.tid) (requested (new_pending op)))
            (outputs dt (replay dt d (drop v entries)) operations)
            ds
  unfolding execute_mut
  execute_mut_lem loops m tkn op {entries} {v} {d} {operations} empty free q room small =
      let tid = tkn.tid in
      let (ds, e, served, rep) = try_combine_lem (with_request m tid op) q free room small in
      let here =
        get_elem?-set_at_self ((m.replica).contexts) tid (requested (new_pending op)) empty in
      let (k, resp, at_op, at_resp, at_slot) = Served-at tid q.slots served here in
      let combined : Node dt =
        with_combiner (node_after (with_request m tid op) entries v d operations ds) 0 in
      (
        ds,
        k,
        resp,
        and_then-some _ (make_pending_lem m tid op empty)
            ∙ rw (e, and_then, get_response_lem loops combined tid op resp at_slot) refl,
        at_op,
        at_resp,
        rep,
        at_slot,
        served,
      )

  -- On a replica that is quiet once the thread's empty slot has the operation, and whose combiner lock is
  -- free, where the log has room and a compare-exchange goes through, `execute_mut` returns the token and
  -- the response to the operation at its place among the requests of the threads; the log then represents
  -- the entries followed by the requests, and the slot of the thread is empty again.
  pub execute_mut_correct :
      (loops : ℕ) (m : Node dt) (tkn : ThreadToken) (op : dt.WriteOperation)
      {entries : List (LogEntry (dt.WriteOperation))} {v : ℕ} {d : dt.View}
      {operations : List (dt.WriteOperation)}
      → get_elem? ((m.replica).contexts) (tkn.tid) ≡ some (settled none)
      → ((m.replica).combiner == 0) ≡ true
      → Quiet (with_request m (tkn.tid) op) entries v d operations
      → (m.slog).tail + length operations ≤ (m.slog).head + (log_size - gc_from_head)
      → (m.slog).tail + length operations < max_idx
      → (k : ℕ) × (resp : dt.Response) × (after : Node dt) × (execute_mut succeeds fuel
            (suc loops)
            op
            tkn
            m
          ≡ some (returned (resp, tkn, after)))
        × (get_elem? operations k ≡ some op)
        × (get_elem? (outputs dt (replay dt d (drop v entries)) operations) k ≡ some resp)
        × Represents (after.slog) (entries ++ map (entry ((m.replica).replica_token)) operations)
        × (get_elem? ((after.replica).contexts) (tkn.tid) ≡ some (settled none))
  execute_mut_correct loops m tkn op {entries} {v} {d} {operations} empty free q room small =
      let (ds, k, resp, e, at_op, at_resp, rep, at_slot, served) =
        execute_mut_lem loops m tkn op empty free q room small in
      (
        k,
        resp,
        node_updated m (tkn.tid) op entries v d operations ds,
        e,
        at_op,
        at_resp,
        rep,
        get_elem?-set_at_self ds (tkn.tid) (settled none) at_slot,
      )
