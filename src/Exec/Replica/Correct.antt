-- ===== src/Exec/Replica/Correct.antt =====
-- exec/replica.rs: a round of flat combining against the list of all the entries.
use verified_node_replicatio.Prelude.{
  ℕ, zero, suc, ◌+◌, ◌-◌, ◌≤◌, ◌<◌, ◌≡◌, ◌==◌, true, false, Bool, Option, none, some, List, [], ◌∷◌,
  ◌++◌, map, get_elem?, length, ==_refl, refl, sym, ap, ◌∙◌, arith,
}
use verified_node_replicatio.Dispatch.{Dispatch}
use verified_node_replicatio.Exec.Constants.{log_size, gc_from_head, max_idx}
use verified_node_replicatio.Exec.Context.{Context}
use verified_node_replicatio.Exec.Log.{NrLog, LogEntry, Run}
use verified_node_replicatio.Exec.Log.Append.{Outcome, returned}
use verified_node_replicatio.Exec.Log.Append.Entries.{entry}
use verified_node_replicatio.Exec.Log.Append.Room.{append-room, appended, with_operations}
use verified_node_replicatio.Exec.Log.Execute.{synced, execute-synced}
use verified_node_replicatio.Exec.Log.Represents.{Represents, drop, replay, answers}
use verified_node_replicatio.Exec.Replica.Combine.{
  Node, combine, append_and_execute, acquire_write, and_then, lift,
}
use verified_node_replicatio.Exec.Replica.Slots.{
  Slots, Served, collect_thread_ops-Slots, distribute_thread_resps-Served,
}
use verified_node_replicatio.Exec.RwLock
use verified_node_replicatio.Exec.RwLock.{RwLock}
use verified_node_replicatio.Exec.RwLock.Runs.{acquire_write-terminates}

module _ (dt : Dispatch) where
  -- The responses to operations that are applied one after the other.
  abbrev pub outputs : dt.View → List (dt.WriteOperation) → List (dt.Response)
  outputs v [] = []
  outputs v (op ∷ ops) = let next = dt.dispatch_mut_spec v op in next.1 ∷ outputs next.0 ops

  length-outputs :
      (v : dt.View) (ops : List (dt.WriteOperation)) → length (outputs v ops) ≡ length ops
  length-outputs v [] = refl
  length-outputs v (op ∷ ops) = ap suc (length-outputs (dt.dispatch_mut_spec v op).0 ops)

  answers-own :
      (nid : ℕ) (v : dt.View) (ops : List (dt.WriteOperation))
      → answers dt nid v (map (entry nid) ops) ≡ outputs v ops
  answers-own nid v [] = refl
  answers-own nid v (op ∷ ops) =
      rw (==_refl nid, answers-own nid (dt.dispatch_mut_spec v op).0 ops) refl

  -- The entries of other replicas have no answers here.
  answers-others :
      (nid : ℕ) (v : dt.View) (es : List (LogEntry (dt.WriteOperation)))
      (rest : List (LogEntry (dt.WriteOperation)))
      → ((i : ℕ) (e : LogEntry (dt.WriteOperation))
          → get_elem? es i ≡ some e
          → (e.node_id == nid) ≡ false)
      → answers dt nid v (es ++ rest) ≡ answers dt nid (replay dt v es) rest
  answers-others nid v [] rest h = refl
  answers-others nid v (e ∷ es) rest h =
      rw (h 0 e refl)
        (answers-others nid (dt.dispatch_mut_spec v (e.op)).0 es rest (λ i. h (suc i)))

  pub replay-append :
      (v : dt.View) (es rest : List (LogEntry (dt.WriteOperation)))
      → replay dt v (es ++ rest) ≡ replay dt (replay dt v es) rest
  replay-append v [] rest = refl
  replay-append v (e ∷ es) rest = replay-append (dt.dispatch_mut_spec v (e.op)).0 es rest

-- A step that has a result.
pub and_then-some :
    {A B : Type 0} {o : Option A} {a : A} (f : A → Option (Outcome B))
    → o ≡ some a
    → and_then (lift o) f ≡ f a
and_then-some f e = rw (e, lift, and_then) refl

pub drop-append :
    {A : Type 0} (n : ℕ) (xs ys : List A) → n ≤ length xs → drop n (xs ++ ys) ≡ drop n xs ++ ys
drop-append zero xs ys h = refl
drop-append (suc n) [] ys h = absurd (omega arith)
drop-append (suc n) (x ∷ xs) ys h = drop-append n xs ys (omega arith)

get_elem?-drop :
    {A : Type 0} (n i : ℕ) (xs : List A) → get_elem? (drop n xs) i ≡ get_elem? xs (n + i)
get_elem?-drop zero i xs = let same : i ≡ 0 + i = omega arith in ap (get_elem? xs) same
get_elem?-drop (suc n) i [] = refl
get_elem?-drop (suc n) i (x ∷ xs) =
    let same : suc (n + i) ≡ suc n + i = omega arith in
    get_elem?-drop n i xs ∙ ap (get_elem? (x ∷ xs)) same

module _ {T : Type 0} where
  -- The lock with other data in it.
  abbrev pub holding : RwLock T → T → RwLock T
  holding l d = record l { cell = some d; exc_locked = false }

  pub acquire_write_lem :
      (l : RwLock T) (d : T)
      → l.exc_locked ≡ false
      → ((i rc : ℕ) → get_elem? (l.ref_counts) i ≡ some rc → rc ≡ 0)
      → l.cell ≡ some d
      → acquire_write l ≡ some (d, record l { cell = none; exc_locked = true })
  unfolding acquire_write
  acquire_write_lem l d free zeros c = rw (acquire_write-terminates l free zeros c) refl

module _ {dt : Dispatch} where
  -- A replica that nobody combines for or reads from, at the version `v` of the entries, with the data `d`;
  -- its own entries are all executed, and the threads have requested `operations`.
  pub record Quiet (n : Node dt) (entries : List (LogEntry (dt.WriteOperation))) (v : ℕ)
      (d : dt.View) (operations : List (dt.WriteOperation)) : Type 0 where
    pub log : Represents (n.slog) entries
    pub version : get_elem? ((n.slog).local_versions) ((n.replica).replica_token) ≡ some v
    pub own :
        (i : ℕ) (e : LogEntry (dt.WriteOperation))
        → get_elem? entries i ≡ some e
        → v ≤ i
        → (e.node_id == (n.replica).replica_token) ≡ false
    pub slots : Slots ((n.replica).contexts) operations
    pub responses : (n.replica).responses ≡ some []
    pub collected : (n.replica).collected_operations ≡ some []
    pub per_thread : (n.replica).collected_operations_per_thread ≡ some []
    pub unlocked : ((n.replica).replicated).exc_locked ≡ false
    pub zeros : (i rc : ℕ) → get_elem? (((n.replica).replicated).ref_counts) i ≡ some rc → rc ≡ 0
    pub cell : ((n.replica).replicated).cell ≡ some d

  -- The log after the round.
  abbrev pub log_after : Node dt → List (dt.WriteOperation) → NrLog (dt.WriteOperation)
  log_after n operations =
      let nid = (n.replica).replica_token in synced nid (appended nid operations (n.slog))

  -- The node after the round, with the slots `ds`.
  abbrev pub node_after :
      Node dt
      → List (LogEntry (dt.WriteOperation))
      → ℕ
      → dt.View
      → List (dt.WriteOperation)
      → List (Context (dt.WriteOperation) (dt.Response))
      → Node dt
  node_after m entries v d operations ds = record {
    slog = log_after m operations;
    replica = record (m.replica) {
      contexts = ds;
      responses = some [];
      collected_operations = some [];
      collected_operations_per_thread = some [];
      replicated =
          holding ((m.replica).replicated)
            (replay dt d (drop v entries ++ map (entry ((m.replica).replica_token)) operations));
    };
  }

module _ {dt : Dispatch} (succeeds : ℕ → Bool) (fuel n : ℕ) (lt : n < fuel)
    (ok : succeeds n ≡ true) where
  -- Steps 2 to 4 of the round.
  append_and_execute_lem :
      (m : Node dt) {entries : List (LogEntry (dt.WriteOperation))} {v : ℕ} {d : dt.View}
      {operations : List (dt.WriteOperation)}
      → Quiet m entries v d operations
      → (m.slog).tail + length operations ≤ (m.slog).head + (log_size - gc_from_head)
      → (m.slog).tail + length operations < max_idx
      → (append_and_execute succeeds fuel operations [] m
          ≡ some (
              returned (
                outputs dt (replay dt d (drop v entries)) operations,
                record {
                  slog = log_after m operations;
                  replica = record (m.replica) {
                    replicated = holding ((m.replica).replicated) (
                        replay dt d
                          (drop v entries ++ map (entry ((m.replica).replica_token)) operations));
                  };
                },
              )))
        × Represents
            (log_after m operations)
            (entries ++ map (entry ((m.replica).replica_token)) operations)
  unfolding append_and_execute RwLock.release_write
  append_and_execute_lem m {entries} {v} {d} {operations} q room small =
      let nid = (m.replica).replica_token in
      let run : Run dt = record { log = m.slog; actual_replica = d; responses = [] } in
      let new_entries = map (entry nid) operations in
      let held = acquire_write_lem ((m.replica).replicated) d q.unlocked q.zeros q.cell in
      let (app, rep) = append-room succeeds nid operations fuel n run q.log lt ok room small in
      let (exe, rep') =
        execute-synced nid (entries ++ new_entries) (with_operations succeeds nid operations run)
          rep q.version in
      let split : drop v (entries ++ new_entries) ≡ drop v entries ++ new_entries =
        drop-append v entries new_entries
          (omega (arith, q.log.tail, q.log.version_le nid v q.version)) in
      let mine : answers dt nid d (drop v entries ++ new_entries)
          ≡ outputs dt (replay dt d (drop v entries)) operations =
        answers-others dt nid d (drop v entries) new_entries
          (λ i e at. q.own (v + i) e (sym (get_elem?-drop v i entries) ∙ at) (omega arith))
        ∙ answers-own dt nid (replay dt d (drop v entries)) operations in
      (rw (held, and_then, lift, app, exe, split, mine) refl, rep')

  -- A round of flat combining on a quiet replica, where the log has room for the operations that the threads
  -- have requested and a compare-exchange goes through within the fuel, returns: the entries of the log are
  -- followed by the operations, the replica has applied every entry from its version on, and each request
  -- has the response that it gives when the operations are applied one after the other, in the order of the
  -- threads, to the data that the earlier entries lead to.
  pub combine_correct :
      (m : Node dt) {entries : List (LogEntry (dt.WriteOperation))} {v : ℕ} {d : dt.View}
      {operations : List (dt.WriteOperation)}
      → Quiet m entries v d operations
      → (m.slog).tail + length operations ≤ (m.slog).head + (log_size - gc_from_head)
      → (m.slog).tail + length operations < max_idx
      → (ds : List (Context (dt.WriteOperation) (dt.Response))) × (combine succeeds fuel m
          ≡ some (returned (node_after m entries v d operations ds)))
        × Served ((m.replica).contexts) (outputs dt (replay dt d (drop v entries)) operations) ds
        × Represents
            (log_after m operations)
            (entries ++ map (entry ((m.replica).replica_token)) operations)
  unfolding combine
  combine_correct m {entries} {v} {d} {operations} q room small =
      let (e, rep) = append_and_execute_lem m q room small in
      let (ds, f, served) =
        distribute_thread_resps-Served (outputs dt (replay dt d (drop v entries)) operations) 0
          q.slots (omega (arith, length-outputs dt (replay dt d (drop v entries)) operations)) in
      (
        ds,
        and_then-some _ q.responses
            ∙ and_then-some _ q.collected
            ∙ and_then-some _ q.per_thread
            ∙ and_then-some _ (collect_thread_ops-Slots [] [] q.slots)
            ∙ rw (e, and_then, f) refl,
        served,
        rep,
      )
