-- ===== src/Tests/Exec.antt =====
-- The theorems of the running log and replica on the counter, from a new structure with one replica.
use verified_node_replicatio.Prelude.{
  ℕ, zero, suc, ◌+◌, ◌-◌, ◌<◌, ◌≤◌, ◌≡◌, ◌⊎◌, ◌==◌, Bool, true, false, none, some, List, [], ◌∷◌,
  ◌++◌, map, push, length, refl, get_elem?, arith,
}
use verified_node_replicatio.Counter.{
  replicated_counter, init, dispatch, UpdateOp, inc, get, OpResult, ok,
}
use verified_node_replicatio.Exec.Constants.{log_size, gc_from_head}
use verified_node_replicatio.Exec.Context
use verified_node_replicatio.Exec.Context.{
  Context, ThreadToken, new_pending, enqueue_op, dequeue_response,
}
use verified_node_replicatio.Exec.Log
use verified_node_replicatio.Exec.Log.{NrLog, LogEntry, Run, execute, new_local_versions}
use verified_node_replicatio.Exec.Log.AdvanceHead.{advance_head, set_head}
use verified_node_replicatio.Exec.Log.AdvanceHead.Terminates.{advance_head-terminates, executed}
use verified_node_replicatio.Exec.Log.Append.{append, returned}
use verified_node_replicatio.Exec.Log.Append.Entries.{entry}
use verified_node_replicatio.Exec.Log.Append.Room.{
  append-room, appended, appended-Represents, with_operations,
}
use verified_node_replicatio.Exec.Log.Execute.{after, synced, synced-Represents, execute-synced}
use verified_node_replicatio.Exec.Log.Represents.{Represents, drop, replay}
use verified_node_replicatio.Exec.NodeReplicated
use verified_node_replicatio.Exec.NodeReplicated.{NodeReplicated, register}
use verified_node_replicatio.Exec.NodeReplicated.Register.{register-cases, with_tokens}
use verified_node_replicatio.Exec.NodeReplicated.New.{
  new-Quiet, new-Represents, new-versions, replica-Quiet, count_up,
}
use verified_node_replicatio.Exec.Replica
use verified_node_replicatio.Exec.Replica.{
  Replica, collect_thread_ops, distribute_thread_resps, new_threads,
}
use verified_node_replicatio.Exec.Replica.Combine.{Node, execute_mut, execute_read}
use verified_node_replicatio.Exec.Replica.Correct.{Quiet, outputs}
use verified_node_replicatio.Exec.Replica.ExecuteMut.{execute_mut_correct, with_request}
use verified_node_replicatio.Exec.Replica.ExecuteRead.{execute_read_correct}
use verified_node_replicatio.Exec.RwLock
use verified_node_replicatio.Exec.RwLock.{new_loop}
use verified_node_replicatio.Exec.Replica.Slots.{
  Slots, atomics, settled, requested, enqueue_op-dequeue_response,
}

abbrev always : ℕ → Bool
always n = true

abbrev new_log : NrLog UpdateOp
new_log = (Log.new 1 log_size).0

abbrev increments : List UpdateOp
increments = inc ∷ inc ∷ []

abbrev begun : Run replicated_counter
begun = record { log = new_log; actual_replica = record { val = 0 }; responses = [] }

abbrev two_entries : List (LogEntry UpdateOp)
two_entries = map (entry 0) increments

abbrev filled : Run replicated_counter
filled = record {
  log = appended 0 increments new_log;
  actual_replica = record { val = 0 };
  responses = [];
}

filled-Represents : Represents (filled.log) two_entries
unfolding Log.new
filled-Represents =
    appended-Represents 0 increments new_log (new-Represents 1 log_size refl) (omega arith)
      (omega arith)

append-room_example :
    (append always 1 0 increments begun
      ≡ some (returned (with_operations always 0 increments begun)))
    × Represents
        ((with_operations {dt = replicated_counter} always 0 increments begun).log)
        ([] ++ two_entries)
unfolding Log.new
append-room_example =
    append-room always 0 increments 1 0 begun (new-Represents 1 log_size refl) (omega arith) refl
      (omega arith) (omega arith)

execute-synced_example :
    (execute replicated_counter 0 filled
      ≡ some (record (after 0 two_entries filled (drop 0 two_entries)) {
        log = synced 0 (filled.log);
      }))
    × Represents (synced 0 (filled.log)) two_entries
execute-synced_example =
    execute-synced 0 two_entries filled filled-Represents
      (new-versions UpdateOp 1 log_size 0 (omega arith))

-- The replica has done nothing yet, and there is no other.
advance_head-terminates_example :
    (m : ℕ) × (last : Run replicated_counter) × ((filled.log).tail < m + (log_size - gc_from_head))
    × ((last ≡ filled) ⊎ (last ≡ executed 0 two_entries 0 filled))
    × (advance_head 2 0 filled ≡ some (set_head m last))
    × Represents ((set_head m last).log) two_entries
unfolding Log.new new_local_versions
advance_head-terminates_example =
    advance_head-terminates 0 two_entries 0 0 filled filled-Represents
      (new-versions UpdateOp 1 log_size 0 (omega arith)) (omega arith) only
  where
    only :
        (j w : ℕ)
        → (0 == j) ≡ false
        → get_elem? ((filled.log).local_versions) j ≡ some w
        → ((filled.log).head < w) × ((filled.log).tail < w + (log_size - gc_from_head))
    only zero w e f = absurd (cc)
    only (suc j) w e f = absurd (cc)

-- Three threads; the first and the last have an increment to make.
abbrev increment : Context UpdateOp OpResult
increment = requested (new_pending inc)

abbrev three : List (Context UpdateOp OpResult)
three = increment ∷ settled none ∷ increment ∷ []

three-Slots : Slots three increments
three-Slots =
    Slots.busy (new_pending inc) (Slots.idle none (Slots.busy (new_pending inc) Slots.done))

enqueue_op-dequeue_response_example :
    (ds : List (Context UpdateOp OpResult)) × (d : Context UpdateOp OpResult) × (k : ℕ)
    × (resp : OpResult) × (collect_thread_ops three [] [] ≡ some (increments, atomics three))
    × (distribute_thread_resps (ok ∷ ok ∷ []) (atomics three) 0 three ≡ some ds)
    × (get_elem? ds 2 ≡ some d)
    × (dequeue_response d ≡ some (some resp, Context.new))
    × (get_elem? increments k ≡ some inc)
    × (get_elem? (ok ∷ ok ∷ []) k ≡ some resp)
unfolding enqueue_op Context.new
enqueue_op-dequeue_response_example =
    enqueue_op-dequeue_response (ok ∷ ok ∷ []) 2 inc three-Slots refl refl refl

abbrev node : Node replicated_counter
node = record { slog = new_log; replica = Replica.new 0 2 }

node-Quiet : Quiet node [] 0 (record { val = 0 }) []
unfolding init
node-Quiet =
    replica-Quiet new_log 0 2 (new-Represents 1 log_size refl)
      (new-versions UpdateOp 1 log_size 0 (omega arith))

asked-Quiet : Quiet (with_request node 0 inc) [] 0 (record { val = 0 }) (inc ∷ [])
unfolding Replica.new new_threads Context.new
asked-Quiet = record {
  log = node-Quiet.log;
  version = node-Quiet.version;
  own = node-Quiet.own;
  slots = Slots.busy (new_pending inc) (Slots.idle none Slots.done);
  responses = node-Quiet.responses;
  collected = node-Quiet.collected;
  per_thread = node-Quiet.per_thread;
  unlocked = node-Quiet.unlocked;
  zeros = node-Quiet.zeros;
  cell = node-Quiet.cell;
}

abbrev token : ThreadToken
token = record { rid = 0; tid = 0 }

execute_mut_correct_example :
    (k : ℕ) × (resp : OpResult) × (after : Node replicated_counter) × (execute_mut always 1 1 inc
        token node
      ≡ some (returned (resp, token, after)))
    × (get_elem? (inc ∷ []) k ≡ some inc)
    × (get_elem? (outputs replicated_counter (record { val = 0 }) (inc ∷ [])) k ≡ some resp)
    × Represents (after.slog) (entry 0 inc ∷ [])
    × (get_elem? ((after.replica).contexts) 0 ≡ some (settled none))
unfolding Log.new Replica.new new_threads Context.new
execute_mut_correct_example =
    execute_mut_correct always 1 0 (omega arith) refl 0 node token inc refl refl asked-Quiet
      (omega arith) (omega arith)

-- The first of two replicas, after an increment that the second has executed.
abbrev behind : Node replicated_counter
behind = record {
  slog = synced 1 (appended 1 (inc ∷ []) (Log.new 2 log_size).0);
  replica = Replica.new 0 2;
}

behind-Represents : Represents (behind.slog) (entry 1 inc ∷ [])
unfolding Log.new new_local_versions
behind-Represents =
    synced-Represents 1 (appended 1 (inc ∷ []) (Log.new 2 log_size).0)
      (appended-Represents 1 (inc ∷ []) (Log.new 2 log_size).0 (new-Represents 2 log_size refl)
        (omega arith) (omega arith))
      refl

behind-own :
    (i : ℕ) (e : LogEntry UpdateOp)
    → get_elem? (entry 1 inc ∷ []) i ≡ some e
    → 0 ≤ i
    → (e.node_id == 0) ≡ false
behind-own zero e at le = cc
behind-own (suc i) e at le = absurd (cc)

behind-Quiet : Quiet behind (entry 1 inc ∷ []) 0 (record { val = 0 }) []
unfolding Log.new new_local_versions Replica.new new_threads Context.new
behind-Quiet = record {
  log = behind-Represents;
  version = refl;
  own = behind-own;
  slots = node-Quiet.slots;
  responses = node-Quiet.responses;
  collected = node-Quiet.collected;
  per_thread = node-Quiet.per_thread;
  unlocked = node-Quiet.unlocked;
  zeros = node-Quiet.zeros;
  cell = node-Quiet.cell;
}

execute_read_correct_example :
    (applied : List (LogEntry UpdateOp)) × (later : List (LogEntry UpdateOp)) × (requests : List
      (LogEntry UpdateOp))
    × (after : Node replicated_counter) × (execute_read always 1 2 get token behind
        ≡ some (
            returned (
              dispatch (replay replicated_counter (record { val = 0 }) applied) get,
              token,
              after,
            )))
    × (drop 0 (entry 1 inc ∷ requests) ≡ applied ++ later)
    × (1 ≤ 0 + length applied)
    × Represents (after.slog) (entry 1 inc ∷ requests)
    × (((requests ≡ []) × (after ≡ behind)) ⊎ (requests ≡ []))
unfolding Log.new Replica.new new_threads RwLock.new new_loop
execute_read_correct_example =
    execute_read_correct always 1 0 (omega arith) refl 0 behind token get refl behind-Quiet
      (omega arith) (omega arith) refl

abbrev one_replica : NodeReplicated replicated_counter
one_replica = record { log = new_log; replicas = Replica.new 0 2 ∷ [] }

register-cases_example :
    ((1 ≤ 0) × (register 0 one_replica ≡ (none, one_replica)))
    ⊎ ((replica : Replica replicated_counter) × (get_elem? (one_replica.replicas) 0 ≡ some replica)
        × (((replica.thread_tokens ≡ []) × (register 0 one_replica ≡ (none, one_replica)))
            ⊎ ((tokens : List ThreadToken) × (tkn : ThreadToken) × (replica.thread_tokens
                  ≡ push tokens tkn)
                × (register 0 one_replica ≡ (some tkn, with_tokens one_replica 0 replica tokens)))))
register-cases_example = register-cases 0 one_replica

new-Quiet_example :
    ((NodeReplicated.new {dt = replicated_counter} 2).0 ≡ push (0 ∷ count_up 2 0) 0)
    × (replica : Replica replicated_counter) × (get_elem?
          ((NodeReplicated.new {dt = replicated_counter} 2).1.replicas)
          1
        ≡ some replica)
    × (replica.replica_token ≡ 1)
    × Quiet
        (record {
          slog = (NodeReplicated.new {dt = replicated_counter} 2).1.log;
          replica = replica;
        })
        []
        0
        (replicated_counter.init_spec)
        []
new-Quiet_example = new-Quiet 2 1 (omega arith)
