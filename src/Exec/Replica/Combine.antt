-- ===== src/Exec/Replica/Combine.antt =====
-- exec/replica.rs: combining, and the two ways into a replica. The caller runs alone: `succeeds` and the
-- fuel are those of `append`, and the loops that wait for a response or for a version take fuel too.
use verified_node_replicatio.Prelude.{
  ℕ, zero, suc, ◌==◌, Bool, true, false, Option, none, some, List, [], get_elem?, length,
  if◌then◌else◌, ◌>>=◌, set_at,
}
use verified_node_replicatio.Dispatch.{Dispatch}
use verified_node_replicatio.Exec.Constants.{response_check_interval}
use verified_node_replicatio.Exec.Context
use verified_node_replicatio.Exec.Context.{ThreadToken}
use verified_node_replicatio.Exec.Log
use verified_node_replicatio.Exec.Log.{NrLog, Run, execute}
use verified_node_replicatio.Exec.Log.Append.{Outcome, returned, tail_too_big, append}
use verified_node_replicatio.Exec.RwLock
use verified_node_replicatio.Exec.RwLock.{RwLock, Point, write_lock, write_held, read_load}
use verified_node_replicatio.Exec.RwLock.Runs.{run_alone}
use verified_node_replicatio.Exec.Replica
use verified_node_replicatio.Exec.Replica.{
  Replica, collect_thread_ops, distribute_thread_resps, acquire_combiner_lock,
  release_combiner_lock,
}

-- What comes after a call that has returned.
abbrev pub and_then :
    {A B : Type 0} → Option (Outcome A) → (A → Option (Outcome B)) → Option (Outcome B)
and_then none f = none
and_then (some (returned a)) f = f a
and_then (some tail_too_big) f = some tail_too_big

abbrev pub lift : {A : Type 0} → Option A → Option (Outcome A)
lift none = none
lift (some a) = some (returned a)

-- The whole of `acquire_write`, by a caller that runs alone: the value and the lock.
unfoldable pub acquire_write : {T : Type 0} → RwLock T → Option (T × RwLock T)
unfolding run_alone
acquire_write l = do
  held ← run_alone (suc (suc (length (l.ref_counts)))) write_lock l
  elim held.1 [ write_held t ↦ some (t, held.0) | _ ↦ none ]

-- The shared log, and one replica.
pub record Node (dt : Dispatch) : Type 0 where
  pub slog : NrLog (dt.WriteOperation)
  pub replica : Replica dt

module _ {dt : Dispatch} (succeeds : ℕ → Bool) (fuel : ℕ) where
  -- Steps 2 to 4 of `combine`, under the lock: append the operations, execute the log.
  unfoldable pub append_and_execute :
      List (dt.WriteOperation)
      → List (dt.Response)
      → Node dt
      → Option (Outcome (List (dt.Response) × Node dt))
  unfolding acquire_write append execute
  append_and_execute operations responses n =
      let r = n.replica in
      and_then (lift (acquire_write (r.replicated))) λ held.
        and_then
          (append succeeds fuel (r.replica_token) operations
            (record { log = n.slog; actual_replica = held.0; responses = responses }))
          λ appended. and_then (lift (execute dt (r.replica_token) appended)) λ done.
            and_then (lift (RwLock.release_write (done.actual_replica) held.1)) λ released. some (
              returned (
                done.responses,
                record { slog = done.log; replica = record r { replicated = released.0 } },
              ))

  unfoldable pub combine : Node dt → Option (Outcome (Node dt))
  unfolding collect_thread_ops distribute_thread_resps
  combine n =
      let r = n.replica in
      and_then (lift (r.responses)) λ responses.
        and_then (lift (r.collected_operations)) λ operations.
          and_then (lift (r.collected_operations_per_thread)) λ num_ops.
            and_then (lift (collect_thread_ops (r.contexts) operations num_ops)) λ collected.
              and_then (append_and_execute collected.0 responses n) λ executed.
                and_then (lift (distribute_thread_resps executed.0 collected.1 0 (r.contexts)))
                  λ contexts. some (
                    returned (record executed.1 {
                      replica = record (executed.1.replica) {
                        contexts = contexts;
                        responses = some [];
                        collected_operations = some [];
                        collected_operations_per_thread = some [];
                      };
                    }))

  unfoldable pub try_combine : Node dt → Option (Outcome (Node dt))
  unfolding acquire_combiner_lock combine release_combiner_lock
  try_combine n =
      let (acquired, r) = acquire_combiner_lock (n.replica) in
      elim acquired [
        | false ↦ some (returned n)
        | true ↦
            and_then (combine (record n { replica = r })) λ done.
              some (returned (record done { replica = release_combiner_lock (done.replica) }))
      ]

  -- `get_response`: `loops` bounds the passes of the loop, `iter` counts up to the next attempt to combine.
  unfoldable pub get_response : ℕ → ℕ → ℕ → Node dt → Option (Outcome (dt.Response × Node dt))
  unfolding try_combine
  get_response zero tid iter n = none
  get_response (suc loops) tid iter n =
      let due = iter == response_check_interval in
      and_then (elim due [ true ↦ try_combine n | false ↦ some (returned n) ])
        λ m. and_then (lift (get_elem? ((m.replica).contexts) tid)) λ context.
          and_then (lift (Context.dequeue_response context)) λ deq.
            let rest = record m {
              replica = record (m.replica) { contexts = set_at ((m.replica).contexts) tid deq.1 };
            } in
            elim deq.0 [
              | some resp ↦ some (returned (resp, rest))
              | none ↦ get_response loops tid (suc (if due then 0 else iter)) rest
            ]

  unfoldable pub execute_mut :
      ℕ
      → dt.WriteOperation
      → ThreadToken
      → Node dt
      → Option (Outcome (dt.Response × ThreadToken × Node dt))
  execute_mut loops op tkn n =
      and_then (lift (Replica.make_pending op (tkn.tid) (n.replica))) λ pending.
        and_then (try_combine (record n { replica = pending })) λ combined.
          and_then (get_response loops (tkn.tid) 0 combined)
            λ done. some (returned (done.0, tkn, done.1))

module _ {dt : Dispatch} where
  -- Step 3 of `execute`: under the read lock of the thread's lane.
  unfoldable pub read_replica : dt.ReadOperation → ℕ → Node dt → Option (dt.Response × Node dt)
  unfolding run_alone
  read_replica op tid n = do
    held ← run_alone 3 (read_load tid) ((n.replica).replicated)
    replica ← RwLock.borrow held.0
    let result = dt.dispatch_spec replica op
    released ← RwLock.release_read tid held.0
    some (result, record n { replica = record (n.replica) { replicated = released.0 } })

module _ {dt : Dispatch} (succeeds : ℕ → Bool) (fuel : ℕ) where
  -- The loop of `execute` that waits for the replica to reach the version, with `loops` tests left.
  unfoldable pub wait_synced : ℕ → ℕ → Node dt → Option (Outcome (Node dt))
  unfolding try_combine
  wait_synced zero version_upper_bound n = none
  wait_synced (suc loops) version_upper_bound n =
      and_then
        (lift (
          Log.is_replica_synced_for_reads (n.slog) ((n.replica).replica_token) version_upper_bound))
        λ is_synced. elim is_synced [
          | true ↦ some (returned n)
          | false ↦
              and_then (try_combine succeeds fuel n) λ m. wait_synced loops version_upper_bound m
        ]

  unfoldable pub execute_read :
      ℕ
      → dt.ReadOperation
      → ThreadToken
      → Node dt
      → Option (Outcome (dt.Response × ThreadToken × Node dt))
  unfolding wait_synced read_replica
  execute_read loops op tkn n =
      let version_upper_bound = Log.get_version_upper_bound (n.slog) in
      and_then (wait_synced loops version_upper_bound n) λ synced.
        and_then (lift (read_replica op (tkn.tid) synced))
          λ done. some (returned (done.0, tkn, done.1))
