-- ===== src/Exec/Replica/ExecuteRead.antt =====
-- exec/replica.rs, `Replica::execute`: the response of a read.
use mathlib.Core.List.{append-nil}
use verified_node_replicatio.Prelude.{
  ℕ, suc, ◌+◌, ◌-◌, ◌≤◌, ◌<◌, ◌≡◌, ◌==◌, true, false, Bool, Option, some, List, [], ◌++◌, map,
  get_elem?, get_elem?-set_at_self, length, refl, ◌∙◌, sym, ◌⊎◌, leb, zero, ◌∷◌, length-append,
  Bool-cases, inl, inr, arith, ◌>>=◌,
}
use verified_node_replicatio.Dispatch.{Dispatch}
use verified_node_replicatio.Exec.Constants.{log_size, gc_from_head, max_idx}
use verified_node_replicatio.Exec.Context.{Context, ThreadToken}
use verified_node_replicatio.Exec.Log
use verified_node_replicatio.Exec.Log.{LogEntry}
use verified_node_replicatio.Exec.Log.Append.{Outcome, returned}
use verified_node_replicatio.Exec.Log.Append.Entries.{entry}
use verified_node_replicatio.Exec.Log.Represents.{Represents, drop, replay}
use verified_node_replicatio.Exec.RwLock
use verified_node_replicatio.Exec.RwLock.{max_rc}
use verified_node_replicatio.Exec.RwLock.Runs.{acquire_read-release_read}
use verified_node_replicatio.Exec.Replica.Combine.{
  Node, try_combine, wait_synced, read_replica, execute_read, and_then,
}
use verified_node_replicatio.Exec.Replica.Correct.{
  Quiet, outputs, node_after, log_after, and_then-some, drop-append,
}
use verified_node_replicatio.Exec.Replica.Slots.{Served}
use verified_node_replicatio.Exec.Replica.ExecuteMut.{with_combiner, try_combine_lem}

borrow_lem : {T : Type 0} (l : RwLock.RwLock T) {t : T} → l.cell ≡ some t → RwLock.borrow l ≡ some t
unfolding RwLock.borrow
borrow_lem l e = e

length-drop :
    {A : Type 0} (n : ℕ) (xs : List A) → n ≤ length xs → n + length (drop n xs) ≡ length xs
length-drop zero xs h = omega arith
length-drop (suc n) [] h = absurd (omega arith)
length-drop (suc n) (x ∷ xs) h = omega (arith, length-drop n xs (omega arith))

module _ {dt : Dispatch} where
  -- A read of a replica that nobody writes: the response, and the node as it was.
  read_replica_lem :
      (op : dt.ReadOperation) (m : Node dt) (tid : ℕ) {rc : ℕ} {d : dt.View}
      → ((m.replica).replicated).exc_locked ≡ false
      → get_elem? (((m.replica).replicated).ref_counts) tid ≡ some rc
      → rc < max_rc
      → ((m.replica).replicated).cell ≡ some d
      → read_replica op tid m ≡ some (dt.dispatch_spec d op, m)
  unfolding read_replica
  read_replica_lem op m tid free lane room cell =
      let (held, acquired, same, released) =
        acquire_read-release_read ((m.replica).replicated) free lane room in
      rw (acquired, ◌>>=◌, borrow_lem held (same ∙ cell), ◌>>=◌, released) refl

  is_synced :
      (m : Node dt) {w : ℕ} (upper : ℕ)
      → get_elem? ((m.slog).local_versions) ((m.replica).replica_token) ≡ some w
      → Log.is_replica_synced_for_reads (m.slog) ((m.replica).replica_token) upper
        ≡ some (leb upper w)
  unfolding Log.is_replica_synced_for_reads
  is_synced m upper at = rw at refl

-- A call that has returned.
and_then-done :
    {A B : Type 0} {o : Option (Outcome A)} {a : A} (f : A → Option (Outcome B))
    → o ≡ some (returned a)
    → and_then o f ≡ f a
and_then-done f e = rw (e, and_then) refl

module _ {dt : Dispatch} (succeeds : ℕ → Bool) (fuel n : ℕ) (lt : n < fuel)
    (ok : succeeds n ≡ true) where
  -- A replica that has reached the version ends the loop.
  wait_synced_lem :
      (loops upper : ℕ) (m : Node dt) {w : ℕ}
      → get_elem? ((m.slog).local_versions) ((m.replica).replica_token) ≡ some w
      → leb upper w ≡ true
      → wait_synced succeeds fuel (suc loops) upper m ≡ some (returned m)
  unfolding wait_synced
  wait_synced_lem loops upper m at reached =
      and_then-some _ (is_synced m upper at) ∙ rw reached refl

  -- A replica that is behind combines, and is then tested again.
  wait_combined :
      (loops upper : ℕ) (m combined : Node dt) {v w : ℕ}
      → get_elem? ((m.slog).local_versions) ((m.replica).replica_token) ≡ some v
      → leb upper v ≡ false
      → try_combine succeeds fuel m ≡ some (returned combined)
      → get_elem? ((combined.slog).local_versions) ((combined.replica).replica_token) ≡ some w
      → leb upper w ≡ true
      → wait_synced succeeds fuel (suc (suc loops)) upper m ≡ some (returned combined)
  unfolding wait_synced
  wait_combined loops upper m combined at behind e there reached =
      and_then-some _ (is_synced m upper at)
      ∙ rw (behind, e, and_then) (wait_synced_lem loops upper combined there reached)

  -- `execute` in its two cases: the replica has reached the bound, or it combines.
  pub execute_read_lem :
      (loops : ℕ) (m : Node dt) (tkn : ThreadToken) (op : dt.ReadOperation) {rc : ℕ}
      {entries : List (LogEntry (dt.WriteOperation))} {v : ℕ} {d : dt.View}
      {operations : List (dt.WriteOperation)}
      → ((m.replica).combiner == 0) ≡ true
      → Quiet m entries v d operations
      → (m.slog).tail + length operations ≤ (m.slog).head + (log_size - gc_from_head)
      → (m.slog).tail + length operations < max_idx
      → get_elem? (((m.replica).replicated).ref_counts) (tkn.tid) ≡ some rc
      → (((m.slog).version_upper_bound ≤ v)
          × (execute_read succeeds fuel (suc (suc loops)) op tkn m
              ≡ some (returned (dt.dispatch_spec d op, tkn, m))))
        ⊎ ((ds : List (Context (dt.WriteOperation) (dt.Response))) × (execute_read succeeds fuel
                (suc (suc loops))
                op
                tkn
                m
              ≡ some (
                  returned (
                    dt.dispatch_spec
                        (replay dt d
                          (drop v entries ++ map (entry ((m.replica).replica_token)) operations))
                        op,
                    tkn,
                    with_combiner (node_after m entries v d operations ds) 0,
                  )))
            × Served
                ((m.replica).contexts)
                (outputs dt (replay dt d (drop v entries)) operations)
                ds
            × Represents
                (log_after m operations)
                (entries ++ map (entry ((m.replica).replica_token)) operations))
  unfolding execute_read Log.get_version_upper_bound
  execute_read_lem loops m tkn op {rc} {entries} {v} {d} {operations} free q room small lane =
      let upper = (m.slog).version_upper_bound in
      elim (Bool-cases (leb upper v)) [
        | inl reached ↦ inl (
          ground arith,
          and_then-done _ (wait_synced_lem (suc loops) upper m q.version reached)
              ∙ and_then-some _ (
                  read_replica_lem op m (tkn.tid) q.unlocked lane
                    (omega (arith, q.zeros (tkn.tid) rc lane)) q.cell),
        )
        | inr behind ↦
            let (ds, e, served, rep) = try_combine_lem succeeds fuel n lt ok m q free room small in
            let combined : Node dt = with_combiner (node_after m entries v d operations ds) 0 in
            let nid = (m.replica).replica_token in
            let new_tail = (m.slog).tail + length operations in
            let there = get_elem?-set_at_self ((m.slog).local_versions) nid new_tail q.version in
            inr (
              ds,
              and_then-done _ (
                    wait_combined loops upper m combined q.version behind e there
                      (ground (arith, q.log.upper_le)))
                  ∙ and_then-some _ (
                      read_replica_lem op combined (tkn.tid) refl lane
                        (omega (arith, q.zeros (tkn.tid) rc lane)) refl),
              served,
              rep,
            )
      ]

  -- On a quiet replica whose combiner lock is free and whose lock has the lane of the thread, where the log
  -- has room for what its threads have requested and a compare-exchange goes through within the fuel, `execute`
  -- returns the token and the response of the data after the replica's next entries, which reach the
  -- version bound at the start of the call at least. The log then represents its entries followed by none,
  -- and nothing has changed, or by the requests of the replica's threads in their order.
  pub execute_read_correct :
      (loops : ℕ) (m : Node dt) (tkn : ThreadToken) (op : dt.ReadOperation) {rc : ℕ}
      {entries : List (LogEntry (dt.WriteOperation))} {v : ℕ} {d : dt.View}
      {operations : List (dt.WriteOperation)}
      → ((m.replica).combiner == 0) ≡ true
      → Quiet m entries v d operations
      → (m.slog).tail + length operations ≤ (m.slog).head + (log_size - gc_from_head)
      → (m.slog).tail + length operations < max_idx
      → get_elem? (((m.replica).replicated).ref_counts) (tkn.tid) ≡ some rc
      → (applied : List (LogEntry (dt.WriteOperation))) × (later : List
          (LogEntry (dt.WriteOperation)))
        × (requests : List (LogEntry (dt.WriteOperation))) × (after : Node dt) × (execute_read
              succeeds fuel
              (suc (suc loops))
              op
              tkn
              m
            ≡ some (returned (dt.dispatch_spec (replay dt d applied) op, tkn, after)))
        × (drop v (entries ++ requests) ≡ applied ++ later)
        × ((m.slog).version_upper_bound ≤ v + length applied)
        × Represents (after.slog) (entries ++ requests)
        × (((requests ≡ []) × (after ≡ m))
            ⊎ (requests ≡ map (entry ((m.replica).replica_token)) operations))
  execute_read_correct loops m tkn op {rc} {entries} {v} {d} {operations} free q room small lane =
      elim (execute_read_lem loops m tkn op free q room small lane) [
        | inl (reached, e) ↦ (
          [],
          drop v (entries ++ []),
          [],
          m,
          e,
          refl,
          omega arith,
          rw (append-nil entries) q.log,
          inl (refl, refl),
        )
        | inr (ds, e, served, rep) ↦
            let requests = map (entry ((m.replica).replica_token)) operations in
            let in_range : v ≤ length entries =
              omega (arith, q.log.tail, q.log.version_le ((m.replica).replica_token) v q.version) in
            (
              drop v entries ++ requests,
              [],
              requests,
              with_combiner (node_after m entries v d operations ds) 0,
              e,
              drop-append v entries requests in_range
                  ∙ sym (append-nil (drop v entries ++ requests)),
              omega (
                arith,
                q.log.tail,
                q.log.upper_le,
                length-append (drop v entries) requests,
                length-drop v entries in_range,
              ),
              rep,
              inr refl,
            )
      ]
