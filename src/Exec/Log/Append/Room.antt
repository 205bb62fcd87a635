-- ===== src/Exec/Log/Append/Room.antt =====
-- exec/log.rs, `NrLog::append` where the log has room: the operations are at its end.
use verified_node_replicatio.Prelude.{
  ℕ, zero, suc, ◌+◌, ◌-◌, ◌≤◌, ◌<◌, ◌≡◌, ◌==◌, Bool, true, false, some, List, [], ◌∷◌, ◌++◌, map,
  length, length-append, ltb, leb, ◌>>=◌, Bool-cases, ==_iff, refl, ap, inl, inr, arith,
}
use verified_node_replicatio.Dispatch.{Dispatch}
use verified_node_replicatio.Exec.Constants.{
  log_size, gc_from_head, max_idx, max_requests, wrapping_add,
}
use verified_node_replicatio.Exec.Log.{NrLog, LogEntry, Run}
use verified_node_replicatio.Exec.Log.Represents.{Represents}
use verified_node_replicatio.Exec.Log.Append.{
  append, append_finish, returned, tail_too_big, returns,
}
use verified_node_replicatio.Exec.Log.Append.Entries.{
  Holds, entry, slog_after, slog_after-Holds, write_entries_lem,
}
use verified_node_replicatio.Exec.Log.AdvanceHead.{advance_head}

module _ {Op : Type 0} (nid : ℕ) (operations : List Op) where
  -- The log with the operations at its end.
  abbrev pub appended : NrLog Op → NrLog Op
  appended log = record log {
    slog = slog_after nid (log.tail) operations (log.slog);
    tail = log.tail + length operations;
  }

  length-map : {A B : Type 0} (f : A → B) (xs : List A) → length (map f xs) ≡ length xs
  length-map f [] = refl
  length-map f (x ∷ xs) = ap suc (length-map f xs)

  pub appended-Represents :
      (log : NrLog Op) {entries : List (LogEntry Op)}
      → Represents log entries
      → log.tail + length operations ≤ log.head + log_size
      → log.tail + length operations < max_idx
      → Represents (appended log) (entries ++ map (entry nid) operations)
  appended-Represents log {entries} h room small =
      let before : Holds (log.slog) (log.head) (length entries + length operations) entries =
        record { stored = h.stored; cells = h.cells; room = omega (arith, h.tail) } in
      let after = slog_after-Holds nid operations before (omega arith) in
      let there : Holds (slog_after nid (log.tail) operations (log.slog)) (log.head)
          (log.tail + length operations) (entries ++ map (entry nid) operations) =
        rw (h.tail) after in
      record {
        len = h.len;
        tail = omega (
          arith,
          h.tail,
          length-append entries (map (entry nid) operations),
          length-map (entry nid) operations,
        );
        stored = there.stored;
        cells = there.cells;
        order = omega (arith, h.order);
        room = room;
        head_le = h.head_le;
        version_le = λ n v e. omega (arith, h.version_le n v e);
        upper_ge = h.upper_ge;
        upper_le = omega (arith, h.upper_le);
        tail_lt = small;
      }

module _ {dt : Dispatch} (succeeds : ℕ → Bool) (nid : ℕ)
    (operations : List (dt.WriteOperation)) where
  abbrev pub with_operations : Run dt → Run dt
  with_operations run = record run { log = appended nid operations (run.log) }

  pub append_finish_lem :
      (advance : Bool) (fuel : ℕ) (run : Run dt) {entries : List (LogEntry (dt.WriteOperation))}
      → Represents (run.log) entries
      → (run.log).tail + length operations < max_idx
      → append_finish advance fuel nid operations run ≡ elim advance [
        | true ↦ returns (advance_head fuel nid (with_operations run))
        | false ↦ some (returned (with_operations run))
      ]
  unfolding append_finish
  append_finish_lem advance fuel run h small =
      let exact : wrapping_add ((run.log).tail) (length operations)
          ≡ (run.log).tail + length operations =
        omega arith in
      let longer : NrLog (dt.WriteOperation) = record (run.log) {
        tail = (run.log).tail + length operations;
      } in
      rw (exact, write_entries_lem nid ((run.log).tail) operations longer h.len h.cells, ◌>>=◌) refl

  -- The log is not so full that the appender first helps to execute it.
  abbrev limit : Run dt → ℕ
  limit run = (run.log).head + (log_size - gc_from_head)

  limit_lem :
      (run : Run dt) {entries : List (LogEntry (dt.WriteOperation))}
      → Represents (run.log) entries
      → wrapping_add ((run.log).head) ((run.log).slog_len - gc_from_head) ≡ limit run
  limit_lem run h = omega (arith, h.len, h.order, h.tail_lt)

  -- Where the log represents the entries and the operations, below `MAX_IDX`, leave it with as much room as
  -- `GC_FROM_HEAD` asks for, `append` returns once a compare-exchange goes through within its fuel: the
  -- log represents the entries followed by the operations, and nothing else has changed.
  pub append-room :
      (fuel n : ℕ) (run : Run dt) {entries : List (LogEntry (dt.WriteOperation))}
      → Represents (run.log) entries
      → n < fuel
      → succeeds n ≡ true
      → (run.log).tail + length operations ≤ (run.log).head + (log_size - gc_from_head)
      → (run.log).tail + length operations < max_idx
      → (append succeeds fuel nid operations run ≡ some (returned (with_operations run)))
        × Represents ((with_operations run).log) (entries ++ map (entry nid) operations)
  unfolding append
  append-room zero n run h lt ok room small = absurd (omega arith)
  append-room (suc fuel) n run h lt ok room small =
      let exact : wrapping_add ((run.log).tail) (length operations)
          ≡ (run.log).tail + length operations =
        omega arith in
      let lim = limit_lem run h in
      let fits : ltb (limit run) ((run.log).tail) ≡ false = ground arith in
      let short : leb max_idx ((run.log).tail + length operations) ≡ false = ground arith in
      let calm : ltb (wrapping_add ((run.log).head) ((run.log).slog_len - gc_from_head))
            (wrapping_add ((run.log).tail) (length operations))
          ≡ false =
        rw (lim, exact) (ground arith) in
      let kept = appended-Represents nid operations (run.log) h (omega arith) small in
      elim (Bool-cases (succeeds fuel)) [
        | inl through ↦ (
          rw (append, lim, fits, exact, short, through, calm)
              (append_finish_lem false fuel run h small),
          kept,
        )
        | inr again ↦
            let other : n < fuel = elim (Bool-cases (n == fuel)) [
              | inl same ↦ absurd (cc ((==_iff n fuel).0 same))
              | inr differ ↦ ground arith
            ] in
            (
              rw (append, lim, fits, exact, short, again)
                  (append-room fuel n run h other ok room small).0,
              kept,
            )
      ]

  -- Where the log represents the entries and is not over the limit, but the operations would take its tail to
  -- `MAX_IDX`, `append` does not return: it warns and stops, and has appended nothing.
  pub append-too_big :
      (fuel : ℕ) (run : Run dt) {entries : List (LogEntry (dt.WriteOperation))}
      → Represents (run.log) entries
      → length operations ≤ max_requests
      → (run.log).tail ≤ (run.log).head + (log_size - gc_from_head)
      → max_idx ≤ (run.log).tail + length operations
      → append succeeds (suc fuel) nid operations run ≡ some tail_too_big
  unfolding append
  append-too_big fuel run h few room big =
      let exact : wrapping_add ((run.log).tail) (length operations)
          ≡ (run.log).tail + length operations =
        omega (arith, h.tail_lt) in
      let lim = limit_lem run h in
      let fits : ltb (limit run) ((run.log).tail) ≡ false = ground arith in
      let long : leb max_idx ((run.log).tail + length operations) ≡ true = ground arith in
      rw (append, lim, fits, exact, long) refl
