-- ===== src/Exec/Log/Append/Entries.antt =====
-- exec/log.rs, the loop of `append` that writes the entries.
use mathlib.Core.List.{append_assoc, append-nil}
use verified_node_replicatio.Prelude.{
  ℕ, suc, ◌+◌, ◌%◌, ◌≤◌, ◌<◌, ◌≡◌, ◌≢◌, ◌==◌, false, none, some, List, [], ◌∷◌, ◌++◌, map, push,
  get_elem?, get_elem?-lt, get_elem?-push, length, length-push, Map, insert, insert_self,
  Bool-cases, present, refl, ap, inl, inr, arith,
}
use verified_node_replicatio.Exec.Constants.{log_size}
use verified_node_replicatio.Exec.Log.{NrLog, LogEntry, BufferEntry, is_alive_value}
use verified_node_replicatio.Exec.Log.Append.{write_entry, write_entries}

module _ {Op : Type 0} where
  -- The buffer with the entries from `head` on, where the log ends at `stop`.
  pub record Holds (slog : Map (BufferEntry Op)) (head stop : ℕ) (entries : List (LogEntry Op))
      : Type 0 where
    pub stored :
        (i : ℕ) (e : LogEntry Op)
        → get_elem? entries i ≡ some e
        → head ≤ i
        → slog (i % log_size) ≡ some (record { log_entry = some e; alive = is_alive_value i })
    pub cells : (i : ℕ) → i < log_size → slog i ≢ none
    pub room : stop ≤ head + log_size

  abbrev pub entry : ℕ → Op → LogEntry Op
  entry nid op = record { op = op; node_id = nid }

  abbrev pub cell : ℕ → ℕ → Op → BufferEntry Op
  cell nid i op = record { log_entry = some (entry nid op); alive = is_alive_value i }

  abbrev pub slog_after : ℕ → ℕ → List Op → Map (BufferEntry Op) → Map (BufferEntry Op)
  slog_after nid i [] slog = slog
  slog_after nid i (op ∷ ops) slog =
      slog_after nid (suc i) ops (insert slog (i % log_size) (cell nid i op))

  insert-present :
      (slog : Map (BufferEntry Op)) (k : ℕ) (b : BufferEntry Op)
      → ((i : ℕ) → i < log_size → slog i ≢ none)
      → (i : ℕ) → i < log_size
      → insert slog k b i ≢ none
  insert-present slog k b h i lt = elim (Bool-cases (k == i)) [
    | inl here ↦ rw here (λ e. cc)
    | inr other ↦ rw other (h i lt)
  ]

  pub write_entries_lem :
      (nid i : ℕ) (ops : List Op) (log : NrLog Op)
      → log.slog_len ≡ log_size
      → ((i : ℕ) → i < log_size → log.slog i ≢ none)
      → write_entries nid i ops log ≡ some (record log { slog = slog_after nid i ops (log.slog) })
  unfolding write_entries write_entry
  write_entries_lem nid i [] log len h = refl
  write_entries_lem nid i (op ∷ ops) log len h =
      let (b, e) = present (log.slog (i % log_size)) (h (i % log_size) (omega arith)) in
      let same : i % log.slog_len ≡ i % log_size = ap (λ n. i % n) len in
      rw (same, e)
        (write_entries_lem nid (suc i) ops
          (record log { slog = insert (log.slog) (i % log_size) (cell nid i op) }) len
          (insert-present (log.slog) (i % log_size) (cell nid i op) h))

  push-Holds :
      (nid : ℕ) (op : Op) {slog : Map (BufferEntry Op)} {head stop : ℕ}
      {entries : List (LogEntry Op)}
      → Holds slog head stop entries
      → length entries < stop
      → Holds
          (insert slog (length entries % log_size) (cell nid (length entries) op))
          head
          stop
          (push entries (entry nid op))
  push-Holds nid op {slog} {head} {stop} {entries} h lt = record {
    stored = λ i e at le. elim (get_elem?-push entries (entry nid op) i at) [
      | inl old ↦
          let differ : (length entries % log_size == i % log_size) ≡ false =
            ground (arith, get_elem?-lt entries i old, h.room) in
          rw differ (h.stored i e old le)
      | inr (here, same) ↦
          rw (here, same)
            (insert_self slog (length entries % log_size) (cell nid (length entries) op))
    ];
    cells = insert-present slog (length entries % log_size) (cell nid (length entries) op) h.cells;
    room = h.room;
  }

  pub slog_after-Holds :
      (nid : ℕ) (ops : List Op) {slog : Map (BufferEntry Op)} {head stop : ℕ}
      {entries : List (LogEntry Op)}
      → Holds slog head stop entries
      → length entries + length ops ≤ stop
      → Holds (slog_after nid (length entries) ops slog) head stop (entries ++ map (entry nid) ops)
  slog_after-Holds nid [] {entries = entries} h le = rw (append-nil entries) h
  slog_after-Holds nid (op ∷ ops) {entries = entries} h le =
      let all = push entries (entry nid op) in
      let len : length all ≡ suc (length entries) =
        omega (arith, length-push entries (entry nid op)) in
      let rest =
        slog_after-Holds nid ops (push-Holds nid op h (omega arith)) (omega (arith, len)) in
      rw (← len, ← append_assoc entries (entry nid op ∷ []) (map (entry nid) ops)) rest
