-- ===== src/Exec/Log/Execute.antt =====
-- exec/log.rs, `NrLog::execute` brings a replica up to the tail.
use mathlib.Core.List.{append-nil}
use verified_node_replicatio.Prelude.{
  ℕ, zero, suc, ◌+◌, ◌-◌, ◌≤◌, ◌≡◌, ◌==◌, Bool, true, false, some, List, [], ◌∷◌, ◌++◌, push,
  push-append, get_elem?, get_elem?_total, length, set_at, set_at_same, set_at-All, refl, ap, ◌∙◌,
  ltb, if◌then◌else◌, Bool-cases, inl, inr, ◌>>=◌, ==_iff, arith,
}
use verified_node_replicatio.Dispatch.{Dispatch}
use verified_node_replicatio.Exec.Log.{
  NrLog, LogEntry, Run, execute_loop, execute, eq, is_alive_value, execute_finish, execute_entry,
}
use verified_node_replicatio.Exec.Log.Represents.{
  Represents, drop, drop-get_elem?, drop-all, replay, answers,
}

eq_refl : (b : Bool) → eq b b ≡ true
eq_refl true = refl
eq_refl false = refl

module _ {Op : Type 0} (nid : ℕ) where
  -- The log with the version of the replica at the tail.
  abbrev pub synced : NrLog Op → NrLog Op
  synced log = record log {
    version_upper_bound = log.tail;
    local_versions = set_at (log.local_versions) nid (log.tail);
  }

  pub synced-Represents :
      {entries : List (LogEntry Op)} (log : NrLog Op) {v : ℕ}
      → Represents log entries
      → get_elem? (log.local_versions) nid ≡ some v
      → Represents (synced log) entries
  synced-Represents log {v} h at = record {
    len = h.len;
    tail = h.tail;
    stored = h.stored;
    cells = h.cells;
    order = h.order;
    room = h.room;
    head_le =
        set_at-All (log.local_versions) nid (log.tail)
          (omega (arith, h.head_le nid v at, h.version_le nid v at)) λ n v _ e. h.head_le n v e;
    version_le =
        set_at-All (log.local_versions) nid (log.tail) (omega arith) λ n v _ e. h.version_le n v e;
    upper_ge =
        set_at-All (log.local_versions) nid (log.tail) (omega arith) λ n v _ e. h.version_le n v e;
    upper_le = omega arith;
    tail_lt = h.tail_lt;
  }

module _ {dt : Dispatch} (nid : ℕ) (entries : List (LogEntry (dt.WriteOperation))) where
  -- The caller after the entries `es`.
  abbrev pub after : Run dt → List (LogEntry (dt.WriteOperation)) → Run dt
  after run es = record run {
    actual_replica = replay dt (run.actual_replica) es;
    responses = run.responses ++ answers dt nid (run.actual_replica) es;
  }

  abbrev applied : Run dt → LogEntry (dt.WriteOperation) → Run dt
  applied run e = record run {
    actual_replica = (dt.dispatch_mut_spec (run.actual_replica) (e.op)).0;
    responses =
        if e.node_id == nid
        then push (run.responses) (dt.dispatch_mut_spec (run.actual_replica) (e.op)).1
        else run.responses;
  }

  execute_entry_lem :
      (lv : ℕ) (run : Run dt) {e : LogEntry (dt.WriteOperation)}
      → Represents (run.log) entries
      → get_elem? entries lv ≡ some e
      → (run.log).head ≤ lv
      → execute_entry dt nid lv run ≡ some (applied run e)
  unfolding execute_entry
  execute_entry_lem lv run {e} h at le =
      rw (h.len, h.stored lv e at le, eq_refl (is_alive_value lv)) refl

  after-applied :
      (run : Run dt) (e : LogEntry (dt.WriteOperation)) (es : List (LogEntry (dt.WriteOperation)))
      → after (applied run e) es ≡ after run (e ∷ es)
  after-applied run e es = elim (Bool-cases (e.node_id == nid)) [
    | inl mine ↦ rw (mine, push-append) refl
    | inr other ↦ rw other refl
  ]

  execute_loop_lem :
      (n lv : ℕ) (run : Run dt)
      → Represents (run.log) entries
      → lv + n ≡ length entries
      → (run.log).head ≤ lv
      → execute_loop dt nid n lv run ≡ some (after run (drop lv entries))
  unfolding execute_loop
  execute_loop_lem zero lv run h e le =
      let done : drop lv entries ≡ [] = drop-all entries lv (omega arith) in
      rw (done, append-nil (run.responses)) refl
  execute_loop_lem (suc n) lv run h e le =
      let (x, at) = get_elem?_total entries lv (omega arith) in
      rw (execute_entry_lem lv run h at le, drop-get_elem? entries lv at)
        (execute_loop_lem n (suc lv) (applied run x) h (omega arith) (omega arith)
          ∙ ap some (after-applied run x (drop (suc lv) entries)))

  -- Where the log represents the entries and the replica `nid` has the version `v`, `execute` returns: the
  -- replica has applied the entries from `v` on, the responses are followed by those to its own
  -- operations, its version and the upper bound are at the tail, and the log represents the entries.
  pub execute-synced :
      (run : Run dt) {v : ℕ}
      → Represents (run.log) entries
      → get_elem? ((run.log).local_versions) nid ≡ some v
      → (execute dt nid run
          ≡ some (record (after run (drop v entries)) { log = synced nid (run.log) }))
        × Represents (synced nid (run.log)) entries
  unfolding execute execute_finish
  execute-synced run {v} h at = elim (Bool-cases (v == (run.log).tail)) [
    | inl there ↦
        let eq_tail = (==_iff v ((run.log).tail)).0 there in
        let done : drop v entries ≡ [] = drop-all entries v (omega (arith, h.tail)) in
        let upper : (run.log).version_upper_bound ≡ (run.log).tail =
          omega (arith, h.upper_ge nid v at, h.upper_le) in
        let same : run.log ≡ synced nid (run.log) =
          ground (arith, upper, set_at_same ((run.log).local_versions) nid ((run.log).tail)) in
        (
          rw (at, ◌>>=◌, there, done, append-nil (run.responses))
              (ap (λ l. some (record run { log = l })) same),
          synced-Represents nid (run.log) h at,
        )
    | inr behind ↦
        let loop =
          execute_loop_lem ((run.log).tail - v) v run h
            (omega (arith, h.version_le nid v at, h.tail)) (h.head_le nid v at) in
        let upper : (if ltb ((run.log).version_upper_bound) ((run.log).tail)
              then (run.log).tail
              else (run.log).version_upper_bound)
            ≡ (run.log).tail =
          ground (arith, h.upper_le) in
        (rw (at, ◌>>=◌, behind, loop, ◌>>=◌, upper) refl, synced-Represents nid (run.log) h at)
  ]
