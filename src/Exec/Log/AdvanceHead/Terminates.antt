-- ===== src/Exec/Log/AdvanceHead/Terminates.antt =====
-- exec/log.rs, `NrLog::advance_head` ends, where the other replicas have gone on.
use verified_node_replicatio.Prelude.{
  ℕ, suc, ◌+◌, ◌-◌, ◌≤◌, ◌<◌, ◌≡◌, ◌≢◌, ◌⊎◌, ◌==◌, true, false, some, List, get_elem?, get_elem?-lt,
  get_elem?_total, length, length-set_at, set_at-All, ltb, ◌>>=◌, Bool-cases, refl, ap, ◌∙◌, inl,
  inr, arith,
}
use verified_node_replicatio.Dispatch.{Dispatch}
use verified_node_replicatio.NrLog.{find_min_local_version}
use verified_node_replicatio.NrLog.FindMin.{find_min_local_version-least}
use verified_node_replicatio.Exec.Constants.{log_size, gc_from_head, wrapping_add, wrapping_sub}
use verified_node_replicatio.Exec.Log.{NrLog, LogEntry, Run, execute}
use verified_node_replicatio.Exec.Log.Represents.{Represents, drop}
use verified_node_replicatio.Exec.Log.Execute.{after, synced, execute-synced}
use verified_node_replicatio.Exec.Log.AdvanceHead.{load, advance_head, set_head}

abbrev minimum : List ℕ → ℕ
minimum versions = find_min_local_version (load versions) (length versions)

load_lem : (versions : List ℕ) (i : ℕ) {w : ℕ} → get_elem? versions i ≡ some w → load versions i ≡ w
load_lem versions i e = rw (load, e) refl

minimum-le :
    (versions : List ℕ) (i : ℕ) {w : ℕ} → get_elem? versions i ≡ some w → minimum versions ≤ w
minimum-le versions i e =
    let lt = get_elem?-lt versions i e in
    omega (
      arith,
      (find_min_local_version-least (load versions) (load versions) (length versions) (omega arith)
            (λ j. omega arith)).0
          i lt,
      load_lem versions i e,
    )

minimum-found :
    (versions : List ℕ)
    → 0 < length versions
    → (i : ℕ) × (get_elem? versions i ≡ some (minimum versions))
minimum-found versions pos =
    let (i, lt, e) =
      (find_min_local_version-least (load versions) (load versions) (length versions) pos
        (λ j. omega arith)).1 in
    let (w, at) = get_elem?_total versions i lt in
    let same : w ≡ minimum versions = omega (arith, e, load_lem versions i at) in
    (i, at ∙ ap some same)

-- Where the head may go.
moved-Represents :
    {Op : Type 0} (log : NrLog Op) (m : ℕ) {entries : List (LogEntry Op)}
    → Represents log entries
    → log.head ≤ m
    → m ≤ log.tail
    → ((n v : ℕ) → get_elem? (log.local_versions) n ≡ some v → m ≤ v)
    → Represents (record log { head = m }) entries
moved-Represents log m h ge le below = record {
  len = h.len;
  tail = h.tail;
  stored = λ i e at lo. h.stored i e at (omega arith);
  cells = h.cells;
  order = le;
  room = omega (arith, h.room);
  head_le = below;
  version_le = h.version_le;
  upper_ge = h.upper_ge;
  upper_le = h.upper_le;
  tail_lt = h.tail_lt;
}

module _ {dt : Dispatch} (nid : ℕ) (entries : List (LogEntry (dt.WriteOperation))) where
  -- The caller after it has executed the log from the version `v` on.
  abbrev pub executed : ℕ → Run dt → Run dt
  executed v run = record (after nid entries run (drop v entries)) { log = synced nid (run.log) }

  -- The slowest replica is ahead of the head.
  min-between :
      (run : Run dt)
      → Represents (run.log) entries
      → 0 < length ((run.log).local_versions)
      → ((run.log).head ≤ minimum ((run.log).local_versions))
        × (minimum ((run.log).local_versions) ≤ (run.log).tail)
  min-between run h pos =
      let (i, at) = minimum-found ((run.log).local_versions) pos in
      (h.head_le i _ at, h.version_le i _ at)

  limit_lem :
      (run : Run dt) (m : ℕ)
      → Represents (run.log) entries
      → m ≤ (run.log).tail
      → wrapping_sub (wrapping_add m ((run.log).slog_len)) gc_from_head
        ≡ m + (log_size - gc_from_head)
  limit_lem run m h le = omega (arith, h.len, h.tail_lt)

  -- A pass that moves the head far enough is the last.
  last_pass :
      (fuel : ℕ) (run : Run dt)
      → Represents (run.log) entries
      → 0 < length ((run.log).local_versions)
      → minimum ((run.log).local_versions) ≢ (run.log).head
      → (run.log).tail < minimum ((run.log).local_versions) + (log_size - gc_from_head)
      → (advance_head (suc fuel) nid run ≡ some (set_head (minimum ((run.log).local_versions)) run))
        × Represents ((set_head (minimum ((run.log).local_versions)) run).log) entries
  unfolding advance_head set_head
  last_pass fuel run h pos differ far =
      let m : ℕ = minimum ((run.log).local_versions) in
      let (ge, le) = min-between run h pos in
      let no : (minimum ((run.log).local_versions) == (run.log).head) ≡ false = ground arith in
      let yes' : ltb ((run.log).tail)
            (wrapping_sub (wrapping_add m ((run.log).slog_len)) gc_from_head)
          ≡ true =
        rw (limit_lem run m h le) (ground arith) in
      (
        rw (advance_head, no, yes') refl,
        moved-Represents (run.log) m h ge le (λ n v e. minimum-le ((run.log).local_versions) n e),
      )

  -- A log whose other replicas are ahead of the head, and near the tail.
  abbrev OthersAhead : Run dt → Type 0
  OthersAhead run =
      (j w : ℕ)
      → (nid == j) ≡ false
      → get_elem? ((run.log).local_versions) j ≡ some w
      → ((run.log).head < w) × ((run.log).tail < w + (log_size - gc_from_head))

  -- After the replica has executed the log, every version is ahead of the head and near the tail.
  executed-ahead :
      (run : Run dt) (v : ℕ)
      → (run.log).head < (run.log).tail
      → OthersAhead run
      → (j w : ℕ) → get_elem? ((executed v run).log.local_versions) j ≡ some w
      → ((run.log).head < w) × ((run.log).tail < w + (log_size - gc_from_head))
  executed-ahead run v lt others =
      set_at-All ((run.log).local_versions) nid ((run.log).tail) (lt, omega arith) others

  -- The pass after an execution is the last.
  after_execute :
      (fuel v : ℕ) (run : Run dt)
      → Represents (run.log) entries
      → get_elem? ((run.log).local_versions) nid ≡ some v
      → (run.log).head < (run.log).tail
      → OthersAhead run
      → (m : ℕ) × ((run.log).tail < m + (log_size - gc_from_head))
        × ((execute dt nid run >>= advance_head (suc fuel) nid)
            ≡ some (set_head m (executed v run)))
        × Represents ((set_head m (executed v run)).log) entries
  after_execute fuel v run h at lt others =
      let (e, h') = execute-synced nid entries run h at in
      let versions : List ℕ = (executed v run).log.local_versions in
      let m : ℕ = minimum versions in
      let pos : 0 < length versions = omega (
        arith,
        length-set_at ((run.log).local_versions) nid ((run.log).tail),
        get_elem?-lt ((run.log).local_versions) nid at,
      ) in
      let (i, found) = minimum-found versions pos in
      let (ahead, near) = executed-ahead run v lt others i m found in
      let (done, rep) = last_pass fuel (executed v run) h' pos (λ same. omega arith) near in
      (m, near, rw e done, rep)

  -- Where the log represents the entries, has some, and every other replica is ahead of the head and less than
  -- the log's size less `GC_FROM_HEAD` behind the tail, `advance_head` returns after two passes at most: the
  -- head is again less than that behind the tail, the log represents the entries, and besides the head
  -- nothing has changed, or what `execute` changes.
  pub advance_head-terminates :
      (fuel v : ℕ) (run : Run dt)
      → Represents (run.log) entries
      → get_elem? ((run.log).local_versions) nid ≡ some v
      → (run.log).head < (run.log).tail
      → OthersAhead run
      → (m : ℕ) × (last : Run dt) × ((run.log).tail < m + (log_size - gc_from_head))
        × ((last ≡ run) ⊎ (last ≡ executed v run))
        × (advance_head (suc (suc fuel)) nid run ≡ some (set_head m last))
        × Represents ((set_head m last).log) entries
  unfolding advance_head set_head
  advance_head-terminates fuel v run h at lt others =
      let versions : List ℕ = (run.log).local_versions in
      let m : ℕ = minimum versions in
      let pos : 0 < length versions = omega (arith, get_elem?-lt versions nid at) in
      let (ge, le) = min-between run h pos in
      let lim = limit_lem run m h le in
      elim (Bool-cases (m == (run.log).head)) [
        | inl stays ↦
            let (m', near, e, rep) = after_execute fuel v run h at lt others in
            (m', executed v run, near, inr refl, rw (advance_head, stays) e, rep)
        | inr moves ↦ elim (Bool-cases (ltb ((run.log).tail) (m + (log_size - gc_from_head)))) [
          | inl near ↦
              let (e, rep) = last_pass (suc fuel) run h pos (ground arith) (ground arith) in
              (m, run, ground arith, inl refl, e, rep)
          | inr far ↦
              let far' : ltb ((run.log).tail)
                    (wrapping_sub (wrapping_add m ((run.log).slog_len)) gc_from_head)
                  ≡ false =
                rw lim far in
              let behind : m + (log_size - gc_from_head) ≤ (run.log).tail = ground arith in
              let ready = moved-Represents (run.log) m h ge le (λ n w e. minimum-le versions n e) in
              let (m', near, e, rep) =
                after_execute fuel v (set_head m run) ready at (omega arith) (λ j w other found.
                  (omega (arith, (others j w other found).1), (others j w other found).1)) in
              (m', executed v run, near, inr refl, rw (advance_head, moves, far') e, rep)
        ]
      ]
