-- ===== src/Exec/NodeReplicated/Settled.antt =====
-- exec/mod.rs, `NodeReplicated` between two calls, where no thread has a request.
use mathlib.Core.List.{append_assoc, append-nil}
use verified_node_replicatio.Prelude.{
  ℕ, zero, suc, ◌<◌, ◌≡◌, ◌⊎◌, ◌==◌, true, false, some, List, [], ◌∷◌, ◌++◌, map, get_elem?,
  get_elem?-set_at_self, get_elem?-set_at_ne, length, set_at, set_at-All, inl, inr, refl, sym, ap,
  ◌∙◌, arith,
}
use verified_node_replicatio.Dispatch.{Dispatch}
use verified_node_replicatio.Exec.Constants.{max_threads_per_replica}
use verified_node_replicatio.Exec.Log.{NrLog, LogEntry}
use verified_node_replicatio.Exec.Log.Append.Entries.{entry}
use verified_node_replicatio.Exec.Log.Append.Room.{appended}
use verified_node_replicatio.Exec.Log.Execute.{synced}
use verified_node_replicatio.Exec.Log.Represents.{Represents, drop, replay}
use verified_node_replicatio.Exec.NodeReplicated.{NodeReplicated}
use verified_node_replicatio.Exec.Replica.{Replica}
use verified_node_replicatio.Exec.Replica.Correct.{Quiet, holding}
use verified_node_replicatio.Exec.Replica.OneSlot.{AllEmpty}

module _ {A : Type 0} where
  get_elem?-append :
      (xs ys : List A) (i : ℕ) {x : A}
      → get_elem? (xs ++ ys) i ≡ some x
      → (get_elem? xs i ≡ some x) ⊎ ((j : ℕ) × (get_elem? ys j ≡ some x))
  get_elem?-append [] ys i e = inr (i, e)
  get_elem?-append (z ∷ xs) ys zero e = inl e
  get_elem?-append (z ∷ xs) ys (suc i) e = get_elem?-append xs ys i e

  get_elem?-range : (xs : List A) (i : ℕ) {x : A} → get_elem? xs i ≡ some x → i < length xs
  get_elem?-range [] i e = absurd (cc)
  get_elem?-range (y ∷ xs) zero e = omega arith
  get_elem?-range (y ∷ xs) (suc i) e = omega (arith, get_elem?-range xs i e)

  pub drop-length : (xs ys : List A) → drop (length xs) (xs ++ ys) ≡ ys
  drop-length [] ys = refl
  drop-length (x ∷ xs) ys = drop-length xs ys

node_id-entries :
    {Op : Type 0} (nid : ℕ) (ops : List Op) (i : ℕ) {e : LogEntry Op}
    → get_elem? (map (entry nid) ops) i ≡ some e
    → e.node_id ≡ nid
node_id-entries nid [] i at = absurd (cc)
node_id-entries nid (op ∷ ops) zero at = ground (arith, at)
node_id-entries nid (op ∷ ops) (suc i) at = node_id-entries nid ops i at

module _ {dt : Dispatch} where
  -- The replica `i`, which has applied a first part of the entries, and no thread of which has a request.
  pub record Rests (log : NrLog (dt.WriteOperation)) (entries : List (LogEntry (dt.WriteOperation)))
      (i : ℕ) (r : Replica dt) : Type 0 where
    pub seen : List (LogEntry (dt.WriteOperation))
    pub rest : List (LogEntry (dt.WriteOperation))
    pub split : entries ≡ seen ++ rest
    pub quiet :
        Quiet
          (record { slog = log; replica = r })
          entries
          (length seen)
          (replay dt (dt.init_spec) seen)
          []
    pub token : r.replica_token ≡ i
    pub free : (r.combiner == 0) ≡ true
    pub empty : AllEmpty (r.contexts)
    pub slots : length (r.contexts) ≡ max_threads_per_replica
    pub lanes : length ((r.replicated).ref_counts) ≡ max_threads_per_replica

  pub record Settled (nr : NodeReplicated dt) (entries : List (LogEntry (dt.WriteOperation)))
      : Type 0 where
    pub log : Represents (nr.log) entries
    pub upper : (nr.log).version_upper_bound ≡ length entries
    pub head : (nr.log).head ≡ 0
    pub rests :
        (i : ℕ) (r : Replica dt) → get_elem? (nr.replicas) i ≡ some r → Rests (nr.log) entries i r

  -- The replica after a round, with its data.
  abbrev pub rested : Replica dt → dt.View → Replica dt
  rested r d = record r {
    combiner = 0;
    responses = some [];
    collected_operations = some [];
    collected_operations_per_thread = some [];
    replicated = holding (r.replicated) d;
  }

  -- Another replica's round leaves the replica as it is.
  other-Rests :
      {log log' : NrLog (dt.WriteOperation)} {entries : List (LogEntry (dt.WriteOperation))} {i : ℕ}
      {r : Replica dt} (new : List (LogEntry (dt.WriteOperation)))
      → Rests log entries i r
      → Represents log' (entries ++ new)
      → get_elem? (log'.local_versions) (r.replica_token)
        ≡ get_elem? (log.local_versions) (r.replica_token)
      → ((k : ℕ) (e : LogEntry (dt.WriteOperation))
          → get_elem? new k ≡ some e
          → (e.node_id == r.replica_token) ≡ false)
      → Rests log' (entries ++ new) i r
  other-Rests {entries = entries} {r = r} new h rep same others = record {
    seen = h.seen;
    rest = h.rest ++ new;
    split = ap (λ es. es ++ new) h.split ∙ append_assoc h.seen h.rest new;
    quiet = record {
      log = rep;
      version = same ∙ h.quiet.version;
      own = λ k e at le. elim (get_elem?-append entries new k at) [
        | inl old ↦ h.quiet.own k e old le
        | inr (j, later) ↦ others j e later
      ];
      slots = h.quiet.slots;
      responses = h.quiet.responses;
      collected = h.quiet.collected;
      per_thread = h.quiet.per_thread;
      unlocked = h.quiet.unlocked;
      zeros = h.quiet.zeros;
      cell = h.quiet.cell;
    };
    token = h.token;
    free = h.free;
    empty = h.empty;
    slots = h.slots;
    lanes = h.lanes;
  }

  -- The replica's own round leaves it with all the entries applied.
  own-Rests :
      {log log' : NrLog (dt.WriteOperation)} {entries : List (LogEntry (dt.WriteOperation))} {i : ℕ}
      {r : Replica dt} (all : List (LogEntry (dt.WriteOperation)))
      → Rests log entries i r
      → Represents log' all
      → get_elem? (log'.local_versions) (r.replica_token) ≡ some (length all)
      → Rests log' all i (rested r (replay dt (dt.init_spec) all))
  own-Rests all h rep at = record {
    seen = all;
    rest = [];
    split = sym (append-nil all);
    quiet = record {
      log = rep;
      version = at;
      own = λ k e there le. absurd (omega (arith, get_elem?-range all k there));
      slots = h.quiet.slots;
      responses = refl;
      collected = refl;
      per_thread = refl;
      unlocked = refl;
      zeros = h.quiet.zeros;
      cell = refl;
    };
    token = h.token;
    free = refl;
    empty = h.empty;
    slots = h.slots;
    lanes = h.lanes;
  }

  -- A round of the replica `i` that appends the operations.
  pub round-Settled :
      {nr : NodeReplicated dt} {entries : List (LogEntry (dt.WriteOperation))} (i : ℕ)
      {r : Replica dt} (ops : List (dt.WriteOperation))
      → Settled nr entries
      → get_elem? (nr.replicas) i ≡ some r
      → Represents
          (synced (r.replica_token) (appended (r.replica_token) ops (nr.log)))
          (entries ++ map (entry (r.replica_token)) ops)
      → Settled
          (record {
            log = synced (r.replica_token) (appended (r.replica_token) ops (nr.log));
            replicas = set_at (nr.replicas) i (
                rested r (replay dt (dt.init_spec) (entries ++ map (entry (r.replica_token)) ops)));
          })
          (entries ++ map (entry (r.replica_token)) ops)
  round-Settled {nr} {entries} i {r} ops h at rep =
      let nid = r.replica_token in
      let new = map (entry nid) ops in
      let log' = synced nid (appended nid ops (nr.log)) in
      let mine = h.rests i r at in
      record {
        log = rep;
        upper = rep.tail;
        head = h.head;
        rests =
            set_at-All {P = λ j y. Rests log' (entries ++ new) j y} (nr.replicas) i
              (rested r (replay dt (dt.init_spec) (entries ++ new)))
              (own-Rests (entries ++ new) mine rep (
                get_elem?-set_at_self ((nr.log).local_versions) nid (log'.tail) mine.quiet.version
                ∙ ap some (rep.tail)))
              λ j y apart there.
                let theirs = h.rests j y there in
                let tokens : (nid == y.replica_token) ≡ false =
                  rw (mine.token, theirs.token) apart in
                other-Rests new theirs rep
                  (get_elem?-set_at_ne ((nr.log).local_versions) nid (y.replica_token) (log'.tail)
                    tokens)
                  λ k e entry_at. rw (node_id-entries nid ops k entry_at) tokens;
      }
