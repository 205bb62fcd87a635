-- ===== src/Exec/NodeReplicated/New.antt =====
-- exec/mod.rs, `NodeReplicated::new`, with exec/log.rs and exec/replica.rs: what a new structure is.
use verified_node_replicatio.Prelude.{
  ℕ, zero, suc, false, ◌+◌, ◌<◌, ◌≡◌, ◌≢◌, ◌==◌, none, some, List, [], ◌∷◌, ◌++◌, map, push,
  push-append, get_elem?, get_elem?-push, get_elem?_total, length, length-push, Map, insert, empty,
  Bool-cases, inl, inr, refl, sym, ap, ◌∙◌, arith,
}
use mathlib.Core.List.{append-nil}
use mathlib.Core.Path.{subst}
use verified_node_replicatio.Dispatch.{Dispatch}
use verified_node_replicatio.Exec.Constants.{log_size, max_threads_per_replica}
use verified_node_replicatio.Exec.Context
use verified_node_replicatio.Exec.Context.{Context, ThreadToken}
use verified_node_replicatio.Exec.Log
use verified_node_replicatio.Exec.Log.{
  NrLog, LogEntry, BufferEntry, new_slog, new_local_versions, new_replica_tokens,
}
use verified_node_replicatio.Exec.Log.Represents.{Represents}
use verified_node_replicatio.Exec.NodeReplicated.{new_replicas, new}
use verified_node_replicatio.Exec.Replica
use verified_node_replicatio.Exec.Replica.{Replica, new_threads}
use verified_node_replicatio.Exec.Replica.Correct.{Quiet}
use verified_node_replicatio.Exec.Replica.Slots.{Slots, settled}
use verified_node_replicatio.Exec.RwLock
use verified_node_replicatio.Exec.RwLock.Start.{zeros_loop}

-- `n` numbers from `i` on.
abbrev pub count_up : ℕ → ℕ → List ℕ
count_up zero i = []
count_up (suc n) i = i ∷ count_up n (suc i)

new_replica_tokens_lem : (n i : ℕ) (v : List ℕ) → new_replica_tokens n i v ≡ v ++ count_up n i
unfolding new_replica_tokens
new_replica_tokens_lem zero i v = sym (append-nil v)
new_replica_tokens_lem (suc n) i v =
    new_replica_tokens_lem n (suc i) (push v i) ∙ push-append v (count_up n (suc i)) i

zeros_versions :
    (n : ℕ) (v : List ℕ)
    → ((i k : ℕ) → get_elem? v i ≡ some k → k ≡ 0)
    → (i k : ℕ) → get_elem? (new_local_versions n v) i ≡ some k
    → k ≡ 0
unfolding new_local_versions
zeros_versions zero v h i k e = h i k e
zeros_versions (suc n) v h i k e =
    zeros_versions n (push v 0)
      (λ j m f. elim (get_elem?-push v 0 j f) [ inl old ↦ h j m old | inr new ↦ new.1 ]) i k e

length-versions : (n : ℕ) (v : List ℕ) → length (new_local_versions n v) ≡ n + length v
unfolding new_local_versions
length-versions zero v = omega arith
length-versions (suc n) v = omega (arith, length-versions n (push v 0), length-push v 0)

-- The tokens of a new log, and its versions.
new-tokens : (Op : Type 0) (n size : ℕ) → (Log.new {Op = Op} n size).1 ≡ count_up n 0
unfolding Log.new
new-tokens Op n size = new_replica_tokens_lem n 0 []

pub new-versions :
    (Op : Type 0) (n size i : ℕ)
    → i < n
    → get_elem? ((Log.new {Op = Op} n size).0.local_versions) i ≡ some 0
unfolding Log.new
new-versions Op n size i lt =
    let (w, at) =
      get_elem?_total (new_local_versions n []) i (omega (arith, length-versions n [])) in
    at ∙ ap some (zeros_versions n [] (λ j k e. absurd (cc e)) i w at)

module _ {Op : Type 0} where
  -- Every index below the size has an entry.
  new_slog-present :
      (n i : ℕ) (slog : Map (BufferEntry Op))
      → ((j : ℕ) → j < i → slog j ≢ none)
      → (j : ℕ) → j < i + n
      → new_slog n i slog j ≢ none
  unfolding new_slog
  new_slog-present zero i slog h j lt = h j (omega arith)
  new_slog-present (suc n) i slog h j lt =
      new_slog-present n (suc i) (insert slog i (record { log_entry = none; alive = false }))
        (λ k le. elim (Bool-cases (i == k)) [
          | inl here ↦ rw here (λ e. cc)
          | inr other ↦ rw other (h k (ground arith))
        ])
        j (omega arith)

  -- A new log of the library's size represents no entries.
  pub new-Represents : (n size : ℕ) → size ≡ log_size → Represents ((Log.new {Op = Op} n size).0) []
  unfolding Log.new
  new-Represents n size same =
      let zeros : (i k : ℕ) → get_elem? (new_local_versions n []) i ≡ some k → k ≡ 0 =
        zeros_versions n [] (λ i k e. absurd (cc e)) in
      record {
        len = same;
        tail = refl;
        stored = λ i e at le. absurd (cc);
        cells =
            λ i lt. new_slog-present size 0 empty (λ j less. absurd (omega arith)) i (omega arith);
        order = omega arith;
        room = omega arith;
        head_le = λ i k e. omega arith;
        version_le = λ i k e. omega (arith, zeros i k e);
        upper_ge = λ i k e. omega (arith, zeros i k e);
        upper_le = omega arith;
        tail_lt = omega arith;
      }

module _ {Op Resp : Type 0} where
  Slots-push :
      {cs : List (Context Op Resp)} {ops : List Op}
      → Slots cs ops
      → Slots (push cs (settled none)) ops
  Slots-push Slots.done = Slots.idle none Slots.done
  Slots-push (Slots.idle batch h) = Slots.idle batch (Slots-push h)
  Slots-push (Slots.busy p h) = Slots.busy p (Slots-push h)

  new_threads-Slots :
      (rid n idx : ℕ) (cs : List (Context Op Resp)) (tokens : List ThreadToken)
      → Slots cs []
      → Slots (new_threads rid n idx cs tokens).0 []
  unfolding new_threads Context.new
  new_threads-Slots rid zero idx cs tokens h = h
  new_threads-Slots rid (suc n) idx cs tokens h =
      new_threads-Slots rid n (suc idx) (push cs (settled none))
        (push tokens (record { rid = rid; tid = idx })) (Slots-push h)

module _ {dt : Dispatch} where
  new_replicas_lem :
      (tokens calls : List ℕ) (replicas : List (Replica dt))
      → new_replicas tokens calls replicas
        ≡ (calls ++ tokens, replicas ++ map (λ t. Replica.new t max_threads_per_replica) tokens)
  unfolding new_replicas
  new_replicas_lem [] calls replicas = rw (append-nil calls, append-nil replicas) refl
  new_replicas_lem (t ∷ tokens) calls replicas =
      new_replicas_lem tokens (push calls t) (push replicas (Replica.new t max_threads_per_replica))
      ∙ rw
          (
            push-append calls tokens t,
            push-append replicas (map (λ t. Replica.new t max_threads_per_replica) tokens)
                (Replica.new t max_threads_per_replica),
          )
          refl

  pub new_lem :
      (n : ℕ)
      → ((new {dt = dt} n).0 ≡ push (0 ∷ count_up n 0) 0)
        × ((new {dt = dt} n).1.log ≡ (Log.new n log_size).0)
        × ((new {dt = dt} n).1.replicas
            ≡ map (λ t. Replica.new t max_threads_per_replica) (count_up n 0))
  unfolding new
  new_lem n =
      let built = new_replicas_lem ((Log.new {Op = dt.WriteOperation} n log_size).1) (0 ∷ []) [] in
      let tokens = new-tokens (dt.WriteOperation) n log_size in
      (rw (built, tokens) refl, refl, rw (built, tokens) refl)

  -- A new replica is quiet with a log of no entries, where its version is 0.
  pub replica-Quiet :
      (log : NrLog (dt.WriteOperation)) (i threads : ℕ)
      → Represents log []
      → get_elem? (log.local_versions) i ≡ some 0
      → Quiet
          (record { slog = log; replica = Replica.new {dt = dt} i threads })
          []
          0
          (dt.init_spec)
          []
  unfolding Replica.new RwLock.new
  replica-Quiet log i threads h version = record {
    log = h;
    version = version;
    own = λ j e at le. absurd (cc at);
    slots = new_threads-Slots i threads 0 [] [] Slots.done;
    responses = refl;
    collected = refl;
    per_thread = refl;
    unlocked = refl;
    zeros = zeros_loop max_threads_per_replica [] (λ j k e. absurd (cc e));
    cell = refl;
  }

pub replica_token-new :
    (dt : Dispatch) (i threads : ℕ) → (Replica.new {dt = dt} i threads).replica_token ≡ i
unfolding Replica.new
replica_token-new dt i threads = refl

pub get_elem?-count_up : (n i j : ℕ) → j < n → get_elem? (count_up n i) j ≡ some (i + j)
get_elem?-count_up zero i j lt = absurd (omega arith)
get_elem?-count_up (suc n) i zero lt = let e : i ≡ i + 0 = omega arith in ap some e
get_elem?-count_up (suc n) i (suc j) lt =
    let e : suc i + j ≡ i + suc j = omega arith in
    get_elem?-count_up n (suc i) j (omega arith) ∙ ap some e

get_elem?-map :
    {A B : Type 0} (f : A → B) (xs : List A) (i : ℕ) {x : A}
    → get_elem? xs i ≡ some x
    → get_elem? (map f xs) i ≡ some (f x)
get_elem?-map f [] i e = absurd (cc)
get_elem?-map f (x ∷ xs) zero e = ground arith
get_elem?-map f (x ∷ xs) (suc i) e = get_elem?-map f xs i e

module _ {dt : Dispatch} where
  -- `new` calls the affinity function with 0, with the identifier of each replica in its order, and with 0
  -- again; each replica below the number of replicas is there, with its identifier, and with the log it is
  -- quiet at version 0 of no entries: it has the initial data, and no thread has requested anything.
  pub new-Quiet :
      (num_replicas i : ℕ)
      → i < num_replicas
      → ((new {dt = dt} num_replicas).0 ≡ push (0 ∷ count_up num_replicas 0) 0)
        × (replica : Replica dt) × (get_elem? ((new {dt = dt} num_replicas).1.replicas) i
            ≡ some replica)
        × (replica.replica_token ≡ i)
        × Quiet
            (record { slog = (new {dt = dt} num_replicas).1.log; replica = replica })
            []
            0
            (dt.init_spec)
            []
  new-Quiet n i lt =
      let (calls, log, replicas) = new_lem {dt = dt} n in
      let same : 0 + i ≡ i = omega arith in
      let there =
        get_elem?-map (λ t. Replica.new {dt = dt} t max_threads_per_replica) (count_up n 0) i
          (get_elem?-count_up n 0 i lt ∙ ap some same) in
      (
        calls,
        Replica.new i max_threads_per_replica,
        ap (λ rs. get_elem? rs i) replicas ∙ there,
        replica_token-new dt i max_threads_per_replica,
        subst
            (λ l.
              Quiet (record { slog = l; replica = Replica.new {dt = dt} i max_threads_per_replica })
                [] 0 (dt.init_spec) [])
            (sym log)
            (replica-Quiet (Log.new n log_size).0 i max_threads_per_replica
              (new-Represents n log_size refl) (new-versions (dt.WriteOperation) n log_size i lt)),
      )
