-- ===== src/Exec/NodeReplicated/FromNew.antt =====
-- exec/mod.rs, `NodeReplicated::new`, and the calls after it.
use mathlib.Core.Path.{subst}
use verified_node_replicatio.Prelude.{
  ℕ, zero, suc, ◌+◌, ◌-◌, ◌≤◌, ◌<◌, ◌≡◌, Bool, true, none, some, List, [], ◌∷◌, map, push,
  get_elem?, get_elem?-push, length, length-push, inl, inr, refl, sym, ap, ◌∙◌, arith,
}
use verified_node_replicatio.Dispatch.{Dispatch}
use verified_node_replicatio.Exec.Constants.{log_size, gc_from_head, max_threads_per_replica}
use verified_node_replicatio.Exec.Context
use verified_node_replicatio.Exec.Context.{Context, ThreadToken}
use verified_node_replicatio.Exec.Log
use verified_node_replicatio.Exec.Log.Append.{returned}
use verified_node_replicatio.Exec.Log.{NrLog}
use verified_node_replicatio.Exec.Log.Represents.{Represents}
use verified_node_replicatio.Exec.NodeReplicated.{NodeReplicated, new}
use verified_node_replicatio.Exec.NodeReplicated.New.{
  count_up, new_lem, new-Represents, new-versions, replica-Quiet,
}
use verified_node_replicatio.Exec.NodeReplicated.Sequential.{
  Call, AtRest, IsKnown, answers_to, run_calls, run_calls_lem,
}
use verified_node_replicatio.Exec.NodeReplicated.Settled.{Rests, Settled}
use verified_node_replicatio.Exec.Replica
use verified_node_replicatio.Exec.Replica.{Replica, new_threads}
use verified_node_replicatio.Exec.Replica.OneSlot.{AllEmpty}
use verified_node_replicatio.Exec.Replica.Slots.{settled}
use verified_node_replicatio.Exec.RwLock
use verified_node_replicatio.Exec.RwLock.{new_loop}

length-new_loop : (n : ℕ) (v : List ℕ) → length (new_loop n v) ≡ n + length v
unfolding new_loop
length-new_loop zero v = omega arith
length-new_loop (suc n) v = omega (arith, length-new_loop n (push v 0), length-push v 0)

module _ {Op Resp : Type 0} where
  new_threads-AllEmpty :
      (rid n idx : ℕ) (cs : List (Context Op Resp)) (tokens : List ThreadToken)
      → AllEmpty cs
      → AllEmpty (new_threads rid n idx cs tokens).0
  unfolding new_threads Context.new
  new_threads-AllEmpty rid zero idx cs tokens h = h
  new_threads-AllEmpty rid (suc n) idx cs tokens h =
      new_threads-AllEmpty rid n (suc idx) (push cs (settled none))
        (push tokens (record { rid = rid; tid = idx }))
        λ i c at. elim (get_elem?-push cs (settled none) i at) [
          | inl old ↦ h i c old
          | inr last ↦ last.1
        ]

  length-new_threads :
      (rid n idx : ℕ) (cs : List (Context Op Resp)) (tokens : List ThreadToken)
      → length ((new_threads rid n idx cs tokens).0) ≡ n + length cs
  unfolding new_threads Context.new
  length-new_threads rid zero idx cs tokens = omega arith
  length-new_threads rid (suc n) idx cs tokens = omega (
    arith,
    length-new_threads rid n (suc idx) (push cs (settled none))
        (push tokens (record { rid = rid; tid = idx })),
    length-push cs (settled none),
  )

length-count_up : (n i : ℕ) → length (count_up n i) ≡ n
length-count_up zero i = refl
length-count_up (suc n) i = ap suc (length-count_up n (suc i))

module _ {B : Type 0} (f : ℕ → B) where
  length-map : (xs : List ℕ) → length (map f xs) ≡ length xs
  length-map [] = refl
  length-map (x ∷ xs) = ap suc (length-map xs)

  -- What stands in a mapped range.
  map-count_up :
      (n i j : ℕ) {y : B} → get_elem? (map f (count_up n i)) j ≡ some y → (y ≡ f (i + j)) × (j < n)
  map-count_up zero i j e = absurd (cc e)
  map-count_up (suc n) i zero e =
      let same : i ≡ i + 0 = omega arith in (ground (arith, e, ap f same), omega arith)
  map-count_up (suc n) i (suc j) e =
      let (y, lt) = map-count_up n (suc i) j e in
      let same : suc i + j ≡ i + suc j = omega arith in (y ∙ ap f same, omega arith)

module _ {dt : Dispatch} where
  replica-Rests :
      (log : NrLog (dt.WriteOperation)) (i : ℕ)
      → Represents log []
      → get_elem? (log.local_versions) i ≡ some 0
      → Rests log [] i (Replica.new {dt = dt} i max_threads_per_replica)
  unfolding Replica.new RwLock.new
  replica-Rests log i h version = record {
    seen = [];
    rest = [];
    split = refl;
    quiet = replica-Quiet log i max_threads_per_replica h version;
    token = refl;
    free = refl;
    empty = new_threads-AllEmpty i max_threads_per_replica 0 [] [] (λ j c e. absurd (cc e));
    slots = length-new_threads i max_threads_per_replica 0 [] [];
    lanes = length-new_loop max_threads_per_replica [];
  }

  -- The parts of a new structure.
  abbrev built : ℕ → NodeReplicated dt
  built n = record {
    log = (Log.new n log_size).0;
    replicas = map (λ t. Replica.new t max_threads_per_replica) (count_up n 0);
  }

  built-Settled : (n : ℕ) → Settled (built n) []
  unfolding Log.new
  built-Settled n = record {
    log = new-Represents n log_size refl;
    upper = refl;
    head = refl;
    rests = λ i r at.
        let (is_new, lt) =
          map-count_up (λ t. Replica.new {dt = dt} t max_threads_per_replica) n 0 i at in
        let same : 0 + i ≡ i = omega arith in
        subst (Rests ((built n).log) [] i)
          (sym (is_new ∙ ap (λ t. Replica.new t max_threads_per_replica) same))
          (replica-Rests ((built n).log) i (new-Represents n log_size refl)
            (new-versions (dt.WriteOperation) n log_size i lt));
  }

  new-AtRest : (n : ℕ) → AtRest n (new {dt = dt} n).1 (dt.init_spec) 0
  new-AtRest n =
      let (calls, log_is, replicas_are) = new_lem {dt = dt} n in
      let is_built : (new {dt = dt} n).1 ≡ built n =
        λ j. record { log = log_is j; replicas = replicas_are j } in
      subst (λ nr. AtRest n nr (dt.init_spec) 0) (sym is_built)
        (record {
          entries = [];
          settled = built-Settled n;
          data_is = refl;
          number = refl;
          replicas_are =
              length-map (λ t. Replica.new {dt = dt} t max_threads_per_replica) (count_up n 0)
              ∙ length-count_up n 0;
        })

  -- From a new structure, calls that threads of its replicas make one after the other, no more of them than
  -- the log's size less `GC_FROM_HEAD`, all return, where a compare-exchange goes through within the fuel and
  -- the loops that wait have two passes: their results are the token of the call and the response that the
  -- data structure itself gives, when the calls are applied to its initial data in their order.
  pub run_calls_correct :
      (succeeds : ℕ → Bool) (fuel n loops num_replicas : ℕ) (calls : List (Call dt))
      → n < fuel
      → succeeds n ≡ true
      → ((i : ℕ) (c : Call dt) → get_elem? calls i ≡ some c → IsKnown num_replicas c)
      → length calls ≤ log_size - gc_from_head
      → (after : NodeReplicated dt) × (run_calls succeeds fuel
            (suc (suc loops))
            calls
            (new num_replicas).1
          ≡ some (returned (answers_to (dt.init_spec) calls, after)))
  run_calls_correct succeeds fuel n loops num_replicas calls lt ok_n known room =
      run_calls_lem succeeds fuel n lt ok_n loops num_replicas 0 (new num_replicas).1 (dt.init_spec)
        calls (new-AtRest num_replicas) known (omega arith)
