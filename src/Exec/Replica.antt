-- ===== src/Exec/Replica.antt =====
-- exec/replica.rs, `Replica`: flat combining as it runs. The cells that the combiner lock protects are
-- `none` where they are empty. A function is `none` where it takes from an empty cell, reads out of range,
-- or waits for another thread.
pub mod Combine
pub mod Slots
pub mod Correct
pub mod ExecuteMut
pub mod ExecuteRead
pub mod OneSlot
use verified_node_replicatio.Prelude.{
  ℕ, zero, suc, ◌+◌, ◌==◌, Bool, true, false, Option, none, some, List, [], ◌∷◌, push, get_elem?,
  if◌then◌else◌, ◌>>=◌, set_at, is_none,
}
use verified_node_replicatio.Dispatch.{Dispatch}
use verified_node_replicatio.Exec.Constants.{max_threads_per_replica}
use verified_node_replicatio.Exec.Context
use verified_node_replicatio.Exec.Context.{Context, ThreadToken, set_result}
use verified_node_replicatio.Exec.RwLock
use verified_node_replicatio.Exec.RwLock.{RwLock}

pub record Replica (dt : Dispatch) : Type 0 where
  pub replica_token : ℕ
  pub combiner : ℕ
  pub contexts : List (Context (dt.WriteOperation) (dt.Response))
  pub collected_operations : Option (List (dt.WriteOperation))
  pub collected_operations_per_thread : Option (List ℕ)
  pub responses : Option (List (dt.Response))
  pub replicated : RwLock (dt.View)
  pub num_threads : ℕ
  pub thread_tokens : List ThreadToken

module _ {Op Resp : Type 0} where
  -- The loop of `new`, `n` passes before the end: the contexts and the tokens.
  unfoldable pub new_threads :
      ℕ
      → ℕ
      → ℕ
      → List (Context Op Resp)
      → List ThreadToken
      → List (Context Op Resp) × List ThreadToken
  new_threads rid zero idx contexts tokens = (contexts, tokens)
  new_threads rid (suc n) idx contexts tokens =
      new_threads rid n (suc idx) (push contexts Context.new)
        (push tokens (record { rid = rid; tid = idx }))

  -- `collect_thread_ops`, one pass: the number of operations of a thread, and the operations so far.
  unfoldable pub collect_thread_op : Context Op Resp → List Op → Option (List Op)
  collect_thread_op c operations =
      if c.atomic == 1 then (do p ← c.batch; some (push operations (p.op))) else some operations

  unfoldable pub collect_thread_ops :
      List (Context Op Resp) → List Op → List ℕ → Option (List Op × List ℕ)
  unfolding collect_thread_op
  collect_thread_ops [] operations num_ops_per_thread = some (operations, num_ops_per_thread)
  collect_thread_ops (c ∷ contexts) operations num_ops_per_thread = do
    next ← collect_thread_op c operations
    collect_thread_ops contexts next (push num_ops_per_thread (c.atomic))

  -- `distribute_thread_resps`, one pass for a thread with an operation: its slot with the response.
  unfoldable pub distribute_thread_resp : Resp → Context Op Resp → Option (Context Op Resp)
  distribute_thread_resp resp c = do
    op_resp ← c.batch
    some (record { batch = some (set_result resp op_resp); atomic = 0 })

  unfoldable pub distribute_thread_resps :
      List Resp → List ℕ → ℕ → List (Context Op Resp) → Option (List (Context Op Resp))
  unfolding distribute_thread_resp
  distribute_thread_resps responses num_ops resp_idx [] = some []
  distribute_thread_resps responses [] resp_idx (c ∷ contexts) = none
  distribute_thread_resps responses (zero ∷ num_ops) resp_idx (c ∷ contexts) = do
    rest ← distribute_thread_resps responses num_ops resp_idx contexts
    some (c ∷ rest)
  distribute_thread_resps responses (suc k ∷ num_ops) resp_idx (c ∷ contexts) = do
    resp ← get_elem? responses resp_idx
    done ← distribute_thread_resp resp c
    rest ← distribute_thread_resps responses num_ops (suc resp_idx) contexts
    some (done ∷ rest)

-- `Vec::pop`
abbrev pub pop {ℓ} : {A : Type ℓ} → List A → Option (A × List A)
pop [] = none
pop (x ∷ xs) =
    let rest = pop xs in elim rest [ none ↦ some (x, []) | some (y, ys) ↦ some (y, x ∷ ys) ]

module _ {dt : Dispatch} where
  unfoldable pub new : ℕ → ℕ → Replica dt
  new replica_token num_threads =
      let threads = new_threads replica_token num_threads 0 [] [] in
      record {
        replica_token = replica_token;
        combiner = 0;
        contexts = threads.0;
        collected_operations = some [];
        collected_operations_per_thread = some [];
        responses = some [];
        replicated = RwLock.new max_threads_per_replica (dt.init_spec) (λ v. true);
        num_threads = 0;
        thread_tokens = threads.1;
      }

  -- The load and the compare-exchange; the value of the lock is that of thread 1.
  unfoldable pub acquire_combiner_lock : Replica dt → Bool × Replica dt
  acquire_combiner_lock r =
      if r.combiner == 0 then (true, record r { combiner = 1 + 1 }) else (false, r)

  unfoldable pub release_combiner_lock : Replica dt → Replica dt
  release_combiner_lock r = record r { combiner = 0 }

  unfoldable pub register : Replica dt → Option ThreadToken × Replica dt
  register r = elim (pop (r.thread_tokens)) [
    | none ↦ (none, r)
    | some (tkn, rest) ↦ (some tkn, record r { thread_tokens = rest })
  ]

  unfoldable pub make_pending : dt.WriteOperation → ℕ → Replica dt → Option (Replica dt)
  make_pending op tid r = do
    context ← get_elem? (r.contexts) tid
    next ← Context.enqueue_op op context
    some (record r { contexts = set_at (r.contexts) tid next })
