-- ===== src/Exec/NodeReplicated.antt =====
-- exec/mod.rs, `NodeReplicated`: the log with its replicas, and how a call reaches the replica of its
-- token. The affinity function of the client is only called: `new` lists the calls in their order. The
-- tickets are ghost state.
pub mod Register
pub mod New
pub mod Settled
pub mod Atomic
pub mod Sequential
pub mod FromNew
use verified_node_replicatio.Prelude.{
  ℕ, zero, suc, Bool, Option, none, some, List, [], ◌∷◌, push, get_elem?, length, set_at, ltb, true,
  false, ◌>>=◌,
}
use verified_node_replicatio.Dispatch.{Dispatch}
use verified_node_replicatio.Exec.Constants.{log_size, max_threads_per_replica}
use verified_node_replicatio.Exec.Context.{ThreadToken}
use verified_node_replicatio.Exec.Log
use verified_node_replicatio.Exec.Log.{NrLog}
use verified_node_replicatio.Exec.Log.Append.{Outcome, returned, tail_too_big}
use verified_node_replicatio.Exec.Replica
use verified_node_replicatio.Exec.Replica.{Replica}
use verified_node_replicatio.Exec.Replica.Combine
use verified_node_replicatio.Exec.Replica.Combine.{Node, and_then}

pub record NodeReplicated (dt : Dispatch) : Type 0 where
  pub log : NrLog (dt.WriteOperation)
  pub replicas : List (Replica dt)

pub data Result (A E : Type 0) : Type 0 where
  ok : A → Result A E
  err : E → Result A E

-- `Vec::remove`: the element and the others.
abbrev pub remove_elem : {A : Type 0} → List A → ℕ → Option (A × List A)
remove_elem [] i = none
remove_elem (x ∷ xs) zero = some (x, xs)
remove_elem (x ∷ xs) (suc i) = do r ← remove_elem xs i; some (r.0, x ∷ r.1)

-- `Vec::insert`, with the index at most the length.
abbrev pub insert_elem : {A : Type 0} → List A → ℕ → A → List A
insert_elem xs zero y = y ∷ xs
insert_elem [] (suc i) y = y ∷ []
insert_elem (x ∷ xs) (suc i) y = x ∷ insert_elem xs i y

module _ {dt : Dispatch} where
  -- The loop of `new` over the tokens of the replicas: the calls of the affinity function, and the
  -- replicas.
  unfoldable pub new_replicas : List ℕ → List ℕ → List (Replica dt) → List ℕ × List (Replica dt)
  new_replicas [] calls replicas = (calls, replicas)
  new_replicas (replica_token ∷ tokens) calls replicas =
      new_replicas tokens (push calls replica_token)
        (push replicas (Replica.new replica_token max_threads_per_replica))

  unfoldable pub new : ℕ → List ℕ × NodeReplicated dt
  new num_replicas =
      let (log, replica_tokens) = Log.new num_replicas log_size in
      let (calls, replicas) = new_replicas replica_tokens (0 ∷ []) [] in
      (push calls 0, record { log = log; replicas = replicas })

  unfoldable pub register : ℕ → NodeReplicated dt → Option ThreadToken × NodeReplicated dt
  unfolding Replica.register
  register replica_id nr = elim (remove_elem (nr.replicas) replica_id) [
    | none ↦ (none, nr)
    | some (replica, rest) ↦
        let (res, replica') = Replica.register replica in
        (res, record nr { replicas = insert_elem rest replica_id replica' })
  ]

  -- The replica's part of the state put back.
  abbrev pub put_back :
      {R : Type 0}
      → ℕ
      → NodeReplicated dt
      → R × ThreadToken × Node dt
      → Option (Outcome (Result (R × ThreadToken) ThreadToken × NodeReplicated dt))
  put_back replica_id nr (resp, tkn, n) = some (
      returned (
        ok (resp, tkn),
        record { log = n.slog; replicas = set_at (nr.replicas) replica_id (n.replica) },
      ))

module _ {dt : Dispatch} (succeeds : ℕ → Bool) (fuel loops : ℕ) where
  unfoldable pub execute_mut :
      dt.WriteOperation
      → ThreadToken
      → NodeReplicated dt
      → Option (Outcome (Result (dt.Response × ThreadToken) ThreadToken × NodeReplicated dt))
  unfolding Combine.execute_mut
  execute_mut op tkn nr = elim (get_elem? (nr.replicas) (tkn.rid)) [
    | none ↦ some (returned (err tkn, nr))
    | some replica ↦
        and_then
          (Combine.execute_mut succeeds fuel loops op tkn
            (record { slog = nr.log; replica = replica }))
          λ done. put_back (tkn.rid) nr done
  ]

  unfoldable pub execute :
      dt.ReadOperation
      → ThreadToken
      → NodeReplicated dt
      → Option (Outcome (Result (dt.Response × ThreadToken) ThreadToken × NodeReplicated dt))
  unfolding Combine.execute_read
  execute op tkn nr = elim (get_elem? (nr.replicas) (tkn.rid)) [
    | none ↦ some (returned (err tkn, nr))
    | some replica ↦
        and_then
          (Combine.execute_read succeeds fuel loops op tkn
            (record { slog = nr.log; replica = replica }))
          λ done. put_back (tkn.rid) nr done
  ]
