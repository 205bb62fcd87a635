-- ===== src/Exec/Log.antt =====
-- exec/log.rs, `NrLog`: the shared log as it runs. A function takes the log as it is when its caller runs
-- alone; it returns `none` where the code waits for another thread, and where an access is out of range
-- or to an empty cell. The thread's own state is the replica that it combines for and the responses.
pub mod Represents
pub mod Execute
pub mod Append
pub mod AdvanceHead
use verified_node_replicatio.Prelude.{
  ℕ, zero, suc, ◌+◌, ◌-◌, ◌/◌, ◌%◌, ◌==◌, Bool, true, false, not, ◌||◌, ◌&&◌, Option, none, some,
  List, [], ◌∷◌, get_elem?, length, set_at, push, if◌then◌else◌, ltb, leb, guard, ◌>>=◌, ◌>>◌, Map,
  empty, insert,
}
use verified_node_replicatio.Dispatch.{Dispatch}
use verified_node_replicatio.Exec.Constants.{log_size, wrapping_add}

pub record LogEntry (Op : Type 0) : Type 0 where
  pub op : Op
  pub node_id : ℕ

pub record BufferEntry (Op : Type 0) : Type 0 where
  pub log_entry : Option (LogEntry Op)
  pub alive : Bool

-- `slog` is a vector of `slog_len` entries.
pub record NrLog (Op : Type 0) : Type 0 where
  pub slog : Map (BufferEntry Op)
  pub slog_len : ℕ
  pub version_upper_bound : ℕ
  pub head : ℕ
  pub tail : ℕ
  pub local_versions : List ℕ

module _ {Op : Type 0} where
  -- The loop of `new` that builds the entries, `n` passes before the end.
  unfoldable pub new_slog : ℕ → ℕ → Map (BufferEntry Op) → Map (BufferEntry Op)
  new_slog zero log_idx slog = slog
  new_slog (suc n) log_idx slog =
      new_slog n (suc log_idx) (insert slog log_idx (record { log_entry = none; alive = false }))

-- The loop of `new` over the replicas' versions.
unfoldable pub new_local_versions : ℕ → List ℕ → List ℕ
new_local_versions zero v = v
new_local_versions (suc n) v = new_local_versions n (push v 0)

-- The loop of `new` over the replica tokens.
unfoldable pub new_replica_tokens : ℕ → ℕ → List ℕ → List ℕ
new_replica_tokens zero idx v = v
new_replica_tokens (suc n) idx v = new_replica_tokens n (suc idx) (push v idx)

module _ {Op : Type 0} where
  unfoldable pub new : ℕ → ℕ → NrLog Op × List ℕ
  new num_replicas size = (
    record {
      slog = new_slog size 0 empty;
      slog_len = size;
      version_upper_bound = 0;
      head = 0;
      tail = 0;
      local_versions = new_local_versions num_replicas [];
    },
    new_replica_tokens num_replicas 0 [],
  )

  abbrev pub index : NrLog Op → ℕ → ℕ
  index log logical = logical % log.slog_len

  unfoldable pub get_version_upper_bound : NrLog Op → ℕ
  get_version_upper_bound log = log.version_upper_bound

  unfoldable pub is_replica_synced_for_reads : NrLog Op → ℕ → ℕ → Option Bool
  is_replica_synced_for_reads log node_id version_upper_bound = do
    res ← get_elem? (log.local_versions) node_id
    some (leb version_upper_bound res)

abbrev pub is_alive_value : ℕ → Bool
is_alive_value logical = ((logical / log_size) % 2) == 0

abbrev pub eq : Bool → Bool → Bool
eq true b = b
eq false b = not b

module _ (dt : Dispatch) where
  -- What the methods of the log change: the log, and the caller's `actual_replica` and `responses`.
  pub record Run : Type 0 where
    pub log : NrLog (dt.WriteOperation)
    pub actual_replica : dt.View
    pub responses : List (dt.Response)

  -- `execute`, one pass of the loop: the entry at `local_version`, once its alive bit is set.
  unfoldable pub execute_entry : ℕ → ℕ → Run → Option Run
  execute_entry nid local_version run = do
    entry ← (run.log).slog (index (run.log) local_version)
    guard (eq (entry.alive) (is_alive_value local_version))
    e ← entry.log_entry
    let next = dt.dispatch_mut_spec (run.actual_replica) (e.op)
    some (record run {
      actual_replica = next.0;
      responses = if e.node_id == nid then push (run.responses) next.1 else run.responses;
    })

  -- The loop of `execute`, `n` passes before `local_version` is the tail.
  unfoldable pub execute_loop : ℕ → ℕ → ℕ → Run → Option Run
  unfolding execute_entry
  execute_loop nid zero local_version run = some run
  execute_loop nid (suc n) local_version run = do
    next ← execute_entry nid local_version run
    execute_loop nid n (suc local_version) next

  -- `execute`, after the loop: `fetch_max` of the bound and the store of the version.
  unfoldable pub execute_finish : ℕ → ℕ → Run → Run
  execute_finish nid global_tail run = record run {
    log = record (run.log) {
      version_upper_bound =
          if ltb ((run.log).version_upper_bound) global_tail
          then global_tail
          else (run.log).version_upper_bound;
      local_versions = set_at ((run.log).local_versions) nid global_tail;
    };
  }

  unfoldable pub execute : ℕ → Run → Option Run
  unfolding execute_loop execute_finish
  execute nid run = do
    local_version ← get_elem? ((run.log).local_versions) nid
    let global_tail = (run.log).tail
    elim (local_version == global_tail) [
      | true ↦ some run
      | false ↦ do
        done ← execute_loop nid (global_tail - local_version) local_version run
        some (execute_finish nid global_tail done)
    ]
