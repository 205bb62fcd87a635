-- ===== src/Exec/Log/Append.antt =====
-- exec/log.rs, `NrLog::append`, on fuel: a pass of the loop takes one. The weak compare-exchange on the
-- tail may fail for no reason; `succeeds n` says whether it goes through with `n` passes of fuel left.
pub mod Entries
pub mod Room
use verified_node_replicatio.Prelude.{
  ℕ, zero, suc, ◌+◌, ◌-◌, Bool, true, false, Option, none, some, List, [], ◌∷◌, length, ltb, leb,
  insert, ◌>>=◌,
}
use verified_node_replicatio.Dispatch.{Dispatch}
use verified_node_replicatio.Exec.Constants.{wrapping_add, gc_from_head, max_idx}
use verified_node_replicatio.Exec.Log.{Run, NrLog, LogEntry, index, is_alive_value, execute}
use verified_node_replicatio.Exec.Log.AdvanceHead.{advance_head}

-- The warning about the tail is followed by a loop that does not end.
pub data Outcome (R : Type 0) : Type 0 where
  returned : R → Outcome R
  tail_too_big : Outcome R

module _ {Op : Type 0} where
  -- The cell and the alive bit of one entry.
  unfoldable pub write_entry : ℕ → ℕ → Op → NrLog Op → Option (NrLog Op)
  write_entry nid logical_log_idx op log = do
    entry ← log.slog (index log logical_log_idx)
    some (record log {
      slog = insert (log.slog) (index log logical_log_idx) (record {
        log_entry = some (record { op = op; node_id = nid });
        alive = is_alive_value logical_log_idx;
      });
    })

  -- The loop over the operations.
  unfoldable pub write_entries : ℕ → ℕ → List Op → NrLog Op → Option (NrLog Op)
  unfolding write_entry
  write_entries nid logical_log_idx [] log = some log
  write_entries nid logical_log_idx (op ∷ operations) log = do
    next ← write_entry nid logical_log_idx op log
    write_entries nid (suc logical_log_idx) operations next

module _ {dt : Dispatch} where
  abbrev pub returns : Option (Run dt) → Option (Outcome (Run dt))
  returns none = none
  returns (some run) = some (returned run)

  -- After the compare-exchange on the tail.
  unfoldable pub append_finish :
      Bool → ℕ → ℕ → List (dt.WriteOperation) → Run dt → Option (Outcome (Run dt))
  unfolding write_entries
  append_finish advance fuel nid operations run = do
    let new_tail = wrapping_add ((run.log).tail) (length operations)
    log ← write_entries nid ((run.log).tail) operations (record (run.log) { tail = new_tail })
    elim advance [
      | true ↦ returns (advance_head fuel nid (record run { log = log }))
      | false ↦ some (returned (record run { log = log }))
    ]

  unfoldable pub append :
      (ℕ → Bool) → ℕ → ℕ → List (dt.WriteOperation) → Run dt → Option (Outcome (Run dt))
  unfolding append_finish
  append succeeds zero nid operations run = none
  append succeeds (suc fuel) nid operations run =
      let limit = wrapping_add ((run.log).head) ((run.log).slog_len - gc_from_head) in
      let new_tail = wrapping_add ((run.log).tail) (length operations) in
      elim (ltb limit ((run.log).tail)) [
        | true ↦ execute dt nid run >>= append succeeds fuel nid operations
        | false ↦ elim (leb max_idx new_tail) [
          | true ↦ some tail_too_big
          | false ↦ elim (succeeds fuel) [
            | false ↦ append succeeds fuel nid operations run
            | true ↦ append_finish (ltb limit new_tail) fuel nid operations run
          ]
        ]
      ]
