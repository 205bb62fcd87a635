-- ===== src/Exec/Log/Represents.antt =====
-- exec/log.rs: the cyclic buffer against the list of all the entries that were ever appended.
use verified_node_replicatio.Prelude.{
  ℕ, zero, suc, ◌+◌, ◌%◌, ◌≤◌, ◌<◌, ◌≡◌, ◌≢◌, none, some, List, [], ◌∷◌, get_elem?, length, refl,
  arith, ◌==◌, if◌then◌else◌,
}
use verified_node_replicatio.Dispatch.{Dispatch}
use verified_node_replicatio.Exec.Constants.{log_size, max_idx}
use verified_node_replicatio.Exec.Log.{NrLog, LogEntry, is_alive_value}

-- The buffer holds the entries from the head on, each with the alive bit of its round; the versions of
-- the replicas are between the head and the tail.
pub record Represents {Op : Type 0} (log : NrLog Op) (entries : List (LogEntry Op)) : Type 0 where
  pub len : log.slog_len ≡ log_size
  pub tail : log.tail ≡ length entries
  pub stored :
      (i : ℕ) (e : LogEntry Op)
      → get_elem? entries i ≡ some e
      → log.head ≤ i
      → log.slog (i % log_size) ≡ some (record { log_entry = some e; alive = is_alive_value i })
  pub cells : (i : ℕ) → i < log_size → log.slog i ≢ none
  pub order : log.head ≤ log.tail
  pub room : log.tail ≤ log.head + log_size
  pub head_le : (n v : ℕ) → get_elem? (log.local_versions) n ≡ some v → log.head ≤ v
  pub version_le : (n v : ℕ) → get_elem? (log.local_versions) n ≡ some v → v ≤ log.tail
  pub upper_ge : (n v : ℕ) → get_elem? (log.local_versions) n ≡ some v → v ≤ log.version_upper_bound
  pub upper_le : log.version_upper_bound ≤ log.tail
  pub tail_lt : log.tail < max_idx

abbrev pub drop {ℓ} : {A : Type ℓ} → ℕ → List A → List A
drop zero xs = xs
drop (suc n) [] = []
drop (suc n) (x ∷ xs) = drop n xs

pub drop-get_elem? :
    {A : Type 0} (xs : List A) (n : ℕ) {x : A}
    → get_elem? xs n ≡ some x
    → drop n xs ≡ x ∷ drop (suc n) xs
drop-get_elem? [] n e = absurd (cc)
drop-get_elem? (y ∷ ys) zero e = ground arith
drop-get_elem? (y ∷ ys) (suc n) e = drop-get_elem? ys n e

pub drop-all : {A : Type 0} (xs : List A) (n : ℕ) → n ≡ length xs → drop n xs ≡ []
drop-all [] zero e = refl
drop-all [] (suc n) e = refl
drop-all (x ∷ xs) zero e = absurd (omega arith)
drop-all (x ∷ xs) (suc n) e = drop-all xs n (omega arith)

-- The entries applied one after the other, and the responses to those of the replica `nid`.
module _ (dt : Dispatch) where
  abbrev pub replay : dt.View → List (LogEntry (dt.WriteOperation)) → dt.View
  replay v [] = v
  replay v (e ∷ entries) = replay (dt.dispatch_mut_spec v (e.op)).0 entries

  abbrev pub answers : ℕ → dt.View → List (LogEntry (dt.WriteOperation)) → List (dt.Response)
  answers nid v [] = []
  answers nid v (e ∷ entries) =
      let next = dt.dispatch_mut_spec v (e.op) in
      let rest = answers nid next.0 entries in if e.node_id == nid then next.1 ∷ rest else rest
