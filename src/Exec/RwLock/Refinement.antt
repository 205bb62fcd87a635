-- ===== src/Exec/RwLock/Refinement.antt =====
-- exec/rwlock.rs against spec/rwlock.rs: the relation between the lock with its callers and a state of
-- the specification, as the invariants on the atomics (`RwLock::wf`) and the tokens of the callers give it.
pub mod Moves
pub mod Tokens
pub mod Steps
pub mod Reads
pub mod Writes
pub mod Simulation
use verified_node_replicatio.Prelude.{
  ℕ, ◌+◌, ◌≤◌, ◌<◌, ◌≡◌, ◌≢◌, ◌==◌, Bool, true, false, none, some, Option, get_elem?, length, total,
  arith, if◌then◌else◌,
}
use verified_node_replicatio.RwLockSpec.{State}
use verified_node_replicatio.RwLockSpec.Multiset.{count, filter_r}
use verified_node_replicatio.Exec.RwLock.{
  Point, idle, write_lock, write_wait, write_held, read_load, read_add, read_check, read_undo,
  read_held, panicked, max_rc,
}
use verified_node_replicatio.Exec.RwLock.System.{System}

abbrev pub flag : Bool → ℕ
flag true = 1
flag false = 0

pub flag-le : (b : Bool) → flag b ≤ 1
flag-le true = omega arith
flag-le false = omega arith

module _ {T : Type 0} where
  -- 1 where the caller has the token `shared_pending` of the lane `r`.
  abbrev pub pending_at : ℕ → Point T → ℕ
  pending_at r (read_check tid) = if tid == r then 1 else 0
  pending_at r (read_undo tid) = if tid == r then 1 else 0
  pending_at r _ = 0

  -- 1 where the caller has a `shared_guard` of the lane `r`.
  abbrev pub guard_at : ℕ → Point T → ℕ
  guard_at r (read_held tid) = if tid == r then 1 else 0
  guard_at r _ = 0

  -- 1 where the caller has set the flag.
  abbrev pub writer : Point T → ℕ
  writer (write_wait idx) = 1
  writer (write_held t) = 1
  writer _ = 0

  -- What the caller's local variables and tokens say of a lock of this width with these tokens of the
  -- writer.
  abbrev pub FitsAt : ℕ → Option ℕ → Option (Unit {0}) → Point T → Type 0
  FitsAt width exc_pending exc_guard (write_wait idx) = exc_pending ≡ some idx
  FitsAt width exc_pending exc_guard (write_held t) = exc_guard ≢ none
  FitsAt width exc_pending exc_guard (read_load tid) = tid < width
  FitsAt width exc_pending exc_guard (read_add tid rc) = (tid < width) × (rc < max_rc)
  FitsAt width exc_pending exc_guard (read_check tid) = tid < width
  FitsAt width exc_pending exc_guard (read_undo tid) = tid < width
  FitsAt width exc_pending exc_guard (read_held tid) = tid < width
  FitsAt width exc_pending exc_guard _ = 0 < width

  abbrev pub Fits : State T → Point T → Type 0
  Fits s p = FitsAt (s.rc_width) (s.exc_pending) (s.exc_guard) p

  -- The tokens of the writer are not what a reader stands on.
  pub Fits-reader :
      (s : State T) (exc_pending : Option ℕ) (exc_guard : Option (Unit {0})) (o : Point T)
      → writer o ≤ 0
      → Fits s o
      → FitsAt (s.rc_width) exc_pending exc_guard o
  Fits-reader s a b (write_wait idx) w f = absurd (omega arith)
  Fits-reader s a b (write_held t) w f = absurd (omega arith)
  Fits-reader s a b (read_load tid) w f = f
  Fits-reader s a b (read_add tid rc) w f = f
  Fits-reader s a b (read_check tid) w f = f
  Fits-reader s a b (read_undo tid) w f = f
  Fits-reader s a b (read_held tid) w f = f
  Fits-reader s a b idle w f = f
  Fits-reader s a b write_lock w f = f
  Fits-reader s a b panicked w f = f

  pub record Refines (y : System T) (s : State T) : Type 0 where
    pub user_inv : s.user_inv ≡ (y.lock).user_inv
    pub storage : s.storage ≡ (y.lock).cell
    pub locked : s.exc_locked ≡ (y.lock).exc_locked
    pub width : s.rc_width ≡ length ((y.lock).ref_counts)
    pub counts : (i : ℕ) → s.ref_counts i ≡ get_elem? ((y.lock).ref_counts) i
    pub max : (i n : ℕ) → get_elem? ((y.lock).ref_counts) i ≡ some n → n ≤ max_rc
    pub pending : (r : ℕ) → count r (s.shared_pending) ≡ total (pending_at r) (y.threads)
    pub guards : (r : ℕ) → filter_r (s.shared_guard) r ≡ total (guard_at r) (y.threads)
    pub writers : total writer (y.threads) ≡ flag ((y.lock).exc_locked)
    pub fits : (i : ℕ) (p : Point T) → get_elem? (y.threads) i ≡ some p → Fits s p
