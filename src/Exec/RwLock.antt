-- ===== src/Exec/RwLock.antt =====
-- exec/rwlock.rs: the lock as it runs. `cell` is its `data`, `none` where it is empty, and each function is
-- one atomic operation of a method with the code up to the next one. It returns the lock and the point
-- in the code where the caller then stands, or `none` where it indexes out of range, takes from an empty
-- cell or puts into a full one.
pub mod System
pub mod Refinement
pub mod Start
pub mod Safety
pub mod Runs
use verified_node_replicatio.Prelude.{
  ℕ, zero, suc, ◌==◌, Bool, true, false, Option, none, some, List, [], ◌∷◌, get_elem?, length,
  set_at, push, if◌then◌else◌, ltb, ◌>>=◌,
}
use verified_node_replicatio.Exec.Constants.{wrapping_add, wrapping_sub}

abbrev pub max_rc : ℕ
max_rc = 0xffff_ffff_ffff_fff0

pub record RwLock (T : Type 0) : Type 0 where
  pub cell : Option T
  pub exc_locked : Bool
  pub ref_counts : List ℕ
  pub user_inv : T → Bool

-- Where a caller stands in the code of the lock; the `_held` points are outside of it, with a guard.
pub data Point (T : Type 0) : Type 0 where
  idle : Point T
  write_lock : Point T
  write_wait : (idx : ℕ) → Point T
  write_held : (t : T) → Point T
  read_load : (tid : ℕ) → Point T
  read_add : (tid : ℕ) → (rc : ℕ) → Point T
  read_check : (tid : ℕ) → Point T
  read_undo : (tid : ℕ) → Point T
  read_held : (tid : ℕ) → Point T
  panicked : Point T

-- The `while` loop of `new`, `n` passes before the end.
unfoldable pub new_loop : ℕ → List ℕ → List ℕ
new_loop zero v = v
new_loop (suc n) v = new_loop n (push v 0)

module _ {T : Type 0} where
  unfoldable pub new : ℕ → T → (T → Bool) → RwLock T
  unfolding new_loop
  new rc_width t inv = record {
    cell = some t;
    exc_locked = false;
    ref_counts = new_loop rc_width [];
    user_inv = inv;
  }

  -- `acquire_write`, the compare-exchange.
  unfoldable pub acquire_write_lock : RwLock T → Option (RwLock T × Point T)
  acquire_write_lock l =
      if l.exc_locked
      then some (l, write_lock)
      else some (record l { exc_locked = true }, write_wait 0)

  -- `acquire_write`, the load of a count.
  unfoldable pub acquire_write_count : ℕ → RwLock T → Option (RwLock T × Point T)
  acquire_write_count idx l = do
    result ← get_elem? (l.ref_counts) idx
    some (l, if result == 0 then write_wait (suc idx) else write_wait idx)

  -- `acquire_write`, after the loop.
  unfoldable pub acquire_write_take : RwLock T → Option (RwLock T × Point T)
  acquire_write_take l = do t ← l.cell; some (record l { cell = none }, write_held t)

  -- The loop of `acquire_write` over the counts.
  unfoldable pub acquire_write_wait : ℕ → RwLock T → Option (RwLock T × Point T)
  unfolding acquire_write_count acquire_write_take
  acquire_write_wait idx l =
      if ltb idx (length (l.ref_counts)) then acquire_write_count idx l else acquire_write_take l

  -- `acquire_read`, the load of the count, and the panic.
  unfoldable pub acquire_read_load : ℕ → RwLock T → Option (RwLock T × Point T)
  acquire_read_load tid l = do
    rc ← get_elem? (l.ref_counts) tid
    some (l, if rc == max_rc then panicked else read_add tid rc)

  -- `acquire_read`, the compare-exchange.
  unfoldable pub acquire_read_add : ℕ → ℕ → RwLock T → Option (RwLock T × Point T)
  acquire_read_add tid rc l = do
    prev ← get_elem? (l.ref_counts) tid
    some (
        if prev == rc
        then (
          record l { ref_counts = set_at (l.ref_counts) tid (wrapping_add rc 1) },
          read_check tid,
        )
        else (l, read_load tid))

  -- `acquire_read`, the load of the flag.
  unfoldable pub acquire_read_check : ℕ → RwLock T → Option (RwLock T × Point T)
  acquire_read_check tid l = some (l, if l.exc_locked then read_undo tid else read_held tid)

  -- `acquire_read`, the subtraction where a writer has the lock.
  unfoldable pub acquire_read_undo : ℕ → RwLock T → Option (RwLock T × Point T)
  acquire_read_undo tid l = do
    prev ← get_elem? (l.ref_counts) tid
    some (record l { ref_counts = set_at (l.ref_counts) tid (wrapping_sub prev 1) }, read_load tid)

  unfoldable pub borrow : RwLock T → Option T
  borrow l = l.cell

  -- The value is put back, and the flag is cleared: until then no other caller takes the value.
  unfoldable pub release_write : T → RwLock T → Option (RwLock T × Point T)
  release_write val l = elim l.cell [
    | none ↦ some (record l { cell = some val; exc_locked = false }, idle)
    | some t ↦ none
  ]

  unfoldable pub release_read : ℕ → RwLock T → Option (RwLock T × Point T)
  release_read tid l = do
    prev ← get_elem? (l.ref_counts) tid
    some (record l { ref_counts = set_at (l.ref_counts) tid (wrapping_sub prev 1) }, idle)
