-- ===== src/Exec/RwLock/Runs.antt =====
-- exec/rwlock.rs: a caller that runs alone.
use verified_node_replicatio.Prelude.{
  ℕ, zero, suc, ◌+◌, ◌<◌, ◌≡◌, ◌==◌, true, false, Option, none, some, refl, get_elem?,
  get_elem?_total, get_elem?-set_at_self, length, set_at, set_at-undo, ltb, ◌>>=◌, arith,
}
use verified_node_replicatio.Exec.Constants.{wrapping_add, wrapping_sub}
use verified_node_replicatio.Exec.RwLock
use verified_node_replicatio.Exec.RwLock.{
  RwLock, Point, idle, write_lock, write_wait, write_held, read_load, read_held, max_rc,
}
use verified_node_replicatio.Exec.RwLock.System.{run_point}

module _ {T : Type 0} where
  -- `n` atomic operations of one caller, with no other in between.
  unfoldable pub run_alone : ℕ → Point T → RwLock T → Option (RwLock T × Point T)
  unfolding run_point
  run_alone zero p l = some (l, p)
  run_alone (suc n) p l = do r ← run_point p l; run_alone n r.1 r.0

  -- The scan of the counts, where they are all zero, and the take.
  wait_alone :
      (n idx : ℕ) (l : RwLock T) {t : T}
      → idx + n ≡ length (l.ref_counts)
      → ((i rc : ℕ) → get_elem? (l.ref_counts) i ≡ some rc → rc ≡ 0)
      → l.cell ≡ some t
      → run_alone (suc n) (write_wait idx) l ≡ some (record l { cell = none }, write_held t)
  unfolding run_alone RwLock.acquire_write_wait
  wait_alone zero idx l e zeros c =
      let done : ltb idx (length (l.ref_counts)) ≡ false = ground arith in rw (done, c) refl
  wait_alone (suc n) idx l e zeros c =
      let more : ltb idx (length (l.ref_counts)) ≡ true = ground arith in
      let (rc, g) = get_elem?_total (l.ref_counts) idx (ground arith) in
      let free : (rc == 0) ≡ true = ground (arith, zeros idx rc g) in
      rw (more, g, free) (wait_alone n (suc idx) l (omega arith) zeros c)

  -- `acquire_write` on a free lock returns the value after one operation for each lane and two more: it
  -- leaves the cell empty and the flag set.
  pub acquire_write-terminates :
      (l : RwLock T) {t : T}
      → l.exc_locked ≡ false
      → ((i rc : ℕ) → get_elem? (l.ref_counts) i ≡ some rc → rc ≡ 0)
      → l.cell ≡ some t
      → run_alone (suc (suc (length (l.ref_counts)))) write_lock l
        ≡ some (record l { cell = none; exc_locked = true }, write_held t)
  unfolding run_alone RwLock.acquire_write_lock
  acquire_write-terminates l free zeros c =
      rw free (
        wait_alone (length (l.ref_counts)) 0 (record l { exc_locked = true }) (omega arith) zeros c)

  -- `acquire_read` on a lock without a writer, with the count of the lane below `MAX_RC`, has the guard
  -- after three operations, with the value in its cell, and `release_read` then gives back the lock as it was.
  pub acquire_read-release_read :
      (l : RwLock T) {tid rc : ℕ}
      → l.exc_locked ≡ false
      → get_elem? (l.ref_counts) tid ≡ some rc
      → rc < max_rc
      → (held : RwLock T) × (run_alone 3 (read_load tid) l ≡ some (held, read_held tid))
        × (held.cell ≡ l.cell)
        × (RwLock.release_read tid held ≡ some (l, idle))
  unfolding run_alone RwLock.acquire_read_load RwLock.acquire_read_add RwLock.acquire_read_check
      RwLock.release_read
  acquire_read-release_read l {tid} {rc} free e room =
      let below : (rc == max_rc) ≡ false = ground arith in
      let same : (rc == rc) ≡ true = ground arith in
      let sum : wrapping_add rc 1 ≡ suc rc = omega arith in
      let diff : wrapping_sub (suc rc) 1 ≡ rc = omega arith in
      (
        record l { ref_counts = set_at (l.ref_counts) tid (suc rc) },
        rw (e, below, e, same, free, sum) refl,
        refl,
        rw
            (
              get_elem?-set_at_self (l.ref_counts) tid (suc rc) e,
              diff,
              set_at-undo (l.ref_counts) tid rc (suc rc) e,
            )
            refl,
      )
