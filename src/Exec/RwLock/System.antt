-- ===== src/Exec/RwLock/System.antt =====
-- exec/rwlock.rs: callers that share the lock. A step is one atomic operation of one of them.
use verified_node_replicatio.Prelude.{
  ℕ, ◌<◌, ◌≡◌, ◌≢◌, refl, inl, inr, arith, Bool-cases, true, Option, some, List, get_elem?, length,
  set_at, replicate, ltb, guard, none, ◌>>=◌, ◌>>◌, Bool,
}
use verified_node_replicatio.Exec.RwLock
use verified_node_replicatio.Exec.RwLock.{
  RwLock, Point, idle, write_lock, write_wait, write_held, read_load, read_add, read_check,
  read_undo, read_held, panicked,
}

pub record System (T : Type 0) : Type 0 where
  pub lock : RwLock T
  pub threads : List (Point T)

-- What a caller does: call a method, run its next atomic operation, or give up its guard. A method is
-- called as it requires: with a lane of the lock, and with a value that has the user's invariant.
pub data Action (T : Type 0) : Type 0 where
  acquire_write : Action T
  acquire_read : (tid : ℕ) → Action T
  run : Action T
  release_write : (val : T) → Action T
  release_read : Action T

module _ {T : Type 0} where
  -- The next atomic operation at a point; outside of the methods, and after the panic, there is none.
  unfoldable pub run_point : Point T → RwLock T → Option (RwLock T × Point T)
  run_point idle l = some (l, idle)
  run_point write_lock l = RwLock.acquire_write_lock l
  run_point (write_wait idx) l = RwLock.acquire_write_wait idx l
  run_point (write_held t) l = some (l, write_held t)
  run_point (read_load tid) l = RwLock.acquire_read_load tid l
  run_point (read_add tid rc) l = RwLock.acquire_read_add tid rc l
  run_point (read_check tid) l = RwLock.acquire_read_check tid l
  run_point (read_undo tid) l = RwLock.acquire_read_undo tid l
  run_point (read_held tid) l = some (l, read_held tid)
  run_point panicked l = some (l, panicked)

  unfoldable pub act : Action T → Point T → RwLock T → Option (RwLock T × Point T)
  unfolding run_point
  act Action.acquire_write idle l = some (l, write_lock)
  act (Action.acquire_read tid) idle l = do
    guard (ltb tid (length (l.ref_counts)))
    some (l, read_load tid)
  act Action.run p l = run_point p l
  act (Action.release_write val) (write_held t) l = do
    guard (l.user_inv val)
    RwLock.release_write val l
  act Action.release_read (read_held tid) l = RwLock.release_read tid l
  act _ _ l = none

  -- What a caller may do at a point: any operation of its own code, a call with a lane of the lock, and the
  -- release of the guard that it holds, of a write guard with a value that has the user's invariant.
  abbrev pub Allowed : Action T → Point T → RwLock T → Type 0
  Allowed Action.run p l = Unit {0}
  Allowed Action.acquire_write idle l = Unit {0}
  Allowed (Action.acquire_read tid) idle l = tid < length (l.ref_counts)
  Allowed (Action.release_write val) (write_held t) l = l.user_inv val ≡ true
  Allowed Action.release_read (read_held tid) l = Unit {0}
  Allowed _ _ l = ⊥

  -- An action that has a result is allowed.
  pub act-Allowed : (a : Action T) (p : Point T) (l : RwLock T) → act a p l ≢ none → Allowed a p l
  unfolding act
  act-Allowed Action.run p l e = tt
  act-Allowed Action.acquire_write idle l e = tt
  act-Allowed (Action.acquire_read tid) idle l e =
      elim (Bool-cases (ltb tid (length (l.ref_counts)))) [
        | inl lane ↦ ground arith
        | inr out ↦ absurd (e (rw out refl))
      ]
  act-Allowed (Action.release_write val) (write_held t) l e = elim (Bool-cases (l.user_inv val)) [
    | inl valid ↦ valid
    | inr bad ↦ absurd (e (rw bad refl))
  ]
  act-Allowed Action.release_read (read_held tid) l e = tt
  act-Allowed a p l e = absurd (e refl)

  unfoldable pub step : ℕ → Action T → System T → Option (System T)
  unfolding act
  step i a y = do
    p ← get_elem? (y.threads) i
    r ← act a p (y.lock)
    some (record { lock = r.0; threads = set_at (y.threads) i r.1 })

  -- `n` idle callers of a new lock.
  unfoldable pub start : ℕ → ℕ → T → (T → Bool) → System T
  start n rc_width t inv = record { lock = RwLock.new rc_width t inv; threads = replicate n idle }

  -- The systems that are reached from a new lock with at least one lane.
  pub data Reachable : System T → Type 0 where
    started :
        (n rc_width : ℕ) (t : T) (inv : T → Bool)
        → ltb 0 rc_width ≡ Bool.true
        → inv t ≡ Bool.true
        → Reachable (start n rc_width t inv)
    stepped :
        {y z : System T} (i : ℕ) (a : Action T) → Reachable y → step i a y ≡ some z → Reachable z
