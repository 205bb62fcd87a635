-- ===== src/Tests/RwLock.antt =====
-- The theorems of the running lock on a value of ℕ, with one lane and two callers.
use verified_node_replicatio.Prelude.{
  ℕ, ◌+◌, ◌≤◌, ◌≡◌, ◌≢◌, true, false, some, [], ◌∷◌, refl, total, arith,
}
use verified_node_replicatio.Exec.RwLock
use verified_node_replicatio.Exec.RwLock.{
  RwLock, Point, idle, write_lock, write_held, read_load, read_add, read_held, panicked, max_rc,
}
use verified_node_replicatio.Exec.RwLock.Refinement.{Refines, pending_at, guard_at}
use verified_node_replicatio.Exec.RwLock.Refinement.Simulation.{step-Refines}
use verified_node_replicatio.Exec.RwLock.Refinement.Steps.{Simulates}
use verified_node_replicatio.Exec.RwLock.Runs.{run_alone, acquire_read-release_read}
use verified_node_replicatio.Exec.RwLock.Safety.{
  Reachable-Refines, Allowed-enabled, write_held-alone, read_held-borrow, ref_counts-bounded,
}
use verified_node_replicatio.Exec.RwLock.System.{
  System, Action, step, start, Reachable, started, stepped,
}
use verified_node_replicatio.RwLockSpec.{State}
use verified_node_replicatio.RwLockSpec.Safety.{Reachable-Inv}
use verified_node_replicatio.Tests.Counter.{get_or}
use verified_node_replicatio.Tests.Lock.{below_ten}

abbrev fresh : System ℕ
fresh = start 2 1 4 below_ten

fresh-Reachable : Reachable fresh
fresh-Reachable = started 2 1 4 below_ten refl refl

abbrev go : ℕ → Action ℕ → System ℕ → System ℕ
go i a y = get_or y (step i a y)

abbrev called : System ℕ
called = go 0 (Action.acquire_read 0) fresh

called-Reachable : Reachable called
unfolding step start RwLock.new
called-Reachable = stepped 0 (Action.acquire_read 0) fresh-Reachable refl

abbrev loaded : System ℕ
loaded = go 0 Action.run called

loaded-Reachable : Reachable loaded
unfolding step start RwLock.new RwLock.acquire_read_load
loaded-Reachable = stepped 0 Action.run called-Reachable refl

abbrev added : System ℕ
added = go 0 Action.run loaded

added-Reachable : Reachable added
unfolding step start RwLock.new RwLock.acquire_read_load RwLock.acquire_read_add
added-Reachable = stepped 0 Action.run loaded-Reachable refl

abbrev reading : System ℕ
reading = go 0 Action.run added

reading-Reachable : Reachable reading
unfolding step start RwLock.new RwLock.acquire_read_load RwLock.acquire_read_add
    RwLock.acquire_read_check
reading-Reachable = stepped 0 Action.run added-Reachable refl

step-Refines_example :
    (s' : State ℕ) × Simulates (Reachable-Refines called-Reachable).0 s' × Refines loaded s'
unfolding step start RwLock.new RwLock.acquire_read_load
step-Refines_example =
    step-Refines 0 Action.run (Reachable-Refines called-Reachable).2
      (Reachable-Inv (Reachable-Refines called-Reachable).1) refl

read_held-borrow_example :
    (x : ℕ) × (RwLock.borrow (reading.lock) ≡ some x) × ((reading.lock).user_inv x ≡ true)
unfolding step start RwLock.new RwLock.acquire_read_load RwLock.acquire_read_add
    RwLock.acquire_read_check
read_held-borrow_example = read_held-borrow 0 reading-Reachable refl

ref_counts-bounded_example :
    ◌≡◌ {A = ℕ} 1 (total (pending_at 0) (reading.threads) + total (guard_at 0) (reading.threads))
    × ◌≤◌ 1 max_rc
unfolding step start RwLock.new RwLock.acquire_read_load RwLock.acquire_read_add
    RwLock.acquire_read_check
ref_counts-bounded_example = ref_counts-bounded 0 1 reading-Reachable refl

abbrev locking : System ℕ
locking = go 0 Action.acquire_write fresh

abbrev locked : System ℕ
locked = go 0 Action.run locking

abbrev counted : System ℕ
counted = go 0 Action.run locked

abbrev writing : System ℕ
writing = go 0 Action.run counted

writing-Reachable : Reachable writing
unfolding step start RwLock.new RwLock.acquire_write_lock RwLock.acquire_write_wait
writing-Reachable =
    stepped 0 Action.run
      (stepped 0 Action.run
        (stepped 0 Action.run (stepped 0 Action.acquire_write fresh-Reachable refl) refl) refl)
      refl

Allowed-enabled_example : (z : System ℕ) × (step 0 (Action.release_write 7) writing ≡ some z)
unfolding step start RwLock.new RwLock.acquire_write_lock RwLock.acquire_write_wait
Allowed-enabled_example =
    Allowed-enabled 0 (Action.release_write 7) {p = write_held 4} writing-Reachable refl refl

write_held-alone_example :
    ((u : ℕ) → idle ≢ write_held u) × ((tid : ℕ) → ◌≢◌ {A = Point ℕ} idle (read_held tid))
unfolding step start RwLock.new RwLock.acquire_write_lock RwLock.acquire_write_wait
write_held-alone_example =
    write_held-alone {y = writing} 0 1 {t = 4} {p = idle} writing-Reachable refl refl (λ e. cc)

abbrev free : RwLock ℕ
free = record { cell = some 4; exc_locked = false; ref_counts = 0 ∷ 0 ∷ []; user_inv = below_ten }

acquire_read-release_read_example :
    (held : RwLock ℕ) × (run_alone 3 (read_load 1) free ≡ some (held, read_held 1))
    × (held.cell ≡ free.cell)
    × (RwLock.release_read 1 held ≡ some (free, idle))
acquire_read-release_read_example = acquire_read-release_read free refl refl (omega arith)
