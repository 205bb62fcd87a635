-- ===== src/Exec/RwLock/Refinement/Steps.antt =====
-- Each atomic operation of the lock against the transition in its ghost code.
use verified_node_replicatio.Prelude.{◌≡◌, ◌⊎◌, ℕ, Option, some, refl, arith}
use verified_node_replicatio.RwLockSpec.{State}
use verified_node_replicatio.RwLockSpec.Next
use verified_node_replicatio.Exec.RwLock.{RwLock, Point}
use verified_node_replicatio.Exec.RwLock.System.{System}
use verified_node_replicatio.Exec.RwLock.Refinement.{pending_at, guard_at, writer, Fits, Refines}
use verified_node_replicatio.Exec.RwLock.Refinement.Moves.{Moves}

module _ {T : Type 0} where
  -- The specification stays or takes a step.
  abbrev pub Simulates : State T → State T → Type 0
  Simulates s s' = (s' ≡ s) ⊎ ((a : Next.Action T) × (Next.step a s ≡ some s'))

  -- The operation has a result, and the specification follows it.
  abbrev pub Matched : RwLock T → State T → Point T → Option (RwLock T × Point T) → Type 0
  Matched k s p r =
      (l : RwLock T) × (q : Point T) × (s' : State T) × (r ≡ some (l, q))
      × Simulates s s'
      × Moves k s p q l s'

  -- A caller that goes on without a change of the lock.
  pub stays :
      {y : System T} {s : State T} {p q : Point T}
      → Refines y s
      → ((r : ℕ) → pending_at r p ≡ pending_at r q)
      → ((r : ℕ) → guard_at r p ≡ guard_at r q)
      → writer p ≡ writer q
      → Fits s q
      → Moves (y.lock) s p q (y.lock) s
  stays h pe gu wr fi = record {
    user_inv = h.user_inv;
    storage = h.storage;
    locked = h.locked;
    width = h.width;
    same_width = refl;
    counts = h.counts;
    max = h.max;
    pending = λ r. omega (arith, pe r);
    guards = λ r. omega (arith, gu r);
    writers = omega (arith, wr);
    fits = fi;
    others = λ o _ f. f;
  }
