-- ===== src/Exec/RwLock/Start.antt =====
-- exec/rwlock.rs: a new lock with idle callers against an initial state of the specification.
use mathlib.Core.Path.{subst}
use verified_node_replicatio.Prelude.{
  ℕ, zero, suc, ◌+◌, ◌≡◌, Bool, true, false, none, some, List, [], ◌∷◌, refl, sym, inl, inr,
  get_elem?, length, length-push, push, replicate, total, Bool-cases, ltb, arith, get_elem?_total,
  if◌then◌else◌,
}
use verified_node_replicatio.RwLockSpec
use verified_node_replicatio.RwLockSpec.{State}
use verified_node_replicatio.Exec.RwLock
use verified_node_replicatio.Exec.RwLock.{
  RwLock, Point, idle, write_held, read_load, read_held, panicked, max_rc, new_loop,
}
use verified_node_replicatio.Exec.RwLock.System.{start}
use verified_node_replicatio.Exec.RwLock.Refinement.{Refines, guard_at, pending_at, writer, FitsAt}

-- The loop of `new` counts what it pushes, and pushes zeros.
length-new_loop : (n : ℕ) (v : List ℕ) → length (new_loop n v) ≡ n + length v
unfolding new_loop
length-new_loop zero v = omega arith
length-new_loop (suc n) v = omega (arith, length-new_loop n (push v 0), length-push v 0)

pub zeros_loop :
    (n : ℕ) (v : List ℕ)
    → ((i k : ℕ) → get_elem? v i ≡ some k → k ≡ 0)
    → (i k : ℕ) → get_elem? (new_loop n v) i ≡ some k
    → k ≡ 0
unfolding new_loop
zeros_loop zero v h i k e = h i k e
zeros_loop (suc n) v h i k e = zeros_loop n (push v 0) (zeros_push v h) i k e
  where
    zeros_push :
        (v : List ℕ)
        → ((i k : ℕ) → get_elem? v i ≡ some k → k ≡ 0)
        → (i k : ℕ) → get_elem? (push v 0) i ≡ some k
        → k ≡ 0
    zeros_push [] h zero k e = ground arith
    zeros_push [] h (suc i) k e = absurd (cc)
    zeros_push (x ∷ xs) h zero k e = h 0 k e
    zeros_push (x ∷ xs) h (suc i) k e = zeros_push xs (λ j. h (suc j)) i k e

out_of_range :
    {A : Type 0} (xs : List A) (i : ℕ) → ltb i (length xs) ≡ false → get_elem? xs i ≡ none
out_of_range [] i h = refl
out_of_range (x ∷ xs) zero h = absurd (ground arith)
out_of_range (x ∷ xs) (suc i) h = out_of_range xs i (ground arith)

module _ {T : Type 0} where
  total_idle : (w : Point T → ℕ) (n : ℕ) → w idle ≡ 0 → total w (replicate n idle) ≡ 0
  total_idle w zero e = refl
  total_idle w (suc n) e = omega (arith, e, total_idle w n e)

  idle_at : (n i : ℕ) (p : Point T) → get_elem? (replicate n idle) i ≡ some p → p ≡ idle
  idle_at zero i p e = absurd (cc)
  idle_at (suc n) zero p e = ground arith
  idle_at (suc n) (suc i) p e = idle_at n i p e

  pub start-Refines :
      (n rc_width : ℕ) (t : T) (inv : T → Bool)
      → ltb 0 rc_width ≡ true
      → inv t ≡ true
      → (s : State T) × (RwLockSpec.initialize rc_width t inv ≡ some s)
        × Refines (start n rc_width t inv) s
  unfolding RwLockSpec.initialize start RwLock.new
  start-Refines n rc_width t inv pos ok =
      let counts : List ℕ = new_loop rc_width [] in
      let len : length counts ≡ rc_width = omega (arith, length-new_loop rc_width []) in
      let zeros : (i k : ℕ) → get_elem? counts i ≡ some k → k ≡ 0 =
        zeros_loop rc_width [] (λ i k e. absurd (cc)) in
      (
        record {
          user_inv = inv;
          rc_width = rc_width;
          storage = some t;
          exc_locked = false;
          ref_counts = λ i. if ltb i rc_width then some 0 else none;
          exc_pending = none;
          exc_guard = none;
          shared_pending = [];
          shared_guard = [];
        },
        rw (pos, ok) refl,
        record {
          user_inv = refl;
          storage = refl;
          locked = refl;
          width = sym len;
          counts = λ i. elim (Bool-cases (ltb i rc_width)) [
            | inl below ↦
                let (k, e) = get_elem?_total counts i (ground (arith, len)) in
                ground (arith, zeros i k e)
            | inr above ↦ rw above (sym (out_of_range counts i (ground (arith, len))))
          ];
          max = λ i k e. omega (arith, zeros i k e);
          pending = λ r. sym (total_idle (pending_at r) n refl);
          guards = λ r. sym (total_idle (guard_at r) n refl);
          writers = total_idle writer n refl;
          fits = λ i p e. subst (FitsAt rc_width none none) (sym (idle_at n i p e)) (ground arith);
        },
      )
