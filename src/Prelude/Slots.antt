-- ===== src/Prelude/Slots.antt =====
-- A slot of a list overwritten in place, and sums over a list.
use Prim.Native.Nat.{ℕ, zero, suc, ◌+◌, ◌≤◌}
use mathlib.Core.Path.{◌≡◌, refl, ap, subst₂}
use mathlib.Core.Bool.{false}
use mathlib.Core.List.{List, [], ◌∷◌}
use mathlib.Core.Option.{some}
use native.Mathlib.Omega.{arith}
use verified_node_replicatio.Prelude.Lists.{length, get_elem?}
use verified_node_replicatio.Prelude.Tests.{◌==◌}

module _ {ℓ} {A : Type ℓ} where
  -- `xs[i] = x`; an index out of range changes nothing.
  abbrev pub set_at : List A → ℕ → A → List A
  set_at [] i x = []
  set_at (y ∷ ys) zero x = x ∷ ys
  set_at (y ∷ ys) (suc i) x = y ∷ set_at ys i x

  abbrev pub replicate : ℕ → A → List A
  replicate zero x = []
  replicate (suc n) x = x ∷ replicate n x

  abbrev pub total : (A → ℕ) → List A → ℕ
  total w [] = 0
  total w (x ∷ xs) = w x + total w xs

  pub length-set_at : (xs : List A) (i : ℕ) (x : A) → length (set_at xs i x) ≡ length xs
  length-set_at [] i x = refl
  length-set_at (y ∷ ys) zero x = refl
  length-set_at (y ∷ ys) (suc i) x = omega (arith, length-set_at ys i x)

  pub get_elem?-set_at_self :
      (xs : List A) (i : ℕ) (x : A) {y : A}
      → get_elem? xs i ≡ some y
      → get_elem? (set_at xs i x) i ≡ some x
  get_elem?-set_at_self [] i x e = absurd (cc)
  get_elem?-set_at_self (y ∷ ys) zero x e = refl
  get_elem?-set_at_self (y ∷ ys) (suc i) x e = get_elem?-set_at_self ys i x e

  pub get_elem?-set_at_ne :
      (xs : List A) (i j : ℕ) (x : A)
      → (i == j) ≡ false
      → get_elem? (set_at xs i x) j ≡ get_elem? xs j
  get_elem?-set_at_ne [] i j x e = refl
  get_elem?-set_at_ne (y ∷ ys) zero zero x e = absurd (cc)
  get_elem?-set_at_ne (y ∷ ys) zero (suc j) x e = refl
  get_elem?-set_at_ne (y ∷ ys) (suc i) zero x e = refl
  get_elem?-set_at_ne (y ∷ ys) (suc i) (suc j) x e = get_elem?-set_at_ne ys i j x (ground arith)

  -- Overwritten and written back.
  pub set_at-undo :
      (xs : List A) (i : ℕ) (v w : A) → get_elem? xs i ≡ some v → set_at (set_at xs i w) i v ≡ xs
  set_at-undo [] i v w e = refl
  set_at-undo (x ∷ xs) zero v w e = ground arith
  set_at-undo (x ∷ xs) (suc i) v w e = ap (◌∷◌ x) (set_at-undo xs i v w e)

  pub set_at_same : (xs : List A) (i : ℕ) (v : A) → get_elem? xs i ≡ some v → set_at xs i v ≡ xs
  set_at_same [] i v e = refl
  set_at_same (x ∷ xs) zero v e = ground arith
  set_at_same (x ∷ xs) (suc i) v e = ap (◌∷◌ x) (set_at_same xs i v e)

  -- What holds of every element after one is overwritten.
  pub set_at-All {κ} :
      {P : ℕ → A → Type κ} (xs : List A) (i : ℕ) (x : A)
      → P i x
      → ((j : ℕ) (y : A) → (i == j) ≡ false → get_elem? xs j ≡ some y → P j y)
      → (j : ℕ) (y : A) → get_elem? (set_at xs i x) j ≡ some y
      → P j y
  set_at-All [] i x new old j y e = absurd (cc)
  set_at-All {P} (z ∷ zs) zero x new old zero y e =
      let same : x ≡ y = ground arith in subst₂ P refl same new
  set_at-All (z ∷ zs) zero x new old (suc j) y e = old (suc j) y (ground arith) e
  set_at-All (z ∷ zs) (suc i) x new old zero y e = old 0 y (ground arith) e
  set_at-All {P} (z ∷ zs) (suc i) x new old (suc j) y e =
      set_at-All {P = λ k. P (suc k)} zs i x new (λ k w d g. old (suc k) w (ground arith) g) j y e

  pub total-set_at :
      (w : A → ℕ) (xs : List A) (i : ℕ) (x : A) {y : A}
      → get_elem? xs i ≡ some y
      → total w (set_at xs i x) + w y ≡ total w xs + w x
  total-set_at w [] i x e = absurd (cc)
  total-set_at w (z ∷ zs) zero x e = ground arith
  total-set_at w (z ∷ zs) (suc i) x e = omega (arith, total-set_at w zs i x e)

  pub le-total :
      (w : A → ℕ) (xs : List A) (i : ℕ) {x : A} → get_elem? xs i ≡ some x → w x ≤ total w xs
  le-total w [] i e = absurd (cc)
  le-total w (z ∷ zs) zero e = ground arith
  le-total w (z ∷ zs) (suc i) e = omega (arith, le-total w zs i e)

  -- Two places count twice.
  pub pair-le-total :
      (w : A → ℕ) (xs : List A) (i j : ℕ) {x y : A}
      → (i == j) ≡ false
      → get_elem? xs i ≡ some x
      → get_elem? xs j ≡ some y
      → w x + w y ≤ total w xs
  pair-le-total w [] i j d e f = absurd (cc)
  pair-le-total w (z ∷ zs) zero zero d e f = absurd (cc)
  pair-le-total w (z ∷ zs) zero (suc j) d e f = ground (arith, le-total w zs j f)
  pair-le-total w (z ∷ zs) (suc i) zero d e f = ground (arith, le-total w zs i e)
  pair-le-total w (z ∷ zs) (suc i) (suc j) {x} {y} d e f =
      let rest : w x + w y ≤ total w zs = pair-le-total w zs i j (ground arith) e f in omega arith
