-- ===== src/Prelude/Lists.antt =====
-- Sequences: lists measured and indexed by native numbers, under the library's names.
use Prim.Native.Nat.{ℕ, zero, suc, ◌+◌, ◌<◌}
use mathlib.Core.Logic.{◌⊎◌, inl, inr}
use mathlib.Core.Path.{◌≡◌, refl}
use mathlib.Core.List.{List, [], ◌∷◌, ◌++◌, append_assoc}
use mathlib.Core.Option.{Option, none, some}
use native.Mathlib.Omega.{arith}

module _ {ℓ} {A : Type ℓ} where
  abbrev pub length : List A → ℕ
  length [] = 0
  length (x ∷ xs) = suc (length xs)

  abbrev pub get_elem? : List A → ℕ → Option A
  get_elem? [] i = none
  get_elem? (x ∷ xs) zero = some x
  get_elem? (x ∷ xs) (suc i) = get_elem? xs i

  -- `Seq::push`
  abbrev pub push : List A → A → List A
  push xs x = xs ++ (x ∷ [])

  pub push-append : (xs ys : List A) (x : A) → push xs x ++ ys ≡ xs ++ (x ∷ ys)
  push-append xs ys x = append_assoc xs (x ∷ []) ys

  pub length-append : (xs ys : List A) → length (xs ++ ys) ≡ length xs + length ys
  length-append [] ys = omega arith
  length-append (x ∷ xs) ys = omega (arith, length-append xs ys)

  pub length-push : (xs : List A) (x : A) → length (push xs x) ≡ length xs + 1
  length-push [] x = omega arith
  length-push (y ∷ xs) x = omega (arith, length-push xs x)

  pub get_elem?-push_lt :
      (xs : List A) (x : A) (i : ℕ) → i < length xs → get_elem? (push xs x) i ≡ get_elem? xs i
  get_elem?-push_lt [] x i h = elim h [ ]
  get_elem?-push_lt (y ∷ xs) x zero h = refl
  get_elem?-push_lt (y ∷ xs) x (suc i) h = get_elem?-push_lt xs x i (omega arith)

  pub get_elem?-push_self : (xs : List A) (x : A) → get_elem? (push xs x) (length xs) ≡ some x
  get_elem?-push_self [] x = refl
  get_elem?-push_self (y ∷ xs) x = get_elem?-push_self xs x

  pub get_elem?-lt : (xs : List A) (i : ℕ) {a : A} → get_elem? xs i ≡ some a → i < length xs
  get_elem?-lt [] i h = absurd (cc)
  get_elem?-lt (x ∷ xs) zero h = omega arith
  get_elem?-lt (x ∷ xs) (suc i) h = omega (arith, get_elem?-lt xs i h)

  pub get_elem?_total : (xs : List A) (i : ℕ) → i < length xs → (a : A) × (get_elem? xs i ≡ some a)
  get_elem?_total [] i h = elim h [ ]
  get_elem?_total (x ∷ xs) zero h = (x, refl)
  get_elem?_total (x ∷ xs) (suc i) h = get_elem?_total xs i (omega arith)

  -- What stands in a list after a push, stood there before or is new.
  pub get_elem?-push :
      (xs : List A) (x : A) (j : ℕ) {r : A}
      → get_elem? (push xs x) j ≡ some r
      → (get_elem? xs j ≡ some r) ⊎ ((j ≡ length xs) × (r ≡ x))
  get_elem?-push [] x zero e = inr (refl, ground arith)
  get_elem?-push [] x (suc j) e = absurd (cc)
  get_elem?-push (y ∷ xs) x zero e = inl e
  get_elem?-push (y ∷ xs) x (suc j) e = elim (get_elem?-push xs x j e) [
    | inl old ↦ inl old
    | inr new ↦ inr (ground arith, new.1)
  ]
