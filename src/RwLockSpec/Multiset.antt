-- ===== src/RwLockSpec/Multiset.antt =====
-- The operations of `Multiset` that spec/rwlock.rs uses, on lists.
use mathlib.Core.Path.{subst}
use verified_node_replicatio.Prelude.{
  ℕ, zero, suc, ◌+◌, ◌<◌, ◌≡◌, ◌==◌, Option, none, some, List, [], ◌∷◌, get_elem?, if◌then◌else◌,
  ◌>>=◌, Option-cases, inl, inr, arith,
}

-- `Multiset::count`
abbrev pub count : ℕ → List ℕ → ℕ
count r [] = 0
count r (x ∷ xs) = (if x == r then 1 else 0) + count r xs

-- `Multiset::remove`, where the element is present.
abbrev pub erase : ℕ → List ℕ → Option (List ℕ)
erase r [] = none
erase r (x ∷ xs) =
    let rest = erase r xs in if x == r then some xs else (do ys ← rest; some (x ∷ ys))

abbrev pub remove_at {ℓ} : {A : Type ℓ} → ℕ → List A → List A
remove_at i [] = []
remove_at zero (x ∷ xs) = xs
remove_at (suc i) (x ∷ xs) = x ∷ remove_at i xs

module _ {T : Type 0} where
  -- `filter_r(…).len()`: how many of the guards are of the lane `r`.
  abbrev pub filter_r : List (ℕ × T) → ℕ → ℕ
  filter_r [] r = 0
  filter_r (x ∷ xs) r = (if x.0 == r then 1 else 0) + filter_r xs r

  pub filter_r-remove_at :
      (xs : List (ℕ × T)) (i r : ℕ) {x : ℕ × T}
      → get_elem? xs i ≡ some x
      → filter_r xs r ≡ (if x.0 == r then 1 else 0) + filter_r (remove_at i xs) r
  filter_r-remove_at [] i r e = absurd (cc)
  filter_r-remove_at (y ∷ xs) zero r e = ground arith
  filter_r-remove_at (y ∷ xs) (suc i) r e = ground (arith, filter_r-remove_at xs i r e)

  pub filter_r-lt :
      (xs : List (ℕ × T)) (i : ℕ) {x : ℕ × T} → get_elem? xs i ≡ some x → 0 < filter_r xs x.0
  filter_r-lt [] i e = absurd (cc)
  filter_r-lt (y ∷ xs) zero e = ground arith
  filter_r-lt (y ∷ xs) (suc i) e = ground (arith, filter_r-lt xs i e)

  -- What holds of a new guard and of the old ones.
  pub get_elem?-cons :
      {P : ℕ × T → Type 0} (x : ℕ × T) (xs : List (ℕ × T))
      → P x
      → ((i : ℕ) (v : ℕ × T) → get_elem? xs i ≡ some v → P v)
      → (i : ℕ) (v : ℕ × T) → get_elem? (x ∷ xs) i ≡ some v
      → P v
  get_elem?-cons {P} x xs new old zero v e = let same : x ≡ v = ground arith in subst P same new
  get_elem?-cons x xs new old (suc i) v e = old i v e

  -- What is left was there before.
  pub get_elem?-remove_at :
      (xs : List (ℕ × T)) (i j : ℕ) {x : ℕ × T}
      → get_elem? (remove_at i xs) j ≡ some x
      → (k : ℕ) × (get_elem? xs k ≡ some x)
  get_elem?-remove_at [] i j e = absurd (cc)
  get_elem?-remove_at (y ∷ xs) zero j e = (suc j, e)
  get_elem?-remove_at (y ∷ xs) (suc i) zero e = (0, e)
  get_elem?-remove_at (y ∷ xs) (suc i) (suc j) e =
      let (k, f) = get_elem?-remove_at xs i j e in (suc k, f)

pub count-erase :
    (xs : List ℕ) (r k : ℕ) {ys : List ℕ}
    → erase r xs ≡ some ys
    → count k xs ≡ (if r == k then 1 else 0) + count k ys
count-erase [] r k e = absurd (cc)
count-erase (x ∷ xs) r k {ys} e = elim (Option-cases (erase r xs)) [
  | inl gone ↦ ground arith
  | inr (rest, f) ↦ ground (arith, count-erase xs r k f)
]
