-- ===== src/Prelude/Maps.antt =====
-- `Map<nat, V>` as a function into `Option`: a key that is absent has `none`.
use Prim.Native.Nat.{ℕ}
use mathlib.Core.Path.{◌≡◌, subst₂}
use mathlib.Core.Bool.{false}
use mathlib.Core.Logic.{◌≢◌, inl, inr}
use mathlib.Core.Option.{Option, none, some}
use native.Mathlib.Omega.{arith}
use verified_node_replicatio.Prelude.Tests.{◌==◌, ==_iff, Bool-cases, if◌then◌else◌}

abbrev pub Map {ℓ} : Type ℓ → Type ℓ
Map V = ℕ → Option V

module _ {ℓ} {V : Type ℓ} where
  abbrev pub empty : Map V
  empty k = none

  abbrev pub insert : Map V → ℕ → V → Map V
  insert m k v j = if k == j then some v else m j

  abbrev pub remove : Map V → ℕ → Map V
  remove m k j = if k == j then none else m j

  pub insert_self : (m : Map V) (k : ℕ) (v : V) → insert m k v k ≡ some v
  insert_self m k v = ground arith

  pub insert_ne : (m : Map V) (k j : ℕ) (v : V) → k ≢ j → insert m k v j ≡ m j
  insert_ne m k j v h = ground arith

  -- What holds of every entry after an `insert`.
  pub insert-All :
      {P : ℕ → V → Type 0} (m : Map V) (k : ℕ) (v : V)
      → P k v
      → ((j : ℕ) (w : V) → (k == j) ≡ false → m j ≡ some w → P j w)
      → (j : ℕ) (w : V) → insert m k v j ≡ some w
      → P j w
  insert-All {P} m k v new old j w e = elim (Bool-cases (k == j)) [
    | inl here ↦ let same : v ≡ w = ground arith in subst₂ P ((==_iff k j).0 here) same new
    | inr other ↦ old j w other (rw other at e)
  ]

  -- What holds of every entry after a `remove`.
  pub remove-All :
      {P : ℕ → V → Type 0} (m : Map V) (k : ℕ)
      → ((j : ℕ) (w : V) → (k == j) ≡ false → m j ≡ some w → P j w)
      → (j : ℕ) (w : V) → remove m k j ≡ some w
      → P j w
  remove-All m k old j w e = elim (Bool-cases (k == j)) [
    | inl here ↦ absurd (cc (rw here at e))
    | inr other ↦ old j w other (rw other at e)
  ]
