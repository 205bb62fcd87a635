-- ===== src/Exec/RwLock/Refinement/Tokens.antt =====
-- The tokens of the readers in the specification: a token that is counted is there.
use verified_node_replicatio.Prelude.{
  ℕ, suc, ◌<◌, ◌≡◌, ◌==◌, some, List, [], ◌∷◌, get_elem?, inl, inr, Bool-cases, ==_iff, arith,
}
use verified_node_replicatio.RwLockSpec.Multiset.{count, erase, filter_r}

pub erase_total : (xs : List ℕ) (r : ℕ) → 0 < count r xs → (ys : List ℕ) × (erase r xs ≡ some ys)
erase_total [] r h = absurd (omega arith)
erase_total (x ∷ xs) r h = elim (Bool-cases (x == r)) [
  | inl here ↦ (xs, ground arith)
  | inr other ↦ let (ys, e) = erase_total xs r (ground arith) in (x ∷ ys, ground arith)
]

pub guard_of_lane :
    {T : Type 0} (xs : List (ℕ × T)) (r : ℕ)
    → 0 < filter_r xs r
    → (i : ℕ) × (t : T) × (get_elem? xs i ≡ some (r, t))
guard_of_lane [] r h = absurd (omega arith)
guard_of_lane (x ∷ xs) r h = elim (Bool-cases (x.0 == r)) [
  | inl here ↦ (0, x.1, cc ((==_iff x.0 r).0 here))
  | inr other ↦ let (i, t, e) = guard_of_lane xs r (ground arith) in (suc i, t, e)
]
