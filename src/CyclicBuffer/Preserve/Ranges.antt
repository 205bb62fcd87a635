-- ===== src/CyclicBuffer/Preserve/Ranges.antt =====
-- spec/cyclicbuffer.rs: where the combiners are, and what they do not overlap.
use verified_node_replicatio.Prelude.{ℕ, Bool, ◌≤◌, ◌<◌, ◌≡◌, inl, inr, some, Map, present, arith}
use native.Mathlib.Decide.{dec_lt}
use verified_node_replicatio.CyclicBuffer.{State, ReaderState, CombinerState}
use verified_node_replicatio.CyclicBuffer.Inv.{Pointers, IsValid, NoOverlapWith, Covers, Alive}

module _ {E : Type 0} where
  -- Where a combiner is, is at or above its version, and below the tail.
  pub covered :
      (s : State E)
      → Pointers s
      → (n : ℕ) (c : CombinerState E) (i : ℕ) → s.combiner n ≡ some c
      → Covers c i
      → (v : ℕ) × (s.local_versions n ≡ some v) × (v ≤ i) × (i < s.tail)
  covered s h n c i e here =
      let (v, at) = present (s.local_versions n) (h.has_version n c e) in
      let bounds = covered_at s h n c i v e at here in (v, at, bounds.0, bounds.1)
    where
      covered_at :
          (s : State E)
          → Pointers s
          → (n : ℕ) (c : CombinerState E) (i v : ℕ) → s.combiner n ≡ some c
          → s.local_versions n ≡ some v
          → Covers c i
          → (v ≤ i) × (i < s.tail)
      covered_at s h n (CombinerState.reading (ReaderState.range start end cur)) i v e at here = (
        omega (arith, h.range_at n start end cur v e at, here.0),
        omega (arith, h.range_order n start end cur e, here.1),
      )
      covered_at s h n (CombinerState.reading (ReaderState.guarded start end cur val)) i v e at
            here =
          (
            omega (arith, h.guarded_at n start end cur v val e at, here.0),
            omega (arith, h.guarded_order n start end cur val e, here.1),
          )
      covered_at s h n (CombinerState.appending cur tail) i v e at here = (
        omega (arith, h.appending_from n cur tail v e at, here.0),
        omega (arith, h.appending_order n cur tail e, here.1),
      )
      covered_at s h n (CombinerState.reading (ReaderState.starting start)) i v e at here =
          elim here [ ]
      covered_at s h n CombinerState.idle i v e at here = elim here [ ]
      covered_at s h n (CombinerState.advancing_head idx m) i v e at here = elim here [ ]
      covered_at s h n (CombinerState.advancing_tail o) i v e at here = elim here [ ]

  -- What is alive is in no range that is to be written.
  pub guard-NoOverlapWith :
      (bits : Map Bool) (contents : Map E) (start end cur : ℕ) (val : E) (d : CombinerState E)
      → Alive bits cur
      → IsValid bits contents d
      → NoOverlapWith d (CombinerState.reading (ReaderState.guarded start end cur val))
  guard-NoOverlapWith bits contents start end cur val (CombinerState.appending from to) alive ok =
      elim (dec_lt cur from) [
        | yes before ↦ inl before
        | no above ↦ elim (dec_lt cur to) [
          | yes inside ↦ absurd (ok cur (omega arith, inside) alive)
          | no after ↦ inr (omega arith)
        ]
      ]
  guard-NoOverlapWith bits contents start end cur val _ alive ok = tt

  -- What is appended from the tail on is above what the others do.
  pub appended-NoOverlapWith :
      (s : State E)
      → Pointers s
      → (j : ℕ) (d : CombinerState E) (new_tail : ℕ) → s.combiner j ≡ some d
      → NoOverlapWith (CombinerState.appending (s.tail) new_tail) d
        × NoOverlapWith d (CombinerState.appending (s.tail) new_tail)
  appended-NoOverlapWith s h j (CombinerState.reading (ReaderState.guarded start end cur val))
        new_tail e =
      (inl (omega (arith, h.guarded_order j start end cur val e)), tt)
  appended-NoOverlapWith s h j (CombinerState.appending cur tail) new_tail e = (
    inl (omega (arith, h.appending_order j cur tail e)),
    inr (omega (arith, h.appending_order j cur tail e)),
  )
  appended-NoOverlapWith s h j (CombinerState.reading (ReaderState.range start end cur)) new_tail
        e =
      (tt, tt)
  appended-NoOverlapWith s h j (CombinerState.reading (ReaderState.starting start)) new_tail e =
      (tt, tt)
  appended-NoOverlapWith s h j CombinerState.idle new_tail e = (tt, tt)
  appended-NoOverlapWith s h j (CombinerState.advancing_head idx m) new_tail e = (tt, tt)
  appended-NoOverlapWith s h j (CombinerState.advancing_tail o) new_tail e = (tt, tt)
