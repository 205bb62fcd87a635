-- ===== src/CyclicBuffer/Preserve/OneCombiner.antt =====
-- spec/cyclicbuffer.rs: the invariants after a transition of one combiner alone.
use mathlib.Core.Path.{subst}
use verified_node_replicatio.Prelude.{ℕ, Bool, ◌≡◌, ◌≢◌, some, insert, sym}
use verified_node_replicatio.CyclicBuffer.{State, CombinerState}
use verified_node_replicatio.CyclicBuffer.Inv.{Inv, Pointers, IsValid, NoOverlapWith}
use verified_node_replicatio.CyclicBuffer.Preserve.CombinersKept.{
  insert-Combiners, IsApart, IsApart-NoOverlapWith,
}

module _ {E : Type 0} (p : E → ℕ → Bool) where
  -- One combiner goes on, and the head may move.
  pub moved-Inv :
      (s : State E) (n head : ℕ) (c : CombinerState E) {t : State E}
      → Inv p s
      → Pointers t
      → t ≡ record s { combiner = insert (s.combiner) n c; head = head }
      → IsValid (s.alive_bits) (s.contents) c
      → ((j : ℕ) (d : CombinerState E)
          → n ≢ j
          → s.combiner j ≡ some d
          → NoOverlapWith c d × NoOverlapWith d c)
      → Inv p t
  moved-Inv s n head c h ptr eq ok apart = subst (Inv p) (sym eq) (record {
    pointers = subst Pointers eq ptr;
    contents = h.contents;
    combiners = insert-Combiners n c h.combiners ok apart;
  })

  pub apart-Inv :
      (s : State E) (n head : ℕ) (c : CombinerState E) {t : State E}
      → Inv p s
      → Pointers t
      → t ≡ record s { combiner = insert (s.combiner) n c; head = head }
      → IsValid (s.alive_bits) (s.contents) c
      → IsApart c
      → Inv p t
  apart-Inv s n head c h ptr eq ok quiet =
      moved-Inv s n head c h ptr eq ok (λ j d ne e. IsApart-NoOverlapWith c d quiet)
