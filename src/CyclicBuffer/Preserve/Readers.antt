-- ===== src/CyclicBuffer/Preserve/Readers.antt =====
-- spec/cyclicbuffer.rs: the transitions of a reader.
use mathlib.Core.Path.{subst}
use verified_node_replicatio.Prelude.{ℕ, suc, Bool, none, ◌+◌, ◌≡◌, ◌≢◌, some, sym, ap, ◌∙◌, arith}
use native.Mathlib.Decide.{dec_lt}
use verified_node_replicatio.CyclicBuffer
use verified_node_replicatio.CyclicBuffer.{
  State, ReaderState, CombinerState, min, log_size, log_entry_idx, log_entry_alive_value,
}
use verified_node_replicatio.CyclicBuffer.Inv.{Inv, Pointers, Alive}
use verified_node_replicatio.CyclicBuffer.Preserve.Moves
use verified_node_replicatio.CyclicBuffer.Preserve.PointersKept.{
  reader_guard_lem, reader_finish_lem,
}
use verified_node_replicatio.CyclicBuffer.Preserve.ContentsKept.{reader_finish-Contents}
use verified_node_replicatio.CyclicBuffer.Preserve.CombinersKept.{apart-Combiners}
use verified_node_replicatio.CyclicBuffer.Preserve.Ranges.{guard-NoOverlapWith}
use verified_node_replicatio.CyclicBuffer.Preserve.OneCombiner.{moved-Inv, apart-Inv}

module _ {E : Type 0} (p : E → ℕ → Bool) where
  pub reader_start-Inv :
      (n : ℕ) (s : State E) {t : State E}
      → Inv p s
      → Pointers t
      → CyclicBuffer.reader_start n s ≡ some t
      → Inv p t
  reader_start-Inv n s h ptr e =
      let (start, at, eq) = Moves.reader_start_lem n s e in
      apart-Inv p s n (s.head) (CombinerState.reading (ReaderState.starting start)) h ptr eq tt tt

  pub reader_enter-Inv :
      (n : ℕ) (s : State E) {t : State E}
      → Inv p s
      → Pointers t
      → CyclicBuffer.reader_enter n s ≡ some t
      → Inv p t
  reader_enter-Inv n s h ptr e =
      let (start, c, eq) = Moves.reader_enter_lem n s e in
      apart-Inv p s n (s.head) (CombinerState.reading (ReaderState.range start (s.tail) start)) h
        ptr eq (λ i here. absurd (omega (arith, here.0, here.1))) tt

  pub reader_unguard-Inv :
      (n : ℕ) (s : State E) {t : State E}
      → Inv p s
      → Pointers t
      → CyclicBuffer.reader_unguard n s ≡ some t
      → Inv p t
  reader_unguard-Inv n s h ptr e =
      let (start, end, cur, val, c, eq) = Moves.reader_unguard_lem n s e in
      apart-Inv p s n (s.head) (CombinerState.reading (ReaderState.range start end (suc cur))) h ptr
        eq (h.combiners.valid n (CombinerState.reading (ReaderState.guarded start end cur val)) c).1
        tt

  pub reader_abort-Inv :
      (n : ℕ) (s : State E) {t : State E}
      → Inv p s
      → Pointers t
      → CyclicBuffer.reader_abort n s ≡ some t
      → Inv p t
  reader_abort-Inv n s h ptr e =
      apart-Inv p s n (s.head) CombinerState.idle h ptr (Moves.reader_abort_lem n s e) tt tt

  pub reader_guard-Inv :
      (n : ℕ) (s : State E) {t : State E}
      → Inv p s
      → Pointers t
      → CyclicBuffer.reader_guard n s ≡ some t
      → Inv p t
  reader_guard-Inv n s h ptr e =
      let (start, end, cur, val, c, lt, value, bit, eq) = reader_guard_lem n s e in
      let alive : Alive (s.alive_bits) cur = rw (← h.pointers.size) bit in
      let there : s.contents (cur + log_size) ≡ some val = rw (← h.pointers.size) value in
      let read = h.combiners.valid n (CombinerState.reading (ReaderState.range start end cur)) c in
      moved-Inv p s n (s.head) (CombinerState.reading (ReaderState.guarded start end cur val)) h ptr
        eq
        (
          omega (arith, h.pointers.range_order n start end cur c),
          λ i here. elim (dec_lt i cur) [
            | yes before ↦ read i (here.0, before)
            | no after ↦
                let same : cur ≡ i = omega (arith, here.1) in
                subst (λ j. Alive (s.alive_bits) j × (s.contents (j + log_size) ≢ none)) same
                  (alive, λ gone. cc (there, gone))
          ],
          there,
        )
        (λ j d ne at. (
          tt,
          guard-NoOverlapWith (s.alive_bits) (s.contents) start end cur val d alive
              (h.combiners.valid j d at),
        ))

  pub reader_finish-Inv :
      (n : ℕ) (s : State E) {t : State E}
      → Inv p s
      → Pointers t
      → CyclicBuffer.reader_finish n s ≡ some t
      → Inv p t
  reader_finish-Inv n s h ptr e =
      let (start, end, w, c, at, eq) = reader_finish_lem n s e in
      let same = h.pointers.range_at n start end end w c at in
      let read = h.combiners.valid n (CombinerState.reading (ReaderState.range start end end)) c in
      subst (Inv p) (sym eq) (record {
        pointers = subst Pointers eq ptr;
        contents =
            reader_finish-Contents p n start end h.contents (at ∙ ap some (sym same))
              (omega (arith, h.pointers.range_order n start end end c))
              (λ i lo hi. read i (lo, hi));
        combiners = apart-Combiners n CombinerState.idle h.combiners tt tt;
      })
