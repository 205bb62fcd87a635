-- ===== src/CyclicBuffer/Preserve/Moves.antt =====
-- spec/cyclicbuffer.rs: what a transition of one combiner found, and the state that it leaves.
use verified_node_replicatio.Prelude.{ℕ, suc, ◌≡◌, some, insert, arith}
use verified_node_replicatio.CyclicBuffer
use verified_node_replicatio.CyclicBuffer.{State, ReaderState, CombinerState, min}

module _ {E : Type 0} (n : ℕ) (s : State E) where
  abbrev pub with_combiner : CombinerState E → State E
  with_combiner c = record s { combiner = insert (s.combiner) n c }

  pub reader_start_lem :
      {t : State E}
      → CyclicBuffer.reader_start n s ≡ some t
      → (start : ℕ) × (s.local_versions n ≡ some start)
        × (t ≡ with_combiner (CombinerState.reading (ReaderState.starting start)))
  unfolding CyclicBuffer.reader_start
  reader_start_lem e = ground arith

  pub reader_enter_lem :
      {t : State E}
      → CyclicBuffer.reader_enter n s ≡ some t
      → (start : ℕ) × (s.combiner n ≡ some (CombinerState.reading (ReaderState.starting start)))
        × (t ≡ with_combiner (CombinerState.reading (ReaderState.range start (s.tail) start)))
  unfolding CyclicBuffer.reader_enter
  reader_enter_lem e = ground arith

  pub reader_unguard_lem :
      {t : State E}
      → CyclicBuffer.reader_unguard n s ≡ some t
      → (start end cur : ℕ) × (val : E) × (s.combiner n
          ≡ some (CombinerState.reading (ReaderState.guarded start end cur val)))
        × (t ≡ with_combiner (CombinerState.reading (ReaderState.range start end (suc cur))))
  unfolding CyclicBuffer.reader_unguard
  reader_unguard_lem e = ground arith

  pub reader_abort_lem :
      {t : State E} → CyclicBuffer.reader_abort n s ≡ some t → t ≡ with_combiner CombinerState.idle
  unfolding CyclicBuffer.reader_abort
  reader_abort_lem e = ground arith

  pub advance_head_start_lem :
      {t : State E}
      → CyclicBuffer.advance_head_start n s ≡ some t
      → (m : ℕ) × (s.local_versions 0 ≡ some m)
        × (t ≡ with_combiner (CombinerState.advancing_head 1 m))
  unfolding CyclicBuffer.advance_head_start
  advance_head_start_lem e = ground arith

  pub advance_head_next_lem :
      {t : State E}
      → CyclicBuffer.advance_head_next n s ≡ some t
      → (idx m v : ℕ) × (s.combiner n ≡ some (CombinerState.advancing_head idx m))
        × (s.local_versions idx ≡ some v)
        × (t ≡ with_combiner (CombinerState.advancing_head (suc idx) (min m v)))
  unfolding CyclicBuffer.advance_head_next
  advance_head_next_lem e = ground arith

  pub advance_head_finish_lem :
      {t : State E}
      → CyclicBuffer.advance_head_finish n s ≡ some t
      → (idx m : ℕ) × (s.combiner n ≡ some (CombinerState.advancing_head idx m))
        × (t ≡ record s { combiner = insert (s.combiner) n CombinerState.idle; head = m })
  unfolding CyclicBuffer.advance_head_finish
  advance_head_finish_lem e = ground arith

  pub advance_head_abort_lem :
      {t : State E}
      → CyclicBuffer.advance_head_abort n s ≡ some t
      → t ≡ with_combiner CombinerState.idle
  unfolding CyclicBuffer.advance_head_abort
  advance_head_abort_lem e = ground arith

  pub advance_tail_start_lem :
      {t : State E}
      → CyclicBuffer.advance_tail_start n s ≡ some t
      → t ≡ with_combiner (CombinerState.advancing_tail (s.head))
  unfolding CyclicBuffer.advance_tail_start
  advance_tail_start_lem e = ground arith

  pub advance_tail_abort_lem :
      {t : State E}
      → CyclicBuffer.advance_tail_abort n s ≡ some t
      → t ≡ with_combiner CombinerState.idle
  unfolding CyclicBuffer.advance_tail_abort
  advance_tail_abort_lem e = ground arith

  pub append_finish_lem :
      {t : State E} → CyclicBuffer.append_finish n s ≡ some t → t ≡ with_combiner CombinerState.idle
  unfolding CyclicBuffer.append_finish
  append_finish_lem e = ground arith
