-- ===== src/CyclicBuffer/Preserve/PointersKept.antt =====
-- spec/cyclicbuffer.rs: the `…_inductive` proofs, of the pointers and the ranges.
use verified_node_replicatio.Prelude.{
  ℕ, suc, Bool, true, none, ltb, leb, ◌&&◌, if◌then◌else◌, ◌≤◌, ◌+◌, ◌<◌, ◌≡◌, some, insert, arith,
}
use verified_node_replicatio.CyclicBuffer
use verified_node_replicatio.CyclicBuffer.{
  State, ReaderState, CombinerState, min, log_entry_idx, log_entry_alive_value,
}
use verified_node_replicatio.CyclicBuffer.Next.{Action, step}
use verified_node_replicatio.CyclicBuffer.Inv.{Pointers}

min-le : (x y : ℕ) → (min x y ≤ x) × (min x y ≤ y)
min-le x y = ground arith

module _ {E : Type 0} where
  pub initialize-Pointers :
      (num_replicas : ℕ) (contents : ℕ → E)
      → Pointers (CyclicBuffer.initialize num_replicas contents)
  unfolding CyclicBuffer.initialize
  initialize-Pointers num_replicas contents = grind arith

  reader_start-Pointers :
      (n : ℕ) (s : State E) {t : State E}
      → Pointers s
      → CyclicBuffer.reader_start n s ≡ some t
      → Pointers t
  unfolding CyclicBuffer.reader_start
  reader_start-Pointers n s inv e = grind arith

  reader_enter-Pointers :
      (n : ℕ) (s : State E) {t : State E}
      → Pointers s
      → CyclicBuffer.reader_enter n s ≡ some t
      → Pointers t
  unfolding CyclicBuffer.reader_enter
  reader_enter-Pointers n s inv e = grind arith

  -- What `reader_guard` found, and the state that it leaves.
  pub reader_guard_lem :
      (n : ℕ) (s : State E) {t : State E}
      → CyclicBuffer.reader_guard n s ≡ some t
      → (start end cur : ℕ) × (val : E) × (s.combiner n
          ≡ some (CombinerState.reading (ReaderState.range start end cur)))
        × (cur < end)
        × (s.contents (cur + s.buffer_size) ≡ some val)
        × (s.alive_bits (log_entry_idx cur (s.buffer_size))
            ≡ some (log_entry_alive_value cur (s.buffer_size)))
        × (t ≡ record s {
          combiner =
              insert (s.combiner) n (CombinerState.reading (ReaderState.guarded start end cur val));
        })
  unfolding CyclicBuffer.reader_guard
  reader_guard_lem n s e = ground arith

  reader_guard-Pointers :
      (n : ℕ) (s : State E) {t : State E}
      → Pointers s
      → CyclicBuffer.reader_guard n s ≡ some t
      → Pointers t
  reader_guard-Pointers n s inv e =
      let (start, end, cur, val, c, lt, v, bit, eq) = reader_guard_lem n s e in rw eq (grind arith)

  reader_unguard-Pointers :
      (n : ℕ) (s : State E) {t : State E}
      → Pointers s
      → CyclicBuffer.reader_unguard n s ≡ some t
      → Pointers t
  unfolding CyclicBuffer.reader_unguard
  reader_unguard-Pointers n s inv e = grind arith

  pub reader_finish_lem :
      (n : ℕ) (s : State E) {t : State E}
      → CyclicBuffer.reader_finish n s ≡ some t
      → (start end w : ℕ) × (s.combiner n
          ≡ some (CombinerState.reading (ReaderState.range start end end)))
        × (s.local_versions n ≡ some w)
        × (t ≡ record s {
          combiner = insert (s.combiner) n CombinerState.idle;
          local_versions = insert (s.local_versions) n end;
        })
  unfolding CyclicBuffer.reader_finish
  reader_finish_lem n s e = ground arith

  reader_finish-Pointers :
      (n : ℕ) (s : State E) {t : State E}
      → Pointers s
      → CyclicBuffer.reader_finish n s ≡ some t
      → Pointers t
  reader_finish-Pointers n s inv e =
      let (start, end, w, c, v, eq) = reader_finish_lem n s e in rw eq (grind arith)

  reader_abort-Pointers :
      (n : ℕ) (s : State E) {t : State E}
      → Pointers s
      → CyclicBuffer.reader_abort n s ≡ some t
      → Pointers t
  unfolding CyclicBuffer.reader_abort
  reader_abort-Pointers n s inv e = grind arith

  advance_head_start-Pointers :
      (n : ℕ) (s : State E) {t : State E}
      → Pointers s
      → CyclicBuffer.advance_head_start n s ≡ some t
      → Pointers t
  unfolding CyclicBuffer.advance_head_start
  advance_head_start-Pointers n s inv e = grind arith

  advance_head_next_lem :
      (n : ℕ) (s : State E) {t : State E}
      → CyclicBuffer.advance_head_next n s ≡ some t
      → (idx m v : ℕ) × (s.combiner n ≡ some (CombinerState.advancing_head idx m))
        × (s.local_versions idx ≡ some v)
        × (idx < s.num_replicas)
        × (t ≡ record s {
          combiner = insert (s.combiner) n (CombinerState.advancing_head (suc idx) (min m v));
        })
  unfolding CyclicBuffer.advance_head_next
  advance_head_next_lem n s e = ground arith

  -- With any bound for the minimum.
  next-Pointers :
      (n : ℕ) (s : State E) {idx m v m' : ℕ}
      → Pointers s
      → s.combiner n ≡ some (CombinerState.advancing_head idx m)
      → s.local_versions idx ≡ some v
      → idx < s.num_replicas
      → m' ≤ m
      → m' ≤ v
      → Pointers (record s {
        combiner = insert (s.combiner) n (CombinerState.advancing_head (suc idx) m');
      })
  next-Pointers n s inv c at lt le le' = grind arith

  advance_head_next-Pointers :
      (n : ℕ) (s : State E) {t : State E}
      → Pointers s
      → CyclicBuffer.advance_head_next n s ≡ some t
      → Pointers t
  advance_head_next-Pointers n s inv e =
      let (idx, m, v, c, at, lt, eq) = advance_head_next_lem n s e in
      rw eq (next-Pointers n s inv c at lt (min-le m v).0 (min-le m v).1)

  advance_head_finish-Pointers :
      (n : ℕ) (s : State E) {t : State E}
      → Pointers s
      → CyclicBuffer.advance_head_finish n s ≡ some t
      → Pointers t
  unfolding CyclicBuffer.advance_head_finish
  advance_head_finish-Pointers n s inv e = grind arith

  advance_head_abort-Pointers :
      (n : ℕ) (s : State E) {t : State E}
      → Pointers s
      → CyclicBuffer.advance_head_abort n s ≡ some t
      → Pointers t
  unfolding CyclicBuffer.advance_head_abort
  advance_head_abort-Pointers n s inv e = grind arith

  advance_tail_start-Pointers :
      (n : ℕ) (s : State E) {t : State E}
      → Pointers s
      → CyclicBuffer.advance_tail_start n s ≡ some t
      → Pointers t
  unfolding CyclicBuffer.advance_tail_start
  advance_tail_start-Pointers n s inv e = grind arith

  advance_tail_abort-Pointers :
      (n : ℕ) (s : State E) {t : State E}
      → Pointers s
      → CyclicBuffer.advance_tail_abort n s ≡ some t
      → Pointers t
  unfolding CyclicBuffer.advance_tail_abort
  advance_tail_abort-Pointers n s inv e = grind arith

  append_finish-Pointers :
      (n : ℕ) (s : State E) {t : State E}
      → Pointers s
      → CyclicBuffer.append_finish n s ≡ some t
      → Pointers t
  unfolding CyclicBuffer.append_finish
  append_finish-Pointers n s inv e = grind arith

  pub advance_tail_finish_lem :
      (n new_tail : ℕ) (s : State E) {t : State E}
      → CyclicBuffer.advance_tail_finish n new_tail s ≡ some t
      → (observed : ℕ) × (s.combiner n ≡ some (CombinerState.advancing_tail observed))
        × (s.tail ≤ new_tail)
        × (new_tail ≤ observed + s.buffer_size)
        × (t ≡ record s {
          combiner = insert (s.combiner) n (CombinerState.appending (s.tail) new_tail);
          tail = new_tail;
          contents = λ i. if leb (s.tail) i && ltb i new_tail then none else s.contents i;
        })
  unfolding CyclicBuffer.advance_tail_finish
  advance_tail_finish_lem n new_tail s e = ground arith

  advance_tail_finish-Pointers :
      (n new_tail : ℕ) (s : State E) {t : State E}
      → Pointers s
      → CyclicBuffer.advance_tail_finish n new_tail s ≡ some t
      → Pointers t
  advance_tail_finish-Pointers n new_tail s inv e =
      let (observed, c, le, near, eq) = advance_tail_finish_lem n new_tail s e in
      rw eq (grind arith)

  pub append_flip_bit_lem :
      (p : E → ℕ → Bool) (n : ℕ) (x : E) (s : State E) {t : State E}
      → CyclicBuffer.append_flip_bit p n x s ≡ some t
      → (cur tail : ℕ) × (s.combiner n ≡ some (CombinerState.appending cur tail))
        × (cur < tail)
        × (p x cur ≡ true)
        × (t ≡ record s {
          combiner = insert (s.combiner) n (CombinerState.appending (suc cur) tail);
          alive_bits =
              insert
                (s.alive_bits)
                (log_entry_idx cur (s.buffer_size))
                (log_entry_alive_value cur (s.buffer_size));
          contents = insert (s.contents) (cur + s.buffer_size) x;
        })
  unfolding CyclicBuffer.append_flip_bit
  append_flip_bit_lem p n x s e = ground arith

  append_flip_bit-Pointers :
      (p : E → ℕ → Bool) (n : ℕ) (x : E) (s : State E) {t : State E}
      → Pointers s
      → CyclicBuffer.append_flip_bit p n x s ≡ some t
      → Pointers t
  append_flip_bit-Pointers p n x s inv e =
      let (cur, tail, c, lt, ok, eq) = append_flip_bit_lem p n x s e in rw eq (grind arith)

  pub step-Pointers :
      (p : E → ℕ → Bool) (a : Action E) (s : State E) {t : State E}
      → Pointers s
      → step p a s ≡ some t
      → Pointers t
  unfolding step
  step-Pointers p (Action.reader_start n) s inv e = reader_start-Pointers n s inv e
  step-Pointers p (Action.reader_enter n) s inv e = reader_enter-Pointers n s inv e
  step-Pointers p (Action.reader_guard n) s inv e = reader_guard-Pointers n s inv e
  step-Pointers p (Action.reader_unguard n) s inv e = reader_unguard-Pointers n s inv e
  step-Pointers p (Action.reader_finish n) s inv e = reader_finish-Pointers n s inv e
  step-Pointers p (Action.reader_abort n) s inv e = reader_abort-Pointers n s inv e
  step-Pointers p (Action.advance_head_start n) s inv e = advance_head_start-Pointers n s inv e
  step-Pointers p (Action.advance_head_next n) s inv e = advance_head_next-Pointers n s inv e
  step-Pointers p (Action.advance_head_finish n) s inv e = advance_head_finish-Pointers n s inv e
  step-Pointers p (Action.advance_head_abort n) s inv e = advance_head_abort-Pointers n s inv e
  step-Pointers p (Action.advance_tail_start n) s inv e = advance_tail_start-Pointers n s inv e
  step-Pointers p (Action.advance_tail_abort n) s inv e = advance_tail_abort-Pointers n s inv e
  step-Pointers p (Action.append_finish n) s inv e = append_finish-Pointers n s inv e
  step-Pointers p (Action.advance_tail_finish n new_tail) s inv e =
      advance_tail_finish-Pointers n new_tail s inv e
  step-Pointers p (Action.append_flip_bit n x) s inv e = append_flip_bit-Pointers p n x s inv e
