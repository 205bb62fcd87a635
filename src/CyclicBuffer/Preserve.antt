-- ===== src/CyclicBuffer/Preserve.antt =====
-- spec/cyclicbuffer.rs: the `…_inductive` proofs, for each transition and for all.
pub mod Moves
pub mod PointersKept
pub mod ContentsKept
pub mod CombinersKept
pub mod Ranges
pub mod OneCombiner
pub mod Readers
pub mod Writers
use mathlib.Core.Path.{subst}
use verified_node_replicatio.Prelude.{
  ℕ, suc, Bool, true, none, ◌+◌, ◌-◌, ◌≤◌, ◌<◌, ◌≡◌, ◌≢◌, ◌⊎◌, inl, inr, some, Map, insert, present,
  refl, sym, ap, ◌∙◌, arith,
}
use native.Mathlib.Decide.{dec_lt}
use verified_node_replicatio.CyclicBuffer
use verified_node_replicatio.CyclicBuffer.{
  State, ReaderState, CombinerState, min, log_size, log_entry_idx, log_entry_alive_value,
}
use verified_node_replicatio.CyclicBuffer.Bits.{set_alive}
use verified_node_replicatio.CyclicBuffer.Next.{Action, step}
use verified_node_replicatio.CyclicBuffer.Inv.{
  Inv, Pointers, Combiners, Contents, IsValid, NoOverlapWith, Covers, Alive,
}
use verified_node_replicatio.CyclicBuffer.Preserve.Moves
use verified_node_replicatio.CyclicBuffer.Preserve.PointersKept.{
  initialize-Pointers, step-Pointers, reader_guard_lem, reader_finish_lem, advance_tail_finish_lem,
  append_flip_bit_lem,
}
use verified_node_replicatio.CyclicBuffer.Preserve.ContentsKept.{
  initialize-Contents, reader_finish-Contents, advance_tail_finish-Contents,
  append_flip_bit-Contents,
}
use verified_node_replicatio.CyclicBuffer.Preserve.CombinersKept.{
  initialize-Combiners, insert-Combiners, apart-Combiners, withdraw-Combiners, set_alive-Combiners,
  IsApart, IsApart-NoOverlapWith,
}
use verified_node_replicatio.CyclicBuffer.Preserve.Readers.{
  reader_start-Inv, reader_enter-Inv, reader_guard-Inv, reader_unguard-Inv, reader_finish-Inv,
  reader_abort-Inv,
}
use verified_node_replicatio.CyclicBuffer.Preserve.Writers.{
  advance_head_start-Inv, advance_head_next-Inv, advance_head_finish-Inv, advance_head_abort-Inv,
  advance_tail_start-Inv, advance_tail_finish-Inv, advance_tail_abort-Inv, append_flip_bit-Inv,
  append_finish-Inv,
}

module _ {E : Type 0} (p : E → ℕ → Bool) where
  pub initialize-Inv :
      (num_replicas : ℕ) (contents : ℕ → E) → Inv p (CyclicBuffer.initialize num_replicas contents)
  unfolding CyclicBuffer.initialize
  initialize-Inv num_replicas contents = record {
    pointers = initialize-Pointers num_replicas contents;
    contents = initialize-Contents p num_replicas contents;
    combiners = initialize-Combiners num_replicas contents;
  }

  step_cases :
      (a : Action E) (s : State E) {t : State E}
      → Inv p s
      → Pointers t
      → step p a s ≡ some t
      → Inv p t
  unfolding step
  step_cases (Action.reader_start n) s h ptr e = reader_start-Inv p n s h ptr e
  step_cases (Action.reader_enter n) s h ptr e = reader_enter-Inv p n s h ptr e
  step_cases (Action.reader_guard n) s h ptr e = reader_guard-Inv p n s h ptr e
  step_cases (Action.reader_unguard n) s h ptr e = reader_unguard-Inv p n s h ptr e
  step_cases (Action.reader_finish n) s h ptr e = reader_finish-Inv p n s h ptr e
  step_cases (Action.reader_abort n) s h ptr e = reader_abort-Inv p n s h ptr e
  step_cases (Action.advance_head_start n) s h ptr e = advance_head_start-Inv p n s h ptr e
  step_cases (Action.advance_head_next n) s h ptr e = advance_head_next-Inv p n s h ptr e
  step_cases (Action.advance_head_finish n) s h ptr e = advance_head_finish-Inv p n s h ptr e
  step_cases (Action.advance_head_abort n) s h ptr e = advance_head_abort-Inv p n s h ptr e
  step_cases (Action.advance_tail_start n) s h ptr e = advance_tail_start-Inv p n s h ptr e
  step_cases (Action.advance_tail_abort n) s h ptr e = advance_tail_abort-Inv p n s h ptr e
  step_cases (Action.append_finish n) s h ptr e = append_finish-Inv p n s h ptr e
  step_cases (Action.advance_tail_finish n new_tail) s h ptr e =
      advance_tail_finish-Inv p n new_tail s h ptr e
  step_cases (Action.append_flip_bit n x) s h ptr e = append_flip_bit-Inv p n x s h ptr e

  -- Every transition of the buffer keeps the invariants of the pointers and ranges, of the alive bits and the
  -- contents, and of what the combiners have read and have yet to write.
  pub buffer_step-Inv :
      (a : Action E) (s : State E) {t : State E} → Inv p s → step p a s ≡ some t → Inv p t
  buffer_step-Inv a s h e = step_cases a s h (step-Pointers p a s h.pointers e) e
