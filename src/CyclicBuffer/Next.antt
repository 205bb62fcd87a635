-- ===== src/CyclicBuffer/Next.antt =====
-- spec/cyclicbuffer.rs, `CyclicBuffer::State::next`.
use verified_node_replicatio.Prelude.{ℕ, Bool, ◌≡◌, Option, some}
use verified_node_replicatio.CyclicBuffer
use verified_node_replicatio.CyclicBuffer.{State}

-- The transitions with their arguments (`CyclicBuffer::Step`).
pub data Action (E : Type 0) : Type 0 where
  reader_start : (node_id : ℕ) → Action E
  reader_enter : (node_id : ℕ) → Action E
  reader_guard : (node_id : ℕ) → Action E
  reader_unguard : (node_id : ℕ) → Action E
  reader_finish : (node_id : ℕ) → Action E
  reader_abort : (node_id : ℕ) → Action E
  advance_head_start : (node_id : ℕ) → Action E
  advance_head_next : (node_id : ℕ) → Action E
  advance_head_finish : (node_id : ℕ) → Action E
  advance_head_abort : (node_id : ℕ) → Action E
  advance_tail_start : (node_id : ℕ) → Action E
  advance_tail_finish : (node_id new_tail : ℕ) → Action E
  advance_tail_abort : (node_id : ℕ) → Action E
  append_flip_bit : (node_id : ℕ) (deposited : E) → Action E
  append_finish : (node_id : ℕ) → Action E

module _ {E : Type 0} (stored_type_inv : E → ℕ → Bool) where
  unfoldable pub step : Action E → State E → Option (State E)
  step (Action.reader_start n) s = CyclicBuffer.reader_start n s
  step (Action.reader_enter n) s = CyclicBuffer.reader_enter n s
  step (Action.reader_guard n) s = CyclicBuffer.reader_guard n s
  step (Action.reader_unguard n) s = CyclicBuffer.reader_unguard n s
  step (Action.reader_finish n) s = CyclicBuffer.reader_finish n s
  step (Action.reader_abort n) s = CyclicBuffer.reader_abort n s
  step (Action.advance_head_start n) s = CyclicBuffer.advance_head_start n s
  step (Action.advance_head_next n) s = CyclicBuffer.advance_head_next n s
  step (Action.advance_head_finish n) s = CyclicBuffer.advance_head_finish n s
  step (Action.advance_head_abort n) s = CyclicBuffer.advance_head_abort n s
  step (Action.advance_tail_start n) s = CyclicBuffer.advance_tail_start n s
  step (Action.advance_tail_finish n new_tail) s = CyclicBuffer.advance_tail_finish n new_tail s
  step (Action.advance_tail_abort n) s = CyclicBuffer.advance_tail_abort n s
  step (Action.append_flip_bit n deposited) s =
      CyclicBuffer.append_flip_bit stored_type_inv n deposited s
  step (Action.append_finish n) s = CyclicBuffer.append_finish n s

  -- The states that the buffer reaches from an initial one.
  pub data Reachable : State E → Type 0 where
    inited :
        (num_replicas : ℕ) (contents : ℕ → E)
        → Reachable (CyclicBuffer.initialize num_replicas contents)
    stepped : {s t : State E} (a : Action E) → Reachable s → step a s ≡ some t → Reachable t
