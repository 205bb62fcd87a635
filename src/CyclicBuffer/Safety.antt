-- ===== src/CyclicBuffer/Safety.antt =====
-- spec/cyclicbuffer.rs: what the pointers guarantee to the replicas that read and append.
use verified_node_replicatio.Prelude.{
  ℕ, Bool, true, ◌+◌, ◌≤◌, ◌<◌, ◌≡◌, ◌≢◌, some, present, inl, inr, arith,
}
use native.Mathlib.Decide.{dec_lt}
use verified_node_replicatio.CyclicBuffer.{
  State, CombinerState, ReaderState, log_size, log_entry_idx,
}
use verified_node_replicatio.CyclicBuffer.Next.{Reachable, inited, stepped}
use verified_node_replicatio.CyclicBuffer.Index.{log_entry_idx-wrap_around}
use verified_node_replicatio.CyclicBuffer.Inv.{Inv}
use verified_node_replicatio.CyclicBuffer.Preserve.{initialize-Inv, buffer_step-Inv}

module _ {E : Type 0} {stored_type_inv : E → ℕ → Bool} where
  -- Every reachable state has the invariants.
  pub Reachable-Inv : {s : State E} → Reachable stored_type_inv s → Inv stored_type_inv s
  Reachable-Inv (inited num_replicas contents) =
      initialize-Inv stored_type_inv num_replicas contents
  Reachable-Inv (stepped {s} a r e) = buffer_step-Inv stored_type_inv a s (Reachable-Inv r) e

  -- In a reachable state the head is at or below the version of each replica, the version at or below
  -- the tail, and the tail at most `log_size` entries above the version.
  pub no_overrun :
      {s : State E} {n v : ℕ}
      → Reachable stored_type_inv s
      → s.local_versions n ≡ some v
      → (s.head ≤ v) × (v ≤ s.tail) × (s.tail ≤ v + log_size)
  no_overrun {n} {v} r e =
      let inv = (Reachable-Inv r).pointers in
      (inv.head_le n v e, inv.version_le n v e, ground (arith, inv.tail_le n v e, inv.size))

  -- In a reachable state the value that a reader guards is the one that the contents have at its entry, and it
  -- has `stored_type_inv` there.
  pub guard_guards :
      {s : State E} {n start end cur : ℕ} {val : E}
      → Reachable stored_type_inv s
      → s.combiner n ≡ some (CombinerState.reading (ReaderState.guarded start end cur val))
      → (s.contents (cur + log_size) ≡ some val) × (stored_type_inv val cur ≡ true)
  guard_guards {n = n} {start} {end} {cur} {val} r e =
      let inv = Reachable-Inv r in
      let valid =
        inv.combiners.valid n (CombinerState.reading (ReaderState.guarded start end cur val)) e in
      (valid.2, inv.contents.stored cur val valid.2)

  -- In a reachable state, where an appender is about to write its next entry, the physical slot of
  -- this entry is that of no other entry from the version of any replica up to the tail.
  pub append_slot-free :
      {s : State E} {n m cur tail v k : ℕ}
      → Reachable stored_type_inv s
      → s.combiner n ≡ some (CombinerState.appending cur tail)
      → cur < tail
      → s.local_versions m ≡ some v
      → v ≤ k
      → k < s.tail
      → k ≢ cur
      → log_entry_idx k log_size ≢ log_entry_idx cur log_size
  append_slot-free {s} {n} {m} {cur} {tail} {v} {k} r c lt e lo hi ne =
      let inv = (Reachable-Inv r).pointers in
      let (w, f) =
        present (s.local_versions n) (inv.has_version n (CombinerState.appending cur tail) c) in
      let from = inv.appending_from n cur tail w c f in
      let order = inv.appending_order n cur tail c in
      let mine : s.tail ≤ w + log_size = (no_overrun r f).2 in
      let its : s.tail ≤ v + log_size = (no_overrun r e).2 in
      elim (dec_lt v w) [
        | yes below ↦
            log_entry_idx-wrap_around v k cur lo (omega arith) (omega arith) (omega arith) ne
        | no above ↦
            log_entry_idx-wrap_around w k cur (omega arith) (omega arith) from (omega arith) ne
      ]

  -- In a reachable state the entries that two combiners of different nodes have yet to append have
  -- different physical slots.
  pub appenders-apart :
      {s : State E} {n m cur tail cur' tail' i j : ℕ}
      → Reachable stored_type_inv s
      → n ≢ m
      → s.combiner n ≡ some (CombinerState.appending cur tail)
      → s.combiner m ≡ some (CombinerState.appending cur' tail')
      → cur ≤ i
      → i < tail
      → cur' ≤ j
      → j < tail'
      → log_entry_idx i log_size ≢ log_entry_idx j log_size
  appenders-apart {s} {n} {m} {cur} {tail} {cur'} {tail'} {i} {j} r ne c d a b a' b' =
      let inv = (Reachable-Inv r).pointers in
      let (v, f) =
        present (s.local_versions n) (inv.has_version n (CombinerState.appending cur tail) c) in
      let (w, g) =
        present (s.local_versions m) (inv.has_version m (CombinerState.appending cur' tail') d) in
      let from = inv.appending_from n cur tail v c f in
      let from' = inv.appending_from m cur' tail' w d g in
      let order = inv.appending_order n cur tail c in
      let order' = inv.appending_order m cur' tail' d in
      let mine : s.tail ≤ v + log_size = (no_overrun r f).2 in
      let its : s.tail ≤ w + log_size = (no_overrun r g).2 in
      let apart : i ≢ j = (λ same. elim (inv.appending_apart n m cur tail cur' tail' ne c d) [
        | inl before ↦ omega arith
        | inr after ↦ omega arith
      ]) in
      elim (dec_lt v w) [
        | yes below ↦
            log_entry_idx-wrap_around v i j (omega arith) (omega arith) (omega arith) (omega arith)
              apart
        | no above ↦
            log_entry_idx-wrap_around w i j (omega arith) (omega arith) (omega arith) (omega arith)
              apart
      ]
