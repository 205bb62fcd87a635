-- ===== src/CyclicBuffer/Preserve/Writers.antt =====
-- spec/cyclicbuffer.rs: the transitions that advance the head and the tail, and that append.
use mathlib.Core.Path.{subst}
use verified_node_replicatio.Prelude.{
  ℕ, suc, Bool, ◌+◌, ◌≤◌, ◌<◌, ◌≡◌, some, insert, present, sym, arith,
}
use verified_node_replicatio.CyclicBuffer
use verified_node_replicatio.CyclicBuffer.{
  State, ReaderState, CombinerState, min, log_size, log_entry_idx, log_entry_alive_value,
}
use verified_node_replicatio.CyclicBuffer.Inv.{Inv, Pointers, Combiners, Contents}
use verified_node_replicatio.CyclicBuffer.Preserve.Moves
use verified_node_replicatio.CyclicBuffer.Preserve.PointersKept.{
  advance_tail_finish_lem, append_flip_bit_lem,
}
use verified_node_replicatio.CyclicBuffer.Preserve.ContentsKept.{
  advance_tail_finish-Contents, append_flip_bit-Contents,
}
use verified_node_replicatio.CyclicBuffer.Preserve.CombinersKept.{
  insert-Combiners, withdraw-Combiners, set_alive-Combiners,
}
use verified_node_replicatio.CyclicBuffer.Preserve.Ranges.{covered, appended-NoOverlapWith}
use verified_node_replicatio.CyclicBuffer.Preserve.OneCombiner.{apart-Inv}

module _ {E : Type 0} (p : E → ℕ → Bool) where
  pub advance_head_start-Inv :
      (n : ℕ) (s : State E) {t : State E}
      → Inv p s
      → Pointers t
      → CyclicBuffer.advance_head_start n s ≡ some t
      → Inv p t
  advance_head_start-Inv n s h ptr e =
      let (m, at, eq) = Moves.advance_head_start_lem n s e in
      apart-Inv p s n (s.head) (CombinerState.advancing_head 1 m) h ptr eq tt tt

  pub advance_head_next-Inv :
      (n : ℕ) (s : State E) {t : State E}
      → Inv p s
      → Pointers t
      → CyclicBuffer.advance_head_next n s ≡ some t
      → Inv p t
  advance_head_next-Inv n s h ptr e =
      let (idx, m, v, c, at, eq) = Moves.advance_head_next_lem n s e in
      apart-Inv p s n (s.head) (CombinerState.advancing_head (suc idx) (min m v)) h ptr eq tt tt

  pub advance_head_finish-Inv :
      (n : ℕ) (s : State E) {t : State E}
      → Inv p s
      → Pointers t
      → CyclicBuffer.advance_head_finish n s ≡ some t
      → Inv p t
  advance_head_finish-Inv n s h ptr e =
      let (idx, m, c, eq) = Moves.advance_head_finish_lem n s e in
      apart-Inv p s n m CombinerState.idle h ptr eq tt tt

  pub advance_head_abort-Inv :
      (n : ℕ) (s : State E) {t : State E}
      → Inv p s
      → Pointers t
      → CyclicBuffer.advance_head_abort n s ≡ some t
      → Inv p t
  advance_head_abort-Inv n s h ptr e =
      apart-Inv p s n (s.head) CombinerState.idle h ptr (Moves.advance_head_abort_lem n s e) tt tt

  pub advance_tail_start-Inv :
      (n : ℕ) (s : State E) {t : State E}
      → Inv p s
      → Pointers t
      → CyclicBuffer.advance_tail_start n s ≡ some t
      → Inv p t
  advance_tail_start-Inv n s h ptr e =
      apart-Inv p s n (s.head) (CombinerState.advancing_tail (s.head)) h ptr
        (Moves.advance_tail_start_lem n s e) tt tt

  pub advance_tail_abort-Inv :
      (n : ℕ) (s : State E) {t : State E}
      → Inv p s
      → Pointers t
      → CyclicBuffer.advance_tail_abort n s ≡ some t
      → Inv p t
  advance_tail_abort-Inv n s h ptr e =
      apart-Inv p s n (s.head) CombinerState.idle h ptr (Moves.advance_tail_abort_lem n s e) tt tt

  pub append_finish-Inv :
      (n : ℕ) (s : State E) {t : State E}
      → Inv p s
      → Pointers t
      → CyclicBuffer.append_finish n s ≡ some t
      → Inv p t
  append_finish-Inv n s h ptr e =
      apart-Inv p s n (s.head) CombinerState.idle h ptr (Moves.append_finish_lem n s e) tt tt

  pub advance_tail_finish-Inv :
      (n new_tail : ℕ) (s : State E) {t : State E}
      → Inv p s
      → Pointers t
      → CyclicBuffer.advance_tail_finish n new_tail s ≡ some t
      → Inv p t
  advance_tail_finish-Inv n new_tail s h ptr e =
      let (observed, c, le, room, eq) = advance_tail_finish_lem n new_tail s e in
      let (v, at) =
        present (s.local_versions n)
          (h.pointers.has_version n (CombinerState.advancing_tail observed) c) in
      let near : (m w : ℕ) → s.local_versions m ≡ some w → new_tail ≤ w + log_size =
        λ m w f. omega (arith, h.pointers.advancing_tail_le n observed m w c f, h.pointers.size) in
      subst (Inv p) (sym eq) (record {
        pointers = subst Pointers eq ptr;
        contents =
            advance_tail_finish-Contents p n v new_tail h.contents at le near
              (λ m w f. h.pointers.version_le m w f);
        combiners =
            insert-Combiners n (CombinerState.appending (s.tail) new_tail)
              (withdraw-Combiners (s.tail) new_tail h.combiners (λ m d i f here.
                let (w, g, lo, hi) = covered s h.pointers m d i f here in
                omega (arith, near m w g)))
              (λ i here alive.
                h.contents.upcoming i n v here.0 at (λ m w f. omega (arith, near m w f, here.1))
                  alive)
              (λ j d ne f. appended-NoOverlapWith s h.pointers j d new_tail f);
      })

  pub append_flip_bit-Inv :
      (n : ℕ) (x : E) (s : State E) {t : State E}
      → Inv p s
      → Pointers t
      → CyclicBuffer.append_flip_bit p n x s ≡ some t
      → Inv p t
  append_flip_bit-Inv n x s h ptr e =
      let (cur, tail, c, lt, ok, eq) = append_flip_bit_lem p n x s e in
      let size = sym (h.pointers.size) in
      let (v, at) =
        present (s.local_versions n)
          (h.pointers.has_version n (CombinerState.appending cur tail) c) in
      let from = h.pointers.appending_from n cur tail v c at in
      let below : cur < s.tail = omega (arith, h.pointers.appending_order n cur tail c) in
      let near : s.tail ≤ cur + log_size =
        omega (arith, h.pointers.appending_near n cur tail c, h.pointers.size) in
      subst (Inv p) (sym eq) (record {
        pointers = subst Pointers eq ptr;
        contents =
            subst
              (λ b.
                Contents p (s.tail) (s.local_versions)
                  (insert (s.alive_bits) (log_entry_idx cur b) (log_entry_alive_value cur b))
                  (insert (s.contents) (cur + b) x))
              size (append_flip_bit-Contents p n v cur x h.contents at from below near ok);
        combiners =
            subst
              (λ b.
                Combiners
                  (insert (s.alive_bits) (log_entry_idx cur b) (log_entry_alive_value cur b))
                  (insert (s.contents) (cur + b) x)
                  (insert (s.combiner) n (CombinerState.appending (suc cur) tail)))
              size
              (set_alive-Combiners n cur tail x h.combiners c lt (λ j d i f here.
                let (w, g, lo, hi) = covered s h.pointers j d i f here in
                let pass : s.tail ≤ w + log_size =
                  omega (arith, h.pointers.tail_le j w g, h.pointers.size) in
                (omega arith, omega arith)));
      })
