-- ===== src/CyclicBuffer/Preserve/ContentsKept.antt =====
-- spec/cyclicbuffer.rs: the `…_inductive` proofs, of the alive bits and the contents.
use mathlib.Core.Path.{subst, subst₂}
use native.Mathlib.Decide.{dec_lt}
use verified_node_replicatio.Prelude.{
  ℕ, ◌+◌, ◌-◌, ◌%◌, ◌≤◌, ◌<◌, ◌≡◌, ◌≢◌, ◌==◌, ◌&&◌, Bool, true, not, none, some, Map, insert,
  insert_self, insert-All, Bool-cases, ==_iff, if◌then◌else◌, ltb, leb, inl, inr, refl, sym, ◌∙◌,
  arith,
}
use verified_node_replicatio.CyclicBuffer
use verified_node_replicatio.CyclicBuffer.{
  State, ReaderState, CombinerState, log_size, log_entry_idx, log_entry_alive_value,
}
use verified_node_replicatio.CyclicBuffer.Bits.{
  Alive-flips, not-ne, set_alive, set_alive-keeps, set_alive_self, set_alive-back,
}
use verified_node_replicatio.CyclicBuffer.Inv.{Alive, BelowAll, Contents}

-- The versions after the replica `n` has gone on from `start` to `end`.
BelowAll-start :
    (versions : Map ℕ) (n start end k : ℕ)
    → versions n ≡ some start
    → BelowAll (insert versions n end) k
    → k < start + log_size
    → BelowAll versions k
BelowAll-start versions n start end k at h lt m v e = elim (Bool-cases (n == m)) [
  | inl here ↦ ground (arith, at, e)
  | inr other ↦ h m v (rw other e)
]

BelowAll-end :
    (versions : Map ℕ) (n start end k : ℕ)
    → versions n ≡ some start
    → start ≤ end
    → BelowAll versions k
    → BelowAll (insert versions n end) k
BelowAll-end versions n start end k at le h =
    insert-All {P = λ m v. k < v + log_size} versions n end (omega (arith, h n start at))
      λ m v other e. h m v e

module _ {E : Type 0} (p : E → ℕ → Bool) where
  pub initialize-Contents :
      (num_replicas : ℕ) (contents : ℕ → E)
      → Contents p 0
          ((CyclicBuffer.initialize num_replicas contents).local_versions)
          ((CyclicBuffer.initialize num_replicas contents).alive_bits)
          ((CyclicBuffer.initialize num_replicas contents).contents)
  unfolding CyclicBuffer.initialize
  initialize-Contents num_replicas contents = record {
    bits_total = λ i lt gone. ground arith;
    bits_domain = λ i b e. ground arith;
    upcoming = λ i n v lo e below alive.
        let zero_version : v ≡ 0 = ground arith in
        let small : i < log_size = omega (arith, below n v e) in
        let same : i % log_size ≡ i = omega arith in
        let inside : ltb i log_size ≡ true = ground arith in
        let value = log_entry_alive_value i log_size in
        let dead : (if ltb i log_size then some (not value) else none) ≡ some value =
          subst
            (λ j.
              (if ltb j log_size then some (not (log_entry_alive_value j log_size)) else none)
              ≡ some value)
            same alive in
        not-ne (not value) value refl (rw inside at dead);
    alive_there = λ i lt. absurd (omega arith);
    old_there = λ k lo hi below gone. ground arith;
    below = λ k x e. ground arith;
    only = λ k x lo e. inl (λ n v at. ground arith);
    stored = λ i x e. absurd (ground arith);
  }

  -- A replica finishes what it has read: its entries are alive and there.
  pub reader_finish-Contents :
      {tail : ℕ} {versions : Map ℕ} {bits : Map Bool} {contents : Map E} (n start end : ℕ)
      → Contents p tail versions bits contents
      → versions n ≡ some start
      → start ≤ end
      → ((i : ℕ) → start ≤ i → i < end → Alive bits i × (contents (i + log_size) ≢ none))
      → Contents p tail (insert versions n end) bits contents
  reader_finish-Contents {tail} {versions} {bits} {contents} n start end h at le read = record {
    bits_total = h.bits_total;
    bits_domain = h.bits_domain;
    upcoming = λ i m v lo e below alive. elim (dec_lt i (start + log_size)) [
      | yes near ↦
          h.upcoming i n start lo at (BelowAll-start versions n start end i at below near) alive
      | no far ↦
          let j = i - log_size in
          let back : j + log_size ≡ i = omega arith in
          let bound : i < end + log_size = below n end (insert_self versions n end) in
          Alive-flips bits j (read j (omega arith) (omega arith)).0
            (subst (Alive bits) (sym back) alive)
    ];
    alive_there = h.alive_there;
    old_there = λ k lo hi below. elim (dec_lt k (start + log_size)) [
      | yes near ↦ h.old_there k lo hi (BelowAll-start versions n start end k at below near)
      | no far ↦
          let j = k - log_size in
          let back : j + log_size ≡ k = omega arith in
          let bound : k < end + log_size = below n end (insert_self versions n end) in
          subst (λ l. contents l ≢ none) back (read j (omega arith) (omega arith)).1
    ];
    below = h.below;
    only = λ k x lo e. elim (h.only k x lo e) [
      | inl old ↦ inl (BelowAll-end versions n start end k at le old)
      | inr alive ↦ inr alive
    ];
    stored = h.stored;
  }

  -- The tail goes on: the cells of what every replica has executed are withdrawn.
  pub advance_tail_finish-Contents :
      {tail : ℕ} {versions : Map ℕ} {bits : Map Bool} {contents : Map E} (n v new_tail : ℕ)
      → Contents p tail versions bits contents
      → versions n ≡ some v
      → tail ≤ new_tail
      → ((m w : ℕ) → versions m ≡ some w → new_tail ≤ w + log_size)
      → ((m w : ℕ) → versions m ≡ some w → w ≤ tail)
      → Contents p new_tail versions bits
          (λ i. if leb tail i && ltb i new_tail then none else contents i)
  advance_tail_finish-Contents {tail} {versions} {bits} {contents} n v new_tail h at le near vle =
      let kept : (k : ℕ)
          → new_tail ≤ k
          → (if leb tail k && ltb k new_tail then none else contents k) ≡ contents k =
        λ k lo. ground arith in
      let was : (k : ℕ) (x : E)
          → (if leb tail k && ltb k new_tail then none else contents k) ≡ some x
          → contents k ≡ some x =
        λ k x e. ground arith in
      record {
        bits_total = h.bits_total;
        bits_domain = h.bits_domain;
        upcoming = λ i m w lo e below alive. h.upcoming i m w (omega arith) e below alive;
        alive_there = λ i hi lo alive gone. elim (dec_lt i tail) [
          | yes old ↦ h.alive_there i old (omega arith) alive (sym (kept (i + log_size) lo) ∙ gone)
          | no new ↦ h.upcoming i n v (omega arith) at (λ m w e. omega (arith, near m w e)) alive
        ];
        old_there = λ k lo hi below gone.
            h.old_there k (omega arith) (omega (arith, below n v at, vle n v at)) below
              (sym (kept k lo) ∙ gone);
        below = λ k x e. omega (arith, h.below k x (was k x e));
        only = λ k x lo e. h.only k x (omega arith) (was k x e);
        stored = λ i x e. h.stored i x (was (i + log_size) x e);
      }

  -- An entry is written, and its bit is set.
  pub append_flip_bit-Contents :
      {tail : ℕ} {versions : Map ℕ} {bits : Map Bool} {contents : Map E} (n v cur : ℕ) (x : E)
      → Contents p tail versions bits contents
      → versions n ≡ some v
      → v ≤ cur
      → cur < tail
      → tail ≤ cur + log_size
      → p x cur ≡ true
      → Contents p tail versions (set_alive bits cur) (insert contents (cur + log_size) x)
  append_flip_bit-Contents {tail} {versions} {bits} {contents} n v cur x h at from lt near ok =
      let there : (k : ℕ) → contents k ≢ none → insert contents (cur + log_size) x k ≢ none =
        λ k old. ground arith in
      record {
        bits_total = λ i lo gone. h.bits_total i lo (ground arith);
        bits_domain =
            insert-All {P = λ i b. i < log_size} bits (log_entry_idx cur log_size)
              (log_entry_alive_value cur log_size) (omega arith)
              (λ j w other e. h.bits_domain j w e);
        upcoming = λ i m w lo e below alive.
            let bound : i < v + log_size = below n v at in
            h.upcoming i m w lo e below
              (set_alive-back bits cur i (λ same. omega arith) (omega arith) (omega arith) alive);
        alive_there = λ i hi lo alive. elim (Bool-cases (cur == i)) [
          | inl here ↦ ground arith
          | inr other ↦ there (i + log_size) (
              h.alive_there i hi lo
                (set_alive-back bits cur i (ground arith) (omega arith) (omega arith) alive))
        ];
        old_there = λ k lo hi below. there k (h.old_there k lo hi below);
        below = λ k y e. elim (Bool-cases ((cur + log_size) == k)) [
          | inl here ↦ ground arith
          | inr other ↦ h.below k y (rw other at e)
        ];
        only = λ k y lo e. elim (Bool-cases ((cur + log_size) == k)) [
          | inl here ↦ inr (cur, sym ((==_iff (cur + log_size) k).0 here), set_alive_self bits cur)
          | inr other ↦ elim (h.only k y lo (rw other at e)) [
            | inl old ↦ inl old
            | inr (i, is, alive) ↦ inr (
              i,
              is,
              set_alive-keeps bits cur i (omega (arith, h.below k y (rw other at e))) (omega arith)
                  alive,
            )
          ]
        ];
        stored = λ i y e. elim (Bool-cases (cur == i)) [
          | inl here ↦
              let value : x ≡ y = ground (arith, e) in
              subst₂ (λ z j. p z j ≡ true) value ((==_iff cur i).0 here) ok
          | inr other ↦ h.stored i y (ground (arith, e))
        ];
      }
