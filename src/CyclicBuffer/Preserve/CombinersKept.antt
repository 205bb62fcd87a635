-- ===== src/CyclicBuffer/Preserve/CombinersKept.antt =====
-- spec/cyclicbuffer.rs: the `…_inductive` proofs, of what the combiners have read and are writing.
use mathlib.Core.Path.{subst}
use verified_node_replicatio.Prelude.{
  ℕ, suc, ◌+◌, ◌≤◌, ◌<◌, ◌≡◌, ◌≢◌, ◌&&◌, Bool, none, some, Map, insert, insert_ne, insert-All,
  if◌then◌else◌, ltb, leb, inl, inr, refl, sym, ◌∙◌, arith,
}
use verified_node_replicatio.CyclicBuffer
use verified_node_replicatio.CyclicBuffer.{
  State, ReaderState, CombinerState, log_size, log_entry_idx, log_entry_alive_value,
}
use verified_node_replicatio.CyclicBuffer.Bits.{set_alive, set_alive-keeps, set_alive-back}
use verified_node_replicatio.CyclicBuffer.Inv.{Combiners, NoOverlapWith, Covers, IsRead, IsValid}

module _ {E : Type 0} where
  -- A combiner that guards nothing and writes nothing.
  abbrev pub IsApart : CombinerState E → Type 0
  IsApart (CombinerState.reading (ReaderState.guarded start end cur val)) = ⊥
  IsApart (CombinerState.appending cur tail) = ⊥
  IsApart _ = Unit {0}

  pub IsApart-NoOverlapWith :
      (c d : CombinerState E) → IsApart c → NoOverlapWith c d × NoOverlapWith d c
  IsApart-NoOverlapWith (CombinerState.reading (ReaderState.guarded start end cur val)) d h =
      elim h [ ]
  IsApart-NoOverlapWith (CombinerState.appending cur tail) d h = elim h [ ]
  IsApart-NoOverlapWith _ (CombinerState.appending cur tail) h = (tt, tt)
  IsApart-NoOverlapWith _ _ h = (tt, tt)

  pub initialize-Combiners :
      (num_replicas : ℕ) (contents : ℕ → E)
      → Combiners
          ((CyclicBuffer.initialize num_replicas contents).alive_bits)
          ((CyclicBuffer.initialize num_replicas contents).contents)
          ((CyclicBuffer.initialize num_replicas contents).combiner)
  unfolding CyclicBuffer.initialize
  initialize-Combiners num_replicas contents =
      let is_idle : (n : ℕ) (c : CombinerState E)
          → (if ltb n num_replicas then some CombinerState.idle else none) ≡ some c
          → CombinerState.idle ≡ c =
        λ n c e. ground arith in
      record {
        valid = λ n c e.
            subst
              (IsValid ((CyclicBuffer.initialize num_replicas contents).alive_bits)
                ((CyclicBuffer.initialize num_replicas contents).contents))
              (is_idle n c e) tt;
        ranges_no_overlap = λ i j c d ne e f. subst (λ x. NoOverlapWith x d) (is_idle i c e) tt;
      }

  -- One combiner goes on, where the others are valid with the bits and the contents after it.
  pub changed-Combiners :
      {bits bits' : Map Bool} {contents contents' : Map E} {m : Map (CombinerState E)} (n : ℕ)
      (c : CombinerState E)
      → Combiners bits contents m
      → ((j : ℕ) (d : CombinerState E) → n ≢ j → m j ≡ some d → IsValid bits' contents' d)
      → IsValid bits' contents' c
      → ((j : ℕ) (d : CombinerState E)
          → n ≢ j
          → m j ≡ some d
          → NoOverlapWith c d × NoOverlapWith d c)
      → Combiners bits' contents' (insert m n c)
  changed-Combiners {bits' = bits'} {contents' = contents'} {m = m} n c h others ok apart = record {
    valid =
        insert-All {P = λ j d. IsValid bits' contents' d} m n c ok
          (λ j d other e. others j d (ground arith) e);
    ranges_no_overlap = λ i j d d' ne e f.
        insert-All {P = λ k x. k ≢ j → NoOverlapWith x d'} m n c
          (λ apart_n.
            insert-All {P = λ k x. n ≢ k → NoOverlapWith c x} m n c (λ no. absurd (no refl))
              (λ k x other g no. (apart k x no g).0) j d' f apart_n)
          (λ k x other g apart_k.
            insert-All {P = λ l y. k ≢ l → NoOverlapWith x y} m n c
              (λ no. (apart k x (λ same. no (sym same)) g).1)
              (λ l y other' g' no. h.ranges_no_overlap k l x y no g g') j d' f apart_k)
          i d e ne;
  }

  pub insert-Combiners :
      {bits : Map Bool} {contents : Map E} {m : Map (CombinerState E)} (n : ℕ) (c : CombinerState E)
      → Combiners bits contents m
      → IsValid bits contents c
      → ((j : ℕ) (d : CombinerState E)
          → n ≢ j
          → m j ≡ some d
          → NoOverlapWith c d × NoOverlapWith d c)
      → Combiners bits contents (insert m n c)
  insert-Combiners n c h ok apart = changed-Combiners n c h (λ j d ne e. h.valid j d e) ok apart

  -- It goes on to where it guards and writes nothing.
  pub apart-Combiners :
      {bits : Map Bool} {contents : Map E} {m : Map (CombinerState E)} (n : ℕ) (c : CombinerState E)
      → Combiners bits contents m
      → IsValid bits contents c
      → IsApart c
      → Combiners bits contents (insert m n c)
  apart-Combiners n c h ok quiet =
      insert-Combiners n c h ok (λ j d ne e. IsApart-NoOverlapWith c d quiet)

  withdraw-IsRead :
      (bits : Map Bool) (contents : Map E) (tail new_tail start end : ℕ)
      → IsRead bits contents start end
      → ((i : ℕ) → (start ≤ i) × (i < end) → new_tail ≤ i + log_size)
      → IsRead bits (λ i. if leb tail i && ltb i new_tail then none else contents i) start end
  withdraw-IsRead bits contents tail new_tail start end h near i here =
      let kept : (if leb tail (i + log_size) && ltb (i + log_size) new_tail
            then none
            else contents (i + log_size))
          ≡ contents (i + log_size) =
        ground (arith, near i here) in
      ((h i here).0, λ gone. (h i here).1 (sym kept ∙ gone))

  set_alive-IsRead :
      (bits : Map Bool) (contents : Map E) (cur : ℕ) (x : E) (start end : ℕ)
      → IsRead bits contents start end
      → ((i : ℕ) → (start ≤ i) × (i < end) → (i < cur + log_size) × (cur < i + log_size))
      → IsRead (set_alive bits cur) (insert contents (cur + log_size) x) start end
  set_alive-IsRead bits contents cur x start end h near i here = (
    set_alive-keeps bits cur i (near i here).0 (near i here).1 (h i here).0,
    λ gone. (h i here).1 (ground arith),
  )

  -- The cells below the new tail less a pass are withdrawn, where the combiner has nothing.
  pub withdraw-IsValid :
      (bits : Map Bool) (contents : Map E) (tail new_tail : ℕ) (c : CombinerState E)
      → IsValid bits contents c
      → ((i : ℕ) → Covers c i → new_tail ≤ i + log_size)
      → IsValid bits (λ i. if leb tail i && ltb i new_tail then none else contents i) c
  withdraw-IsValid bits contents tail new_tail
        (CombinerState.reading (ReaderState.range start end cur)) h near =
      withdraw-IsRead bits contents tail new_tail start cur h near
  withdraw-IsValid bits contents tail new_tail
        (CombinerState.reading (ReaderState.guarded start end cur val)) (le, h, value) near =
      let kept : (if leb tail (cur + log_size) && ltb (cur + log_size) new_tail
            then none
            else contents (cur + log_size))
          ≡ contents (cur + log_size) =
        ground (arith, near cur (le, omega arith)) in
      (le, withdraw-IsRead bits contents tail new_tail start (suc cur) h near, kept ∙ value)
  withdraw-IsValid bits contents tail new_tail (CombinerState.appending cur_idx t) h near = h
  withdraw-IsValid bits contents tail new_tail _ h near = tt

  -- The entry `cur` is written by another combiner, and its bit is set.
  pub set_alive-IsValid :
      (bits : Map Bool) (contents : Map E) (cur tail : ℕ) (x : E) (c : CombinerState E)
      → cur < tail
      → IsValid bits contents c
      → NoOverlapWith (CombinerState.appending cur tail) c
      → ((i : ℕ) → Covers c i → (i < cur + log_size) × (cur < i + log_size))
      → IsValid (set_alive bits cur) (insert contents (cur + log_size) x) c
  set_alive-IsValid bits contents cur tail x
        (CombinerState.reading (ReaderState.range start end at)) lt h apart near =
      set_alive-IsRead bits contents cur x start at h near
  set_alive-IsValid bits contents cur tail x
        (CombinerState.reading (ReaderState.guarded start end at val)) lt (le, h, value) apart
        near =
      let ne : at ≢ cur =
        λ same. elim apart [ inl before ↦ omega arith | inr after ↦ omega arith ] in
      (
        le,
        set_alive-IsRead bits contents cur x start (suc at) h near,
        insert_ne contents (cur + log_size) (at + log_size) x (λ same. ne (omega arith)) ∙ value,
      )
  set_alive-IsValid bits contents cur tail x (CombinerState.appending from to) lt h apart near =
      λ i here alive.
        let ne : i ≢ cur =
          λ same. elim apart [ inl before ↦ omega arith | inr after ↦ omega arith ] in
        h i here (set_alive-back bits cur i ne (near i here).0 (near i here).1 alive)
  set_alive-IsValid bits contents cur tail x _ lt h apart near = tt

  pub withdraw-Combiners :
      {bits : Map Bool} {contents : Map E} {m : Map (CombinerState E)} (tail new_tail : ℕ)
      → Combiners bits contents m
      → ((n : ℕ) (c : CombinerState E) (i : ℕ)
          → m n ≡ some c
          → Covers c i
          → new_tail ≤ i + log_size)
      → Combiners bits (λ i. if leb tail i && ltb i new_tail then none else contents i) m
  withdraw-Combiners {bits} {contents} tail new_tail h near = record {
    valid = λ n c e.
        withdraw-IsValid bits contents tail new_tail c (h.valid n c e)
          (λ i here. near n c i e here);
    ranges_no_overlap = h.ranges_no_overlap;
  }

  -- What does not overlap an appender does not overlap what it has left.
  advance-NoOverlapWith :
      (cur tail : ℕ) (d : CombinerState E)
      → NoOverlapWith (CombinerState.appending cur tail) d
      → NoOverlapWith d (CombinerState.appending cur tail)
      → NoOverlapWith (CombinerState.appending (suc cur) tail) d
        × NoOverlapWith d (CombinerState.appending (suc cur) tail)
  advance-NoOverlapWith cur tail (CombinerState.reading (ReaderState.guarded start end at val))
        before after =
      (elim before [ inl below ↦ inl (omega arith) | inr above ↦ inr above ], tt)
  advance-NoOverlapWith cur tail (CombinerState.appending from to) before after = (
    elim before [ inl below ↦ inl (omega arith) | inr above ↦ inr above ],
    elim after [ inl above ↦ inl above | inr below ↦ inr (omega arith) ],
  )
  advance-NoOverlapWith cur tail (CombinerState.reading (ReaderState.starting start)) a b = (tt, tt)
  advance-NoOverlapWith cur tail (CombinerState.reading (ReaderState.range start end at)) a b =
      (tt, tt)
  advance-NoOverlapWith cur tail CombinerState.idle a b = (tt, tt)
  advance-NoOverlapWith cur tail (CombinerState.advancing_head idx m) a b = (tt, tt)
  advance-NoOverlapWith cur tail (CombinerState.advancing_tail o) a b = (tt, tt)

  -- An appender writes the entry `cur` and sets its bit; every range is within a pass of it.
  pub set_alive-Combiners :
      {bits : Map Bool} {contents : Map E} {m : Map (CombinerState E)} (n cur tail : ℕ) (x : E)
      → Combiners bits contents m
      → m n ≡ some (CombinerState.appending cur tail)
      → cur < tail
      → ((j : ℕ) (d : CombinerState E) (i : ℕ)
          → m j ≡ some d
          → Covers d i
          → (i < cur + log_size) × (cur < i + log_size))
      → Combiners
          (set_alive bits cur)
          (insert contents (cur + log_size) x)
          (insert m n (CombinerState.appending (suc cur) tail))
  set_alive-Combiners {bits} {contents} n cur tail x h at lt near =
      let before : CombinerState E = CombinerState.appending cur tail in
      changed-Combiners n (CombinerState.appending (suc cur) tail) h
        (λ j d ne e.
          set_alive-IsValid bits contents cur tail x d lt (h.valid j d e)
            (h.ranges_no_overlap n j before d ne at e) (λ i here. near j d i e here))
        (λ i here alive.
          let own = near n before i at (omega (arith, here.0), here.1) in
          h.valid n before at i (omega (arith, here.0), here.1)
            (set_alive-back bits cur i (λ same. omega (arith, here.0)) own.0 own.1 alive))
        (λ j d ne e.
          advance-NoOverlapWith cur tail d (h.ranges_no_overlap n j before d ne at e)
            (h.ranges_no_overlap j n d before (λ same. ne (sym same)) e at))
