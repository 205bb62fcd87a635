-- ===== src/CyclicBuffer/Inv.antt =====
-- spec/cyclicbuffer.rs: the invariants, without `cell_ids`. `Pointers` has what they say of the pointers and
-- of the ranges, `Contents` of the alive bits and the contents, `Combiners` of what the combiners have read
-- and are writing there. A logical index `i` of the contents is at `i + log_size`.
use verified_node_replicatio.Prelude.{
  none, ℕ, suc, ◌+◌, ◌≤◌, ◌<◌, ◌≡◌, ◌≢◌, ◌⊎◌, some, Map, Bool, true,
}
use verified_node_replicatio.CyclicBuffer.{
  State, ReaderState, CombinerState, log_size, log_entry_idx, log_entry_alive_value,
}

-- `log_entry_is_alive`
abbrev pub Alive : Map Bool → ℕ → Type 0
Alive bits i = bits (log_entry_idx i log_size) ≡ some (log_entry_alive_value i log_size)

-- The index `k` of the contents is below the version of every replica, `map_min_value` in the source.
abbrev pub BelowAll : Map ℕ → ℕ → Type 0
BelowAll versions k = (n v : ℕ) → versions n ≡ some v → k < v + log_size

module _ {E : Type 0} (stored_type_inv : E → ℕ → Bool) where
  pub record Contents (tail : ℕ) (versions : Map ℕ) (bits : Map Bool) (contents : Map E)
      : Type 0 where
    -- `complete`
    pub bits_total : (i : ℕ) → i < log_size → bits i ≢ none
    pub bits_domain : (i : ℕ) (b : Bool) → bits i ≡ some b → i < log_size
    -- `upcoming_bits_are_not_alive`, where there is a replica, as there is in the source.
    pub upcoming :
        (i n v : ℕ) → tail ≤ i → versions n ≡ some v → BelowAll versions i → Alive bits i → ⊥
    -- `inv_buffer_contents`
    pub alive_there :
        (i : ℕ) → i < tail → tail ≤ i + log_size → Alive bits i → contents (i + log_size) ≢ none
    pub old_there :
        (k : ℕ) → tail ≤ k → k < tail + log_size → BelowAll versions k → contents k ≢ none
    pub below : (k : ℕ) (x : E) → contents k ≡ some x → k < tail + log_size
    pub only :
        (k : ℕ) (x : E)
        → tail ≤ k
        → contents k ≡ some x
        → BelowAll versions k ⊎ ((i : ℕ) × (k ≡ i + log_size) × Alive bits i)
    -- `contents_meet_inv`, of the indices from 0 on
    pub stored : (i : ℕ) (x : E) → contents (i + log_size) ≡ some x → stored_type_inv x i ≡ true

module _ {E : Type 0} where
  -- `CombinerState::no_overlap_with`
  abbrev pub NoOverlapWith : CombinerState E → CombinerState E → Type 0
  NoOverlapWith (CombinerState.appending cur_idx tail)
        (CombinerState.reading (ReaderState.guarded start end cur val)) =
      (cur < cur_idx) ⊎ (tail ≤ cur)
  NoOverlapWith (CombinerState.appending cur_idx tail) (CombinerState.appending cur_idx2 tail2) =
      (tail2 ≤ cur_idx) ⊎ (tail ≤ cur_idx2)
  NoOverlapWith _ _ = Unit {0}

  -- The entries that the combiner has read, up to the one that it guards, or that it has yet to write.
  abbrev pub Covers : CombinerState E → ℕ → Type 0
  Covers (CombinerState.reading (ReaderState.range start end cur)) i = (start ≤ i) × (i < cur)
  Covers (CombinerState.reading (ReaderState.guarded start end cur val)) i =
      (start ≤ i) × (i < suc cur)
  Covers (CombinerState.appending cur_idx tail) i = (cur_idx ≤ i) × (i < tail)
  Covers _ i = ⊥

  -- What was read is alive and there.
  abbrev pub IsRead : Map Bool → Map E → ℕ → ℕ → Type 0
  IsRead bits contents start end =
      (i : ℕ) → (start ≤ i) × (i < end) → Alive bits i × (contents (i + log_size) ≢ none)

  -- `reader_state_valid` and `combiner_valid`: what was read is alive and there, the guarded value is that of
  -- the contents, and what is to be written is not alive.
  abbrev pub IsValid : Map Bool → Map E → CombinerState E → Type 0
  IsValid bits contents (CombinerState.reading (ReaderState.range start end cur)) =
      IsRead bits contents start cur
  IsValid bits contents (CombinerState.reading (ReaderState.guarded start end cur val)) =
      (start ≤ cur) × IsRead bits contents start (suc cur) × (contents (cur + log_size) ≡ some val)
  IsValid bits contents (CombinerState.appending cur_idx tail) =
      (i : ℕ) → (cur_idx ≤ i) × (i < tail) → Alive bits i → ⊥
  IsValid bits contents _ = Unit {0}

  pub record Combiners (bits : Map Bool) (contents : Map E) (combiner : Map (CombinerState E))
      : Type 0 where
    pub valid : (n : ℕ) (c : CombinerState E) → combiner n ≡ some c → IsValid bits contents c
    pub ranges_no_overlap :
        (i j : ℕ) (c d : CombinerState E)
        → i ≢ j
        → combiner i ≡ some c
        → combiner j ≡ some d
        → NoOverlapWith c d

module _ {E : Type 0} where
  pub record Pointers (s : State E) : Type 0 where
    pub size : s.buffer_size ≡ log_size
    pub has_version :
        (n : ℕ) (c : CombinerState E) → s.combiner n ≡ some c → s.local_versions n ≢ none
    pub domain : (n v : ℕ) → s.local_versions n ≡ some v → n < s.num_replicas
    pub total_version : (n : ℕ) → n < s.num_replicas → s.local_versions n ≢ none
    pub total_combiner : (n : ℕ) → n < s.num_replicas → s.combiner n ≢ none
    pub head_le_tail : s.head ≤ s.tail
    pub head_le : (n v : ℕ) → s.local_versions n ≡ some v → s.head ≤ v
    pub version_le : (n v : ℕ) → s.local_versions n ≡ some v → v ≤ s.tail
    pub tail_le : (n v : ℕ) → s.local_versions n ≡ some v → s.tail ≤ v + s.buffer_size
    pub starting_at :
        (n start v : ℕ)
        → s.combiner n ≡ some (CombinerState.reading (ReaderState.starting start))
        → s.local_versions n ≡ some v
        → start ≡ v
    pub starting_le :
        (n start : ℕ)
        → s.combiner n ≡ some (CombinerState.reading (ReaderState.starting start))
        → start ≤ s.tail
    pub range_at :
        (n start end cur v : ℕ)
        → s.combiner n ≡ some (CombinerState.reading (ReaderState.range start end cur))
        → s.local_versions n ≡ some v
        → start ≡ v
    pub range_order :
        (n start end cur : ℕ)
        → s.combiner n ≡ some (CombinerState.reading (ReaderState.range start end cur))
        → (start ≤ cur) × (cur ≤ end) × (end ≤ s.tail)
    pub range_near :
        (n start end cur : ℕ)
        → s.combiner n ≡ some (CombinerState.reading (ReaderState.range start end cur))
        → s.tail ≤ end + s.buffer_size
    pub guarded_near :
        (n start end cur : ℕ) (val : E)
        → s.combiner n ≡ some (CombinerState.reading (ReaderState.guarded start end cur val))
        → s.tail ≤ end + s.buffer_size
    pub guarded_at :
        (n start end cur v : ℕ) (val : E)
        → s.combiner n ≡ some (CombinerState.reading (ReaderState.guarded start end cur val))
        → s.local_versions n ≡ some v
        → start ≡ v
    pub guarded_order :
        (n start end cur : ℕ) (val : E)
        → s.combiner n ≡ some (CombinerState.reading (ReaderState.guarded start end cur val))
        → (start ≤ cur) × (cur < end) × (end ≤ s.tail)
    pub advancing_head_idx :
        (n idx m : ℕ)
        → s.combiner n ≡ some (CombinerState.advancing_head idx m)
        → idx ≤ s.num_replicas
    pub advancing_head_le :
        (n idx m k v : ℕ)
        → s.combiner n ≡ some (CombinerState.advancing_head idx m)
        → k < idx
        → s.local_versions k ≡ some v
        → m ≤ v
    pub advancing_tail_le :
        (n observed k v : ℕ)
        → s.combiner n ≡ some (CombinerState.advancing_tail observed)
        → s.local_versions k ≡ some v
        → observed ≤ v
    pub appending_from :
        (n cur tail v : ℕ)
        → s.combiner n ≡ some (CombinerState.appending cur tail)
        → s.local_versions n ≡ some v
        → v ≤ cur
    pub appending_order :
        (n cur tail : ℕ)
        → s.combiner n ≡ some (CombinerState.appending cur tail)
        → (cur ≤ tail) × (tail ≤ s.tail)
    pub appending_near :
        (n cur tail : ℕ)
        → s.combiner n ≡ some (CombinerState.appending cur tail)
        → s.tail ≤ cur + s.buffer_size
    pub appending_apart :
        (i j cur tail cur' tail' : ℕ)
        → i ≢ j
        → s.combiner i ≡ some (CombinerState.appending cur tail)
        → s.combiner j ≡ some (CombinerState.appending cur' tail')
        → (tail ≤ cur') ⊎ (tail' ≤ cur)

module _ {E : Type 0} (stored_type_inv : E → ℕ → Bool) where
  pub record Inv (s : State E) : Type 0 where
    pub pointers : Pointers s
    pub contents : Contents stored_type_inv (s.tail) (s.local_versions) (s.alive_bits) (s.contents)
    pub combiners : Combiners (s.alive_bits) (s.contents) (s.combiner)
