-- ===== src/CyclicBuffer.antt =====
-- spec/cyclicbuffer.rs: the bounded log under the unbounded one, with its pointers, its alive bits and
-- its contents. A logical index of `contents` is an `int` from `-buffer_size` on; here it is counted
-- from there, as index plus `buffer_size`. What is stored (`StoredType`, cell permissions and log
-- tokens) and `stored_type_inv` are parameters. A `withdraw` takes out what is there.
pub mod Next
pub mod Index
pub mod Inv
pub mod Bits
pub mod Preserve
pub mod Safety
use verified_node_replicatio.Prelude.{
  ℕ, zero, suc, ◌+◌, ◌/◌, ◌%◌, ◌==◌, ◌&&◌, Bool, true, false, not, Option, none, some,
  if◌then◌else◌, ltb, leb, guard, ◌>>=◌, ◌>>◌, is_none, Map, insert,
}

-- `LOG_SIZE` of constants.rs
abbrev pub log_size : ℕ
log_size = 524288

-- `enum ReaderState`
pub data ReaderState (E : Type 0) : Type 0 where
  starting : (start : ℕ) → ReaderState E
  range : (start end cur : ℕ) → ReaderState E
  guarded : (start end cur : ℕ) (val : E) → ReaderState E

-- `enum CombinerState`
pub data CombinerState (E : Type 0) : Type 0 where
  idle : CombinerState E
  reading : (r : ReaderState E) → CombinerState E
  advancing_head : (idx min_local_version : ℕ) → CombinerState E
  advancing_tail : (observed_head : ℕ) → CombinerState E
  appending : (cur_idx tail : ℕ) → CombinerState E

pub record State (E : Type 0) : Type 0 where
  pub buffer_size : ℕ
  pub num_replicas : ℕ
  pub head : ℕ
  pub tail : ℕ
  pub local_versions : Map ℕ
  pub contents : Map E
  pub alive_bits : Map Bool
  pub combiner : Map (CombinerState E)

abbrev pub min : ℕ → ℕ → ℕ
min x y = if ltb x y then x else y

-- The physical index of a logical one.
abbrev pub log_entry_idx : ℕ → ℕ → ℕ
log_entry_idx logical buffer_size = logical % buffer_size

-- The value of the alive bit with which the entry is alive; it flips on every wrap-around.
abbrev pub log_entry_alive_value : ℕ → ℕ → Bool
log_entry_alive_value logical buffer_size = ((logical / buffer_size) % 2) == 0

abbrev pub bool_eq : Bool → Bool → Bool
bool_eq true b = b
bool_eq false b = not b

module _ {E : Type 0} where
  -- `let CombinerState::… = …`
  abbrev pub as_idle : CombinerState E → Option (Unit {0})
  as_idle CombinerState.idle = some tt
  as_idle _ = none

  abbrev pub as_starting : CombinerState E → Option ℕ
  as_starting (CombinerState.reading (ReaderState.starting start)) = some start
  as_starting _ = none

  abbrev pub as_range : CombinerState E → Option (ℕ × ℕ × ℕ)
  as_range (CombinerState.reading (ReaderState.range start end cur)) = some (start, end, cur)
  as_range _ = none

  abbrev pub as_guarded : CombinerState E → Option (ℕ × ℕ × ℕ × E)
  as_guarded (CombinerState.reading (ReaderState.guarded start end cur val)) =
      some (start, end, cur, val)
  as_guarded _ = none

  abbrev pub as_starting_or_range : CombinerState E → Option (Unit {0})
  as_starting_or_range (CombinerState.reading (ReaderState.starting start)) = some tt
  as_starting_or_range (CombinerState.reading (ReaderState.range start end cur)) = some tt
  as_starting_or_range _ = none

  abbrev pub as_advancing_head : CombinerState E → Option (ℕ × ℕ)
  as_advancing_head (CombinerState.advancing_head idx m) = some (idx, m)
  as_advancing_head _ = none

  abbrev pub as_advancing_tail : CombinerState E → Option ℕ
  as_advancing_tail (CombinerState.advancing_tail observed) = some observed
  as_advancing_tail _ = none

  abbrev pub as_appending : CombinerState E → Option (ℕ × ℕ)
  as_appending (CombinerState.appending cur_idx tail) = some (cur_idx, tail)
  as_appending _ = none

  -- The contents are those of the entries below 0, which hold no operation yet. The source requires a
  -- replica at least and that the contents meet `stored_type_inv`; nothing here depends on it.
  unfoldable pub initialize : ℕ → (ℕ → E) → State E
  initialize num_replicas contents = record {
    buffer_size = log_size;
    num_replicas = num_replicas;
    head = 0;
    tail = 0;
    local_versions = λ i. if ltb i num_replicas then some 0 else none;
    contents = λ i. if ltb i log_size then some (contents i) else none;
    alive_bits =
        λ i. if ltb i log_size then some (not (log_entry_alive_value i log_size)) else none;
    combiner = λ i. if ltb i num_replicas then some CombinerState.idle else none;
  }

  abbrev set_combiner : State E → ℕ → CombinerState E → State E
  set_combiner s node_id c = record s { combiner = insert (s.combiner) node_id c }

  unfoldable pub reader_start : ℕ → State E → Option (State E)
  reader_start node_id s = do
    local_head ← s.local_versions node_id
    c ← s.combiner node_id
    as_idle c
    some (set_combiner s node_id (CombinerState.reading (ReaderState.starting local_head)))

  unfoldable pub reader_enter : ℕ → State E → Option (State E)
  reader_enter node_id s = do
    c ← s.combiner node_id
    start ← as_starting c
    some (set_combiner s node_id (CombinerState.reading (ReaderState.range start (s.tail) start)))

  -- The source leaves the value open where there is none; here the step is then not enabled.
  unfoldable pub reader_guard : ℕ → State E → Option (State E)
  reader_guard node_id s = do
    c ← s.combiner node_id
    r ← as_range c
    guard (ltb r.2 r.1)
    bit ← s.alive_bits (log_entry_idx r.2 (s.buffer_size))
    guard (bool_eq bit (log_entry_alive_value r.2 (s.buffer_size)))
    val ← s.contents (r.2 + s.buffer_size)
    some (set_combiner s node_id (CombinerState.reading (ReaderState.guarded r.0 r.1 r.2 val)))

  unfoldable pub reader_unguard : ℕ → State E → Option (State E)
  reader_unguard node_id s = do
    c ← s.combiner node_id
    r ← as_guarded c
    some (set_combiner s node_id (CombinerState.reading (ReaderState.range r.0 r.1 (suc r.2))))

  unfoldable pub reader_finish : ℕ → State E → Option (State E)
  reader_finish node_id s = do
    c ← s.combiner node_id
    r ← as_range c
    _ ← s.local_versions node_id
    guard (r.2 == r.1)
    some (record s {
      combiner = insert (s.combiner) node_id CombinerState.idle;
      local_versions = insert (s.local_versions) node_id r.1;
    })

  unfoldable pub reader_abort : ℕ → State E → Option (State E)
  reader_abort node_id s = do
    c ← s.combiner node_id
    as_starting_or_range c
    some (set_combiner s node_id CombinerState.idle)

  unfoldable pub advance_head_start : ℕ → State E → Option (State E)
  advance_head_start node_id s = do
    local_head_0 ← s.local_versions 0
    c ← s.combiner node_id
    as_idle c
    some (set_combiner s node_id (CombinerState.advancing_head 1 local_head_0))

  unfoldable pub advance_head_next : ℕ → State E → Option (State E)
  advance_head_next node_id s = do
    c ← s.combiner node_id
    a ← as_advancing_head c
    local_head_at_idx ← s.local_versions a.0
    guard (ltb a.0 (s.num_replicas))
    some (
        set_combiner s node_id (CombinerState.advancing_head (suc a.0) (min a.1 local_head_at_idx)))

  unfoldable pub advance_head_finish : ℕ → State E → Option (State E)
  advance_head_finish node_id s = do
    c ← s.combiner node_id
    a ← as_advancing_head c
    guard (a.0 == s.num_replicas)
    some (record s { combiner = insert (s.combiner) node_id CombinerState.idle; head = a.1 })

  unfoldable pub advance_head_abort : ℕ → State E → Option (State E)
  advance_head_abort node_id s = do
    c ← s.combiner node_id
    _ ← as_advancing_head c
    some (set_combiner s node_id CombinerState.idle)

  unfoldable pub advance_tail_start : ℕ → State E → Option (State E)
  advance_tail_start node_id s = do
    c ← s.combiner node_id
    as_idle c
    some (set_combiner s node_id (CombinerState.advancing_tail (s.head)))

  unfoldable pub advance_tail_finish : ℕ → ℕ → State E → Option (State E)
  advance_tail_finish node_id new_tail s = do
    c ← s.combiner node_id
    observed_head ← as_advancing_tail c
    guard (leb (s.tail) new_tail)
    guard (leb new_tail (observed_head + s.buffer_size))
    some (record s {
      combiner = insert (s.combiner) node_id (CombinerState.appending (s.tail) new_tail);
      tail = new_tail;
      contents = λ i. if leb (s.tail) i && ltb i new_tail then none else s.contents i;
    })

  unfoldable pub advance_tail_abort : ℕ → State E → Option (State E)
  advance_tail_abort node_id s = do
    c ← s.combiner node_id
    _ ← as_advancing_tail c
    some (set_combiner s node_id CombinerState.idle)

  unfoldable pub append_flip_bit : (E → ℕ → Bool) → ℕ → E → State E → Option (State E)
  append_flip_bit stored_type_inv node_id deposited s = do
    c ← s.combiner node_id
    a ← as_appending c
    _ ← s.alive_bits (log_entry_idx a.0 (s.buffer_size))
    guard (ltb a.0 a.1)
    guard (stored_type_inv deposited a.0)
    some (record s {
      combiner = insert (s.combiner) node_id (CombinerState.appending (suc a.0) a.1);
      alive_bits =
          insert (s.alive_bits) (log_entry_idx a.0 (s.buffer_size))
            (log_entry_alive_value a.0 (s.buffer_size));
      contents = insert (s.contents) (a.0 + s.buffer_size) deposited;
    })

  unfoldable pub append_finish : ℕ → State E → Option (State E)
  append_finish node_id s = do
    c ← s.combiner node_id
    a ← as_appending c
    guard (a.0 == a.1)
    some (set_combiner s node_id CombinerState.idle)
