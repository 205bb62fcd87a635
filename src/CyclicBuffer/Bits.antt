-- ===== src/CyclicBuffer/Bits.antt =====
-- spec/cyclicbuffer.rs: which entries are alive after the bit of one is set.
use verified_node_replicatio.Prelude.{
  ℕ, ◌+◌, ◌<◌, ◌≡◌, ◌≢◌, ◌==◌, Bool, true, false, not, some, Map, insert, insert_self, insert_ne,
  Bool-cases, ==_iff, inl, inr, ap, sym, ◌∙◌, arith,
}
use mathlib.Core.Path.{subst}
use native.Mathlib.Decide.{dec_lt}
use verified_node_replicatio.CyclicBuffer.{log_size, log_entry_idx, log_entry_alive_value}
use verified_node_replicatio.CyclicBuffer.Index.{
  log_entry_idx-wrap_around, log_entry_alive_value-wrap_around,
}
use verified_node_replicatio.CyclicBuffer.Inv.{Alive}

pub not-ne : (b c : Bool) → b ≡ not c → some b ≡ some c → ⊥
not-ne true true e f = cc e
not-ne true false e f = cc f
not-ne false true e f = cc f
not-ne false false e f = cc e

-- An entry and the one a pass later are not both alive.
pub Alive-flips : (bits : Map Bool) (i : ℕ) → Alive bits i → Alive bits (i + log_size) → ⊥
Alive-flips bits i a b =
    let (flip, same) = log_entry_alive_value-wrap_around i in
    not-ne (log_entry_alive_value (i + log_size) log_size) (log_entry_alive_value i log_size) flip
      (sym b ∙ ap bits same ∙ a)

idx-apart :
    (i j : ℕ)
    → i ≢ j
    → i < j + log_size
    → j < i + log_size
    → log_entry_idx j log_size ≢ log_entry_idx i log_size
idx-apart i j ne a b = elim (dec_lt i j) [
  | yes below ↦
      log_entry_idx-wrap_around i j i (omega arith) b (omega arith) (omega arith) (λ e. ne (sym e))
  | no above ↦
      log_entry_idx-wrap_around j j i (omega arith) (omega arith) (omega arith) a (λ e. ne (sym e))
]

-- The bits after the bit of `cur` is set.
abbrev pub set_alive : Map Bool → ℕ → Map Bool
set_alive bits cur = insert bits (log_entry_idx cur log_size) (log_entry_alive_value cur log_size)

-- The entries within one pass of it stay as they were, besides itself.
pub set_alive-other :
    (bits : Map Bool) (cur i : ℕ)
    → i ≢ cur
    → i < cur + log_size
    → cur < i + log_size
    → set_alive bits cur (log_entry_idx i log_size) ≡ bits (log_entry_idx i log_size)
set_alive-other bits cur i ne a b =
    insert_ne bits (log_entry_idx cur log_size) (log_entry_idx i log_size)
      (log_entry_alive_value cur log_size) (idx-apart i cur ne a b)

pub set_alive_self : (bits : Map Bool) (cur : ℕ) → Alive (set_alive bits cur) cur
set_alive_self bits cur =
    insert_self bits (log_entry_idx cur log_size) (log_entry_alive_value cur log_size)

pub set_alive-keeps :
    (bits : Map Bool) (cur i : ℕ)
    → i < cur + log_size
    → cur < i + log_size
    → Alive bits i
    → Alive (set_alive bits cur) i
set_alive-keeps bits cur i a b alive = elim (Bool-cases (cur == i)) [
  | inl here ↦ subst (Alive (set_alive bits cur)) ((==_iff cur i).0 here) (set_alive_self bits cur)
  | inr other ↦ set_alive-other bits cur i (ground arith) a b ∙ alive
]

pub set_alive-back :
    (bits : Map Bool) (cur i : ℕ)
    → i ≢ cur
    → i < cur + log_size
    → cur < i + log_size
    → Alive (set_alive bits cur) i
    → Alive bits i
set_alive-back bits cur i ne a b alive = sym (set_alive-other bits cur i ne a b) ∙ alive
