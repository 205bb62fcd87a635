-- ===== src/Exec/RwLock/Refinement/Moves.antt =====
-- The relation after a step of one caller, from what the step does to the caller and to the lock.
use verified_node_replicatio.Prelude.{
  ℕ, ◌+◌, ◌≤◌, ◌≡◌, some, get_elem?, length, set_at, set_at-All, total-set_at, pair-le-total, arith,
}
use verified_node_replicatio.RwLockSpec.{State}
use verified_node_replicatio.RwLockSpec.Multiset.{count, filter_r}
use verified_node_replicatio.Exec.RwLock.{RwLock, Point, max_rc}
use verified_node_replicatio.Exec.RwLock.System.{System}
use verified_node_replicatio.Exec.RwLock.Refinement.{
  pending_at, guard_at, writer, flag, Fits, Refines,
}

module _ {T : Type 0} where
  -- The caller moves from `p` to `q`, the lock becomes `l` and the specification `s'`.
  pub record Moves (k : RwLock T) (s : State T) (p q : Point T) (l : RwLock T) (s' : State T)
      : Type 0 where
    pub user_inv : s'.user_inv ≡ l.user_inv
    pub storage : s'.storage ≡ l.cell
    pub locked : s'.exc_locked ≡ l.exc_locked
    pub width : s'.rc_width ≡ length (l.ref_counts)
    pub same_width : s'.rc_width ≡ s.rc_width
    pub counts : (i : ℕ) → s'.ref_counts i ≡ get_elem? (l.ref_counts) i
    pub max : (i n : ℕ) → get_elem? (l.ref_counts) i ≡ some n → n ≤ max_rc
    pub pending :
        (r : ℕ)
        → count r (s'.shared_pending) + pending_at r p ≡ count r (s.shared_pending) + pending_at r q
    pub guards :
        (r : ℕ)
        → filter_r (s'.shared_guard) r + guard_at r p ≡ filter_r (s.shared_guard) r + guard_at r q
    pub writers : flag (l.exc_locked) + writer p ≡ flag (k.exc_locked) + writer q
    pub fits : Fits s' q
    pub others : (o : Point T) → writer o + writer p ≤ flag (k.exc_locked) → Fits s o → Fits s' o

  pub moved :
      (y : System T) (s : State T) (i : ℕ) {p q : Point T} {l : RwLock T} {s' : State T}
      → Refines y s
      → get_elem? (y.threads) i ≡ some p
      → Moves (y.lock) s p q l s'
      → Refines (record { lock = l; threads = set_at (y.threads) i q }) s'
  moved y s i {p} {q} {l} {s'} h at m = record {
    user_inv = m.user_inv;
    storage = m.storage;
    locked = m.locked;
    width = m.width;
    counts = m.counts;
    max = m.max;
    pending = λ r.
        omega (arith, h.pending r, m.pending r, total-set_at (pending_at r) (y.threads) i q at);
    guards =
        λ r. omega (arith, h.guards r, m.guards r, total-set_at (guard_at r) (y.threads) i q at);
    writers = omega (arith, h.writers, m.writers, total-set_at writer (y.threads) i q at);
    fits = set_at-All (y.threads) i q m.fits λ j o other e.
        m.others o (omega (arith, h.writers, pair-le-total writer (y.threads) i j other at e))
          (h.fits j o e);
  }
