-- ===== src/Exec/RwLock/Refinement/Writes.antt =====
-- exec/rwlock.rs: the operations of a writer.
use verified_node_replicatio.Prelude.{
  ℕ, suc, ◌<◌, ◌≡◌, ◌==◌, true, false, none, some, refl, sym, inl, inr, get_elem?_total, length,
  Bool-cases, ltb, present, arith, ◌∙◌,
}
use verified_node_replicatio.RwLockSpec
use verified_node_replicatio.RwLockSpec.{State}
use verified_node_replicatio.RwLockSpec.Inv.{Inv}
use verified_node_replicatio.RwLockSpec.Next
use verified_node_replicatio.Exec.RwLock
use verified_node_replicatio.Exec.RwLock.{
  RwLock, Point, idle, write_lock, write_wait, write_held, read_load, read_add, read_check,
  read_undo, read_held, panicked, max_rc,
}
use verified_node_replicatio.Exec.RwLock.System.{System}
use verified_node_replicatio.Exec.RwLock.Refinement.{Fits, Fits-reader, flag-le, Refines}
use verified_node_replicatio.Exec.RwLock.Refinement.Steps.{Matched, stays}

module _ {T : Type 0} {y : System T} {s : State T} (h : Refines y s) (inv : Inv s) where
  pub acquire_write_lock-Matched :
      Matched (y.lock) s write_lock (RwLock.acquire_write_lock (y.lock))
  unfolding RwLock.acquire_write_lock Next.step RwLockSpec.exc_start
  acquire_write_lock-Matched = elim (Bool-cases ((y.lock).exc_locked)) [
    | inl held ↦ (
      y.lock,
      write_lock,
      s,
      rw held refl,
      inl refl,
      stays h (λ r. refl) (λ r. refl) refl (inv.width),
    )
    | inr unheld ↦ (
      record (y.lock) { exc_locked = true },
      write_wait 0,
      record s { exc_locked = true; exc_pending = some 0 },
      rw unheld refl,
      inr (Next.exc_start, rw (h.locked ∙ unheld) refl),
      record {
        user_inv = h.user_inv;
        storage = h.storage;
        locked = refl;
        width = h.width;
        same_width = refl;
        counts = h.counts;
        max = h.max;
        pending = λ r. refl;
        guards = λ r. refl;
        writers = ground arith;
        fits = refl;
        others = λ o w f. Fits-reader s (some 0) (s.exc_guard) o (ground arith) f;
      },
    )
  ]

  pub acquire_write_count-Matched :
      {idx : ℕ}
      → Fits s (write_wait idx)
      → idx < length ((y.lock).ref_counts)
      → Matched (y.lock) s (write_wait idx) (RwLock.acquire_write_count idx (y.lock))
  unfolding RwLock.acquire_write_count Next.step RwLockSpec.exc_check_count
  acquire_write_count-Matched {idx} f lt =
      let (rc, e) = get_elem?_total ((y.lock).ref_counts) idx lt in
      elim (Bool-cases (rc == 0)) [
        | inl zero_count ↦ (
          y.lock,
          write_wait (suc idx),
          record s { exc_pending = some (suc idx) },
          rw (e, zero_count) refl,
          inr (Next.exc_check_count, rw (f, h.counts idx, e, zero_count) refl),
          record {
            user_inv = h.user_inv;
            storage = h.storage;
            locked = h.locked;
            width = h.width;
            same_width = refl;
            counts = h.counts;
            max = h.max;
            pending = λ r. refl;
            guards = λ r. refl;
            writers = refl;
            fits = refl;
            others = λ o w g.
                Fits-reader s (some (suc idx)) (s.exc_guard) o
                  (omega (arith, flag-le ((y.lock).exc_locked))) g;
          },
        )
        | inr readers ↦ (
          y.lock,
          write_wait idx,
          s,
          rw (e, readers) refl,
          inl refl,
          stays h (λ r. refl) (λ r. refl) refl f,
        )
      ]

  acquire_write_take-Matched :
      {idx : ℕ}
      → Fits s (write_wait idx)
      → ¬ (idx < length ((y.lock).ref_counts))
      → Matched (y.lock) s (write_wait idx) (RwLock.acquire_write_take (y.lock))
  unfolding RwLock.acquire_write_take Next.step RwLockSpec.exc_finish
  acquire_write_take-Matched {idx} f done =
      let passed : idx ≡ s.rc_width = omega (arith, inv.pending_le idx f, h.width) in
      let (t, st) =
        present (s.storage) (λ e. ground (arith, inv.stored, inv.pending_alone idx f)) in
      (
        record (y.lock) { cell = none },
        write_held t,
        record s { exc_pending = none; exc_guard = some tt; storage = none },
        rw (sym (h.storage), st) refl,
        inr (Next.exc_finish, ground arith),
        record {
          user_inv = h.user_inv;
          storage = refl;
          locked = h.locked;
          width = h.width;
          same_width = refl;
          counts = h.counts;
          max = h.max;
          pending = λ r. refl;
          guards = λ r. refl;
          writers = refl;
          fits = λ e. cc;
          others = λ o w g.
              Fits-reader s none (some tt) o (omega (arith, flag-le ((y.lock).exc_locked))) g;
        },
      )

  pub acquire_write_wait-Matched :
      {idx : ℕ}
      → Fits s (write_wait idx)
      → Matched (y.lock) s (write_wait idx) (RwLock.acquire_write_wait idx (y.lock))
  unfolding RwLock.acquire_write_wait
  acquire_write_wait-Matched {idx} f = elim (Bool-cases (ltb idx (length ((y.lock).ref_counts)))) [
    | inl more ↦ rw more (acquire_write_count-Matched f (ground arith))
    | inr done ↦ rw done (acquire_write_take-Matched f (λ lt. ground arith))
  ]

  pub release_write-Matched :
      {t val : T}
      → Fits s (write_held t)
      → (y.lock).user_inv val ≡ true
      → Matched (y.lock) s (write_held t) (RwLock.release_write val (y.lock))
  unfolding RwLock.release_write Next.step RwLockSpec.exc_release
  release_write-Matched {val} f valid =
      let (u, g) = present (s.exc_guard) f in
      let empty : s.storage ≡ none = ground (arith, inv.stored) in
      (
        record (y.lock) { cell = some val; exc_locked = false },
        idle,
        record s { exc_locked = false; exc_guard = none; storage = some val },
        rw (sym (h.storage), empty) refl,
        inr (Next.exc_release val, rw (h.user_inv, valid, g) refl),
        record {
          user_inv = h.user_inv;
          storage = refl;
          locked = refl;
          width = h.width;
          same_width = refl;
          counts = h.counts;
          max = h.max;
          pending = λ r. refl;
          guards = λ r. refl;
          writers = ground (arith, inv.locked, h.locked);
          fits = inv.width;
          others = λ o w e.
              Fits-reader s (s.exc_pending) none o (omega (arith, flag-le ((y.lock).exc_locked))) e;
        },
      )
