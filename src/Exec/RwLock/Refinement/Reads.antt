-- ===== src/Exec/RwLock/Refinement/Reads.antt =====
-- exec/rwlock.rs: the operations of a reader.
use verified_node_replicatio.Prelude.{
  ℕ, suc, ◌-◌, ◌≤◌, ◌<◌, ◌≡◌, ◌==◌, some, List, refl, sym, inl, inr, get_elem?, get_elem?_total,
  length-set_at, set_at, set_at-All, get_elem?-set_at_self, get_elem?-set_at_ne, Bool-cases, ==_iff,
  present, Map, insert, arith, ◌∙◌, ◌∷◌,
}
use verified_node_replicatio.RwLockSpec
use verified_node_replicatio.RwLockSpec.{State}
use verified_node_replicatio.RwLockSpec.Inv.{Inv}
use verified_node_replicatio.RwLockSpec.Next
use verified_node_replicatio.RwLockSpec.Multiset.{
  count, filter_r, count-erase, filter_r-remove_at, remove_at,
}
use verified_node_replicatio.Exec.RwLock
use verified_node_replicatio.Exec.RwLock.{
  RwLock, Point, idle, write_lock, write_wait, write_held, read_load, read_add, read_check,
  read_undo, read_held, panicked, max_rc,
}
use verified_node_replicatio.Exec.Constants.{wrapping_add, wrapping_sub}
use verified_node_replicatio.Exec.RwLock.System.{System}
use verified_node_replicatio.Exec.RwLock.Refinement.{Fits, Refines}
use verified_node_replicatio.Exec.RwLock.Refinement.Tokens.{erase_total, guard_of_lane}
use verified_node_replicatio.Exec.RwLock.Refinement.Steps.{Matched, stays}

-- A count overwritten in the vector is a count inserted in the map.
counts_set :
    (m : Map ℕ) (xs : List ℕ) (r w : ℕ) {v : ℕ}
    → ((i : ℕ) → m i ≡ get_elem? xs i)
    → get_elem? xs r ≡ some v
    → (i : ℕ) → insert m r w i ≡ get_elem? (set_at xs r w) i
counts_set m xs r w h e i = elim (Bool-cases (r == i)) [
  | inl here ↦ rw (← (==_iff r i).0 here, get_elem?-set_at_self xs r w e) (ground arith)
  | inr other ↦ rw (other, get_elem?-set_at_ne xs r i w other) (h i)
]

module _ {T : Type 0} {y : System T} {s : State T} (h : Refines y s) (inv : Inv s) where
  -- A count in bounds overwritten with another.
  max_set :
      (r w : ℕ)
      → w ≤ max_rc
      → (i n : ℕ) → get_elem? (set_at ((y.lock).ref_counts) r w) i ≡ some n
      → n ≤ max_rc
  max_set r w le = set_at-All ((y.lock).ref_counts) r w le (λ j n _ e. h.max j n e)

  lane : {tid : ℕ} → tid < s.rc_width → (rc : ℕ) × (get_elem? ((y.lock).ref_counts) tid ≡ some rc)
  lane {tid} f = get_elem?_total ((y.lock).ref_counts) tid (omega (arith, h.width))

  pub acquire_read_load-Matched :
      {tid : ℕ}
      → Fits s (read_load tid)
      → Matched (y.lock) s (read_load tid) (RwLock.acquire_read_load tid (y.lock))
  unfolding RwLock.acquire_read_load
  acquire_read_load-Matched {tid} f =
      let (rc, e) = lane f in
      elim (Bool-cases (rc == max_rc)) [
        | inl full ↦ (
          y.lock,
          panicked,
          s,
          rw (e, full) refl,
          inl refl,
          stays h (λ r. refl) (λ r. refl) refl (inv.width),
        )
        | inr room ↦ (
          y.lock,
          read_add tid rc,
          s,
          rw (e, room) refl,
          inl refl,
          stays h (λ r. refl) (λ r. refl) refl (f, ground (arith, h.max tid rc e)),
        )
      ]

  pub acquire_read_add-Matched :
      {tid rc : ℕ}
      → Fits s (read_add tid rc)
      → Matched (y.lock) s (read_add tid rc) (RwLock.acquire_read_add tid rc (y.lock))
  unfolding RwLock.acquire_read_add Next.step RwLockSpec.shared_start
  acquire_read_add-Matched {tid} {rc} (f, lt) =
      let (prev, e) = lane f in
      elim (Bool-cases (prev == rc)) [
        | inl same ↦
            let eq = (==_iff prev rc).0 same in
            let sum : wrapping_add rc 1 ≡ suc rc = omega arith in
            (
              record (y.lock) { ref_counts = set_at ((y.lock).ref_counts) tid (suc rc) },
              read_check tid,
              record s {
                ref_counts = insert (s.ref_counts) tid (suc rc);
                shared_pending = tid ∷ s.shared_pending;
              },
              rw (e, same, sum) refl,
              inr (Next.shared_start tid, rw (h.counts tid, e, eq) refl),
              record {
                user_inv = h.user_inv;
                storage = h.storage;
                locked = h.locked;
                width = h.width ∙ sym (length-set_at ((y.lock).ref_counts) tid (suc rc));
                same_width = refl;
                counts = counts_set (s.ref_counts) ((y.lock).ref_counts) tid (suc rc) h.counts e;
                max = max_set tid (suc rc) (omega arith);
                pending = λ r. omega arith;
                guards = λ r. refl;
                writers = refl;
                fits = f;
                others = λ o w g. g;
              },
            )
        | inr raced ↦ (
          y.lock,
          read_load tid,
          s,
          rw (e, raced) refl,
          inl refl,
          stays h (λ r. refl) (λ r. refl) refl f,
        )
      ]

  pub acquire_read_check-Matched :
      {tid : ℕ}
      → Fits s (read_check tid)
      → 0 < count tid (s.shared_pending)
      → Matched (y.lock) s (read_check tid) (RwLock.acquire_read_check tid (y.lock))
  unfolding RwLock.acquire_read_check Next.step RwLockSpec.shared_finish
  acquire_read_check-Matched {tid} f p = elim (Bool-cases ((y.lock).exc_locked)) [
    | inl held ↦
        (y.lock, read_undo tid, s, rw held refl, inl refl, stays h (λ r. refl) (λ r. refl) refl f)
    | inr unheld ↦
        let (rest, e) = erase_total (s.shared_pending) tid p in
        let (t, st) = present (s.storage) (λ g. ground (arith, inv.stored, inv.locked, h.locked)) in
        (
          y.lock,
          read_held tid,
          record s { shared_pending = rest; shared_guard = (tid, t) ∷ s.shared_guard },
          rw unheld refl,
          inr (Next.shared_finish tid, rw (h.locked ∙ unheld, e, st) refl),
          record {
            user_inv = h.user_inv;
            storage = h.storage;
            locked = h.locked;
            width = h.width;
            same_width = refl;
            counts = h.counts;
            max = h.max;
            pending = λ r. omega (arith, count-erase (s.shared_pending) tid r e);
            guards = λ r. omega arith;
            writers = refl;
            fits = f;
            others = λ o w g. g;
          },
        )
  ]

  pub acquire_read_undo-Matched :
      {tid : ℕ}
      → Fits s (read_undo tid)
      → 0 < count tid (s.shared_pending)
      → Matched (y.lock) s (read_undo tid) (RwLock.acquire_read_undo tid (y.lock))
  unfolding RwLock.acquire_read_undo Next.step RwLockSpec.shared_abandon
  acquire_read_undo-Matched {tid} f p =
      let (rc, e) = lane f in
      let (rest, g) = erase_total (s.shared_pending) tid p in
      let pos : 0 < rc = omega (arith, inv.shared_counts_agree tid rc (h.counts tid ∙ e)) in
      let diff : wrapping_sub rc 1 ≡ rc - 1 = omega (arith, h.max tid rc e) in
      (
        record (y.lock) { ref_counts = set_at ((y.lock).ref_counts) tid (rc - 1) },
        read_load tid,
        record s { ref_counts = insert (s.ref_counts) tid (rc - 1); shared_pending = rest },
        rw (e, diff) refl,
        inr (Next.shared_abandon tid, ground (arith, h.counts tid)),
        record {
          user_inv = h.user_inv;
          storage = h.storage;
          locked = h.locked;
          width = h.width ∙ sym (length-set_at ((y.lock).ref_counts) tid (rc - 1));
          same_width = refl;
          counts = counts_set (s.ref_counts) ((y.lock).ref_counts) tid (rc - 1) h.counts e;
          max = max_set tid (rc - 1) (omega (arith, h.max tid rc e));
          pending = λ r. omega (arith, count-erase (s.shared_pending) tid r g);
          guards = λ r. refl;
          writers = refl;
          fits = f;
          others = λ o w k. k;
        },
      )

  pub release_read-Matched :
      {tid : ℕ}
      → Fits s (read_held tid)
      → 0 < filter_r (s.shared_guard) tid
      → Matched (y.lock) s (read_held tid) (RwLock.release_read tid (y.lock))
  unfolding RwLock.release_read Next.step RwLockSpec.shared_release
  release_read-Matched {tid} f p =
      let (rc, e) = lane f in
      let (i, t, g) = guard_of_lane (s.shared_guard) tid p in
      let pos : 0 < rc = omega (arith, inv.shared_counts_agree tid rc (h.counts tid ∙ e)) in
      let diff : wrapping_sub rc 1 ≡ rc - 1 = omega (arith, h.max tid rc e) in
      (
        record (y.lock) { ref_counts = set_at ((y.lock).ref_counts) tid (rc - 1) },
        idle,
        record s {
          shared_guard = remove_at i (s.shared_guard);
          ref_counts = insert (s.ref_counts) tid (rc - 1);
        },
        rw (e, diff) refl,
        inr (Next.shared_release i, rw (g, h.counts tid, e) refl),
        record {
          user_inv = h.user_inv;
          storage = h.storage;
          locked = h.locked;
          width = h.width ∙ sym (length-set_at ((y.lock).ref_counts) tid (rc - 1));
          same_width = refl;
          counts = counts_set (s.ref_counts) ((y.lock).ref_counts) tid (rc - 1) h.counts e;
          max = max_set tid (rc - 1) (omega (arith, h.max tid rc e));
          pending = λ r. refl;
          guards = λ r. omega (arith, filter_r-remove_at (s.shared_guard) i r g);
          writers = refl;
          fits = inv.width;
          others = λ o w k. k;
        },
      )
