-- ===== src/Linearization/Refinement.antt =====
-- spec/linearization.rs, `exists_equiv_behavior`: every run of the simple log is matched by a run of
-- the atomic data structure with the same requests and answers.
use verified_node_replicatio.Prelude.{
  ℕ, zero, suc, ◌+◌, ◌-◌, ◌≤◌, ◌<◌, ◌≡◌, ◌==◌, refl, inl, inr, Bool-cases, ==_iff, lt_of_lt_suc,
  length, Map, empty, insert, remove, arith,
}
use verified_node_replicatio.Dispatch.{Dispatch, AsyncLabel}
use verified_node_replicatio.SimpleLog
use verified_node_replicatio.SimpleLog.{
  readonly_starts, readonly_reads_version, readonly_finishes, update_starts, update_adds_op_to_log,
  update_incrs_version, update_finishes, compute_nrstate_at_version,
}
use verified_node_replicatio.SimpleLog.Enabled.{
  update_start_lem, update_add_op_to_log_lem, update_incr_version_lem, update_finish_lem,
}
use verified_node_replicatio.AsyncSingleton
use verified_node_replicatio.Behavior.{
  SimpleLogBehavior, AsynchronousSingletonBehavior, log_last, LogWf, singleton_last, SingletonWf,
  Equiv, both_inited, skip_log, skip_singleton, same,
}
use verified_node_replicatio.Linearization.Relation.{
  Served, Rel, FuturePointsOk, Simulated, unknown,
}
use verified_node_replicatio.Linearization.Answer.{answer}
use verified_node_replicatio.Linearization.Reads.{
  readonly_start_refines, readonly_read_version_refines, readonly_finish_refines,
}
use verified_node_replicatio.Linearization.Updates.{
  update_start_refines, update_add_op_to_log_refines, update_finish_refines,
}
use verified_node_replicatio.Linearization.Incr.{apply_next}
use verified_node_replicatio.Linearization.Future.{
  future_of_same, future_start, future_read_version, future_finish,
}

module _ {dt : Dispatch} where
  -- A run of the atomic data structure that matches `a` and stands in relation to `s`.
  record Matched (a : SimpleLogBehavior dt) (s : SimpleLog.State dt) (pts : Map ℕ) : Type 0 where
    b : AsynchronousSingletonBehavior dt
    wf : SingletonWf b
    equiv : Equiv a b
    rel : Rel s (singleton_last b) pts

  record Settled (a : SimpleLogBehavior dt) (s : SimpleLog.State dt) (pts : Map ℕ) : Type 0 where
    run : Matched a s pts
    served : (r : ℕ) → Served s (singleton_last (run.b)) pts r

  -- The reads below `k` that are due are answered, one internal step each.
  settle_below :
      {a : SimpleLogBehavior dt} {s : SimpleLog.State dt} {pts : Map ℕ} (k : ℕ)
      → Matched a s pts
      → (m : Matched a s pts) × ((r : ℕ) → r < k → Served s (singleton_last (m.b)) pts r)
  settle_below zero m = (m, λ r h. elim h [ ])
  settle_below {a} {s} {pts} (suc k) m =
      let (m', done) = settle_below k m in
      let last = answer (m'.rel) k in
      (
        record {
          b = AsynchronousSingletonBehavior.stepped (last.next_state) AsyncLabel.internal (m'.b);
          wf = (m'.wf, last.next);
          equiv = skip_singleton (m'.equiv);
          rel = last.rel;
        },
        λ r h. elim (Bool-cases (k == r)) [
          | inl here ↦ rw (← (==_iff k r).0 here) (last.here)
          | inr other ↦ λ ver o e p. last.kept r (done r (lt_of_lt_suc k r other h) ver o e p)
        ],
      )

  settle :
      {a : SimpleLogBehavior dt} {s : SimpleLog.State dt} {pts : Map ℕ}
      → FuturePointsOk s pts
      → Matched a s pts
      → Settled a s pts
  settle fut m =
      let (m', done) = settle_below (fut.bound) m in
      record { run = m'; served = λ r ver o e p. done r (fut.bounded r _ p) ver o e p }

  -- The version grows one by one (`update_incr_version_refines`).
  grow :
      {a : SimpleLogBehavior dt} {s : SimpleLog.State dt} {pts : Map ℕ} (k v : ℕ)
      → v ≡ k + s.version
      → v ≤ length (s.log)
      → FuturePointsOk (record s { version = v }) pts
      → Settled a s pts
      → Settled a (record s { version = v }) pts
  grow {s} zero v e le fut m = let e' : v ≡ s.version = omega arith in rw e' m
  grow {a} {s} {pts} (suc k) v e le fut m =
      let v' : ℕ = k + s.version in
      let e' : v ≡ suc v' = omega arith in
      let fut' : FuturePointsOk (record s { version = v' }) pts =
        future_of_same (λ r. refl) (omega arith) fut in
      let before = grow k v' refl (omega arith) fut' m in
      let after = rw e' at fut in
      let step = apply_next (omega arith) after (before.run.rel) (before.served) in
      rw e' (
        settle after (record {
          b =
              AsynchronousSingletonBehavior.stepped (step.next_state) AsyncLabel.internal
                (before.run.b);
          wf = (before.run.wf, step.next);
          equiv = skip_singleton (before.run.equiv);
          rel = step.rel;
        }))

  -- One step of the simple log, matched by one step.
  one_step :
      {a : SimpleLogBehavior dt} {s s0 : SimpleLog.State dt} {l : AsyncLabel dt} {pts pts0 : Map ℕ}
      (m : Settled a s0 pts0)
      → Simulated (singleton_last (m.run.b)) l s pts
      → Settled (SimpleLogBehavior.stepped s l a) s pts
  one_step {l} m sim = record {
    run = record {
      b = AsynchronousSingletonBehavior.stepped (sim.next_state) l (m.run.b);
      wf = (m.run.wf, sim.next);
      equiv = same (m.run.equiv);
      rel = sim.rel;
    };
    served = sim.served;
  }

  silent :
      {a : SimpleLogBehavior dt} {s : SimpleLog.State dt} {pts : Map ℕ}
      → Settled a s pts
      → Settled (SimpleLogBehavior.stepped s AsyncLabel.internal a) s pts
  silent m = record {
    run = record { b = m.run.b; wf = m.run.wf; equiv = skip_log (m.run.equiv); rel = m.run.rel };
    served = m.served;
  }

  Next-Settled :
      {a : SimpleLogBehavior dt} {s : SimpleLog.State dt} {l : AsyncLabel dt}
      {s2 : SimpleLog.State dt} {pts : Map ℕ}
      → SimpleLog.Next s l s2
      → ((pts : Map ℕ) → FuturePointsOk s pts → Settled a s pts)
      → FuturePointsOk s2 pts
      → Settled (SimpleLogBehavior.stepped s2 l a) s2 pts
  Next-Settled {pts} (readonly_starts rid o e) earlier fut =
      let m = earlier (remove pts rid) (future_start rid o e fut) in
      one_step m (readonly_start_refines rid o e fut (m.run.rel) (m.served))
  Next-Settled {pts} (readonly_reads_version rid e) earlier fut =
      let m = earlier pts (future_read_version rid e fut) in
      one_step m (readonly_read_version_refines rid e (m.run.rel) (m.served))
  Next-Settled {pts} (readonly_finishes rid version e) earlier fut =
      let m = earlier (insert pts rid version) (future_finish rid version e fut) in
      one_step m (readonly_finish_refines rid version e (m.run.rel) (m.served))
  Next-Settled {s} {pts} (update_starts rid o e) earlier fut =
      let (_, eq) = update_start_lem rid o s e in
      let m = earlier pts (future_of_same (λ r. ground (arith)) (ground arith) fut) in
      one_step m (update_start_refines rid o e (m.run.rel) (m.served))
  Next-Settled {s} {pts} (update_adds_op_to_log rid e) earlier fut =
      let (_, _, eq) = update_add_op_to_log_lem rid s e in
      let m = earlier pts (future_of_same (λ r. ground (arith)) (ground arith) fut) in
      one_step m (update_add_op_to_log_refines rid e (m.run.rel) (m.served))
  Next-Settled {s} {pts} (update_finishes rid e) earlier fut =
      let (_, _, _, _, _, _, eq) = update_finish_lem rid s e in
      let m = earlier pts (future_of_same (λ r. ground (arith)) (ground arith) fut) in
      one_step m (update_finish_refines rid e (m.run.rel) (m.served))
  Next-Settled {s} {pts} (update_incrs_version v e) earlier fut =
      let (lo, hi, eq) = update_incr_version_lem v s e in
      let m = earlier pts (future_of_same (λ r. ground (arith)) (ground arith) fut) in
      rw eq (silent (grow (v - s.version) v (omega arith) hi (rw eq at fut) m))
  Next-Settled {pts} SimpleLog.no_op earlier fut = silent (earlier pts fut)

  initialize-Settled :
      (pts : Map ℕ)
      → Settled (SimpleLogBehavior.inited (SimpleLog.initialize dt)) (SimpleLog.initialize dt) pts
  unfolding SimpleLog.initialize AsyncSingleton.initialize compute_nrstate_at_version
  initialize-Settled pts = record {
    run = record {
      b = AsynchronousSingletonBehavior.inited (AsyncSingleton.initialize dt);
      wf = refl;
      equiv = both_inited;
      rel = record {
        version_le = omega arith;
        state_eq = refl;
        covered = λ v h k. absurd (omega arith);
        unique = λ i j u e f. cc;
        rids = λ r.
            unknown
              (record { no_rd = refl; no_uq = refl; no_up = refl; no_rq = refl; no_rp = refl });
      };
    };
    served = λ r ver o e p. refl;
  }

  matched :
      (a : SimpleLogBehavior dt)
      → LogWf a
      → (pts : Map ℕ) → FuturePointsOk (log_last a) pts
      → Settled a (log_last a) pts
  matched (SimpleLogBehavior.inited s) wf pts fut = rw wf (initialize-Settled pts)
  matched (SimpleLogBehavior.stepped s l a) wf pts fut =
      Next-Settled wf.1 (λ p f. matched a wf.0 p f) fut

  -- For every run of the simple log there is a run of the atomic data structure that differs from
  -- it in internal steps alone: each client sees the same requests and the same answers.
  pub exists_Equiv_behavior :
      (a : SimpleLogBehavior dt)
      → LogWf a
      → (b : AsynchronousSingletonBehavior dt) × SingletonWf b × Equiv a b
  exists_Equiv_behavior a wf =
      let m =
        matched a wf empty
          (record { bound = 0; bounded = λ r v e. cc; future = λ r v q e f. cc }) in
      (m.run.b, m.run.wf, m.run.equiv)
