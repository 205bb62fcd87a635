-- ===== src/Linearization/Reads.antt =====
-- spec/linearization.rs: the read-only transitions of the simple log, each matched by a step of the
-- atomic data structure.
use verified_node_replicatio.Prelude.{
  ℕ, ◌≤◌, ◌≡◌, ◌==◌, inl, inr, Bool-cases, ==_iff, Option, none, some, List, Map, insert,
  insert_self, remove, ap, ◌∙◌, arith,
}
use verified_node_replicatio.Dispatch.{Dispatch, InputOperation, OutputOperation, AsyncLabel}
use verified_node_replicatio.SimpleLog
use verified_node_replicatio.SimpleLog.{
  ReadReq, UpdateResp, compute_nrstate_at_version, readonly_start, readonly_read_version,
  readonly_finish,
}
use verified_node_replicatio.SimpleLog.Enabled.{
  IsFresh, readonly_start_lem, readonly_read_version_lem, readonly_finish_lem,
}
use verified_node_replicatio.AsyncSingleton
use verified_node_replicatio.AsyncSingleton.{internal_next, starts, ends}
use verified_node_replicatio.Linearization.Relation.{
  FuturePointsOk, RidRel, unknown, read_pending, read_answered, update_waiting, update_logged,
  update_applied, Served, Rel, Simulated,
}
use verified_node_replicatio.Linearization.Answer.{answer}

module _ {dt : Dispatch} where
  -- A read without a version is pending.
  init_point :
      {log : List (dt.WriteOperation)} {version : ℕ} {rd : Option (ReadReq (dt.ReadOperation))}
      {uq : Option (dt.WriteOperation)} {up : Option UpdateResp} {rq : Option (InputOperation dt)}
      {rp : Option (OutputOperation dt)} {pt : Option ℕ} {o : dt.ReadOperation}
      → RidRel log version rd uq up rq rp pt
      → rd ≡ some (ReadReq.init o)
      → (v : ℕ) → pt ≡ some v
      → version ≤ v
  init_point (read_pending h) e v p = h.point v p
  init_point (unknown h) e v p = cc (h.no_rd)
  init_point (read_answered h) e v p = cc (h.the_rd)
  init_point (update_waiting h) e v p = cc (h.no_rd)
  init_point (update_logged h) e v p = cc (h.no_rd)
  init_point (update_applied h) e v p = cc (h.no_rd)

  RidRel-fresh :
      {log : List (dt.WriteOperation)} {version : ℕ} {rd : Option (ReadReq (dt.ReadOperation))}
      {uq : Option (dt.WriteOperation)} {up : Option UpdateResp} {rq : Option (InputOperation dt)}
      {rp : Option (OutputOperation dt)} {pt : Option ℕ}
      → RidRel log version rd uq up rq rp pt
      → rd ≡ none
      → uq ≡ none
      → up ≡ none
      → (rq ≡ none) × (rp ≡ none)
  RidRel-fresh h a b c = ground arith

  -- A fresh request id is unknown to the atomic data structure, too.
  pub fresh_unknown :
      {s : SimpleLog.State dt} {t : AsyncSingleton.State dt} {pts : Map ℕ}
      → Rel s t pts
      → (rid : ℕ) → IsFresh s rid
      → (t.reqs rid ≡ none) × (t.resps rid ≡ none)
  fresh_unknown rel rid f = RidRel-fresh (rel.rids rid) (f.no_read) (f.no_update) (f.no_resp)

  pub readonly_start_refines :
      (rid : ℕ) (o : dt.ReadOperation) {s s2 : SimpleLog.State dt} {t : AsyncSingleton.State dt}
      {pts : Map ℕ}
      → readonly_start rid o s ≡ some s2
      → FuturePointsOk s2 pts
      → Rel s t (remove pts rid)
      → ((r : ℕ) → Served s t (remove pts rid) r)
      → Simulated t (AsyncLabel.start rid (InputOperation.read o)) s2 pts
  unfolding AsyncSingleton.start
  readonly_start_refines rid o {s} {s2} {t} {pts} e fut rel served =
      let (f, eq) = readonly_start_lem rid o s e in
      let (no_rq, no_rp) = fresh_unknown rel rid f in
      record {
        next_state = record t { reqs = insert (t.reqs) rid (InputOperation.read o) };
        next = starts rid _ (ground arith);
        rel = record {
          version_le = rw eq (rel.version_le);
          state_eq = rw eq (rel.state_eq);
          covered = rw eq (rel.covered);
          unique = rw eq (rel.unique);
          rids = λ r. elim (Bool-cases (rid == r)) [
            | inl same ↦ read_pending (record {
              q = ReadReq.init o;
              the_rd = ground arith;
              no_uq = ground arith;
              no_up = ground arith;
              the_rq = ground arith;
              no_rp = ground arith;
              point = λ v h. ground (arith, fut.future rid v (ReadReq.init o));
            })
            | inr other ↦ rw (eq, other) (rw other at (rel.rids r))
          ];
        };
        served = λ r ver q h p. ground (arith, served r ver q);
      }

  -- The recorded version changes what is due, and nothing else.
  read_version-Rel :
      {s : SimpleLog.State dt} {t : AsyncSingleton.State dt} {pts : Map ℕ} (rid : ℕ)
      (o : dt.ReadOperation)
      → s.readonly_reqs rid ≡ some (ReadReq.init o)
      → Rel s t pts
      → Rel
          (record s { readonly_reqs = insert (s.readonly_reqs) rid (ReadReq.req (s.version) o) })
          t
          pts
  read_version-Rel {s} {t} {pts} rid o old rel = record {
    version_le = rel.version_le;
    state_eq = rel.state_eq;
    covered = rel.covered;
    unique = rel.unique;
    rids = λ r. elim (Bool-cases (rid == r)) [
      | inl same ↦ read_pending (record {
        q = ReadReq.req (s.version) o;
        the_rd = ground arith;
        no_uq = ground (arith, rel.rids rid);
        no_up = ground (arith, rel.rids rid);
        the_rq = ground (arith, rel.rids rid);
        no_rp = ground (arith, rel.rids rid);
        point = rw (← (==_iff rid r).0 same) (init_point (rel.rids rid) old);
      })
      | inr other ↦ rw other (rel.rids r)
    ];
  }

  -- A read whose point is the present version is answered at this very step.
  pub readonly_read_version_refines :
      (rid : ℕ) {s s2 : SimpleLog.State dt} {t : AsyncSingleton.State dt} {pts : Map ℕ}
      → readonly_read_version rid s ≡ some s2
      → Rel s t pts
      → ((r : ℕ) → Served s t pts r)
      → Simulated t AsyncLabel.internal s2 pts
  readonly_read_version_refines rid {s} {s2} {t} {pts} e rel served =
      let (o, old, eq) = readonly_read_version_lem rid s e in
      let done = answer (read_version-Rel rid o old rel) rid in
      rw eq (record {
        next_state = done.next_state;
        next = done.next;
        rel = done.rel;
        served = λ r. elim (Bool-cases (rid == r)) [
          | inl same ↦ rw (← (==_iff rid r).0 same) (done.here)
          | inr other ↦ λ ver q h p. done.kept r (served r ver q (rw other at h) p)
        ];
      })

  finish-Rel :
      {s : SimpleLog.State dt} {t : AsyncSingleton.State dt} {pts : Map ℕ} (rid version : ℕ)
      → Rel s t (insert pts rid version)
      → (s.update_reqs rid ≡ none) × (s.update_resps rid ≡ none) × (t.reqs rid ≡ none)
      → Rel
          (record s { readonly_reqs = remove (s.readonly_reqs) rid })
          (record t { resps = remove (t.resps) rid })
          pts
  finish-Rel {s} {t} {pts} rid version rel none_left = record {
    version_le = rel.version_le;
    state_eq = rel.state_eq;
    covered = rel.covered;
    unique = rel.unique;
    rids = λ r. elim (Bool-cases (rid == r)) [
      | inl same ↦ unknown (record {
        no_rd = ground arith;
        no_uq = ground arith;
        no_up = ground arith;
        no_rq = ground arith;
        no_rp = ground arith;
      })
      | inr other ↦ rw other (rw other at (rel.rids r))
    ];
  }

  -- What the atomic data structure holds for a read that may finish at `v`.
  finished_answer :
      {log : List (dt.WriteOperation)} {version : ℕ} {rd : Option (ReadReq (dt.ReadOperation))}
      {uq : Option (dt.WriteOperation)} {up : Option UpdateResp} {rq : Option (InputOperation dt)}
      {rp : Option (OutputOperation dt)} {pt : Option ℕ} {cur v : ℕ} {o : dt.ReadOperation}
      → RidRel log version rd uq up rq rp pt
      → rd ≡ some (ReadReq.req cur o)
      → pt ≡ some v
      → v ≤ version
      → (v ≡ version → rq ≡ none)
      → (uq ≡ none)
        × (up ≡ none)
        × (rq ≡ none)
        × (rp
            ≡ some
                (OutputOperation.read (dt.dispatch_spec (compute_nrstate_at_version dt log v) o)))
  finished_answer {v} (read_pending h) e p le served = ground (arith, h.point v)
  finished_answer {v} (read_answered h) e p le served = ground (arith, h.answer v)
  finished_answer (unknown h) e p le served = cc (h.no_rd)
  finished_answer (update_waiting h) e p le served = cc (h.no_rd)
  finished_answer (update_logged h) e p le served = cc (h.no_rd)
  finished_answer (update_applied h) e p le served = cc (h.no_rd)

  pub readonly_finish_refines :
      (rid version : ℕ) {s s2 : SimpleLog.State dt} {ret : dt.Response}
      {t : AsyncSingleton.State dt} {pts : Map ℕ}
      → readonly_finish rid version s ≡ some (ret, s2)
      → Rel s t (insert pts rid version)
      → ((r : ℕ) → Served s t (insert pts rid version) r)
      → Simulated t (AsyncLabel.end rid (OutputOperation.read ret)) s2 pts
  unfolding AsyncSingleton.end
  readonly_finish_refines rid version {s} {s2} {ret} {t} {pts} e rel served =
      let (cur, o, h, _, le, ret_eq, eq) = readonly_finish_lem rid version s e in
      let (no_uq, no_up, no_rq, out) =
        finished_answer (rel.rids rid) h (insert_self pts rid version) le
          (λ q. served rid cur o h (insert_self pts rid version ∙ ap some q)) in
      rw (eq, ret_eq)
        (record {
          next_state = record t { resps = remove (t.resps) rid };
          next = ends rid (ground arith);
          rel = finish-Rel rid version rel (no_uq, no_up, no_rq);
          served = λ r ver q k p. ground (arith, served r ver q);
        })
