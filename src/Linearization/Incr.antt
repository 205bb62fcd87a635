-- ===== src/Linearization/Incr.antt =====
-- spec/linearization.rs, `update_incr_version_1_refines`: a version that grows by one applies the
-- update that stands there, and then makes reads due.
use verified_node_replicatio.Prelude.{
  ℕ, suc, ◌<◌, ◌≡◌, ◌==◌, ◌≢◌, inl, inr, Bool-cases, Option, none, some, List, length, get_elem?,
  Map, insert, remove, ap, sym, ◌∙◌, arith,
}
use verified_node_replicatio.Dispatch.{Dispatch, InputOperation, OutputOperation, AsyncLabel}
use verified_node_replicatio.SimpleLog
use verified_node_replicatio.SimpleLog.{ReadReq, UpdateResp, compute_nrstate_at_version}
use verified_node_replicatio.SimpleLog.Version.{compute-suc}
use verified_node_replicatio.AsyncSingleton
use verified_node_replicatio.AsyncSingleton.{internal_next, internal_nexts}
use verified_node_replicatio.Linearization.Relation.{
  RidRel, unknown, read_pending, read_answered, update_waiting, update_logged, update_applied,
  Served, Rel, FuturePointsOk,
}

module _ {dt : Dispatch} where
  RidRel-suc :
      {log : List (dt.WriteOperation)} {version : ℕ} {rd : Option (ReadReq (dt.ReadOperation))}
      {uq : Option (dt.WriteOperation)} {up : Option UpdateResp} {rq : Option (InputOperation dt)}
      {rp : Option (OutputOperation dt)} {pt : Option ℕ}
      → up ≢ some (record { idx = version })
      → ((q : ReadReq (dt.ReadOperation)) (v : ℕ)
          → rd ≡ some q
          → pt ≡ some v
          → rq ≢ none
          → version ≢ v)
      → RidRel log version rd uq up rq rp pt
      → RidRel log (suc version) rd uq up rq rp pt
  RidRel-suc free later (unknown h) = unknown h
  RidRel-suc free later (update_waiting h) = update_waiting h
  RidRel-suc free later (read_pending h) = read_pending (record {
    q = h.q;
    the_rd = h.the_rd;
    no_uq = h.no_uq;
    no_up = h.no_up;
    the_rq = h.the_rq;
    no_rp = h.no_rp;
    point = λ v p. ground (arith, h.point v p, later (h.q) v (h.the_rd) p);
  })
  RidRel-suc free later (read_answered h) = read_answered (record {
    ver = h.ver;
    o = h.o;
    out = h.out;
    the_rd = h.the_rd;
    no_uq = h.no_uq;
    no_up = h.no_up;
    no_rq = h.no_rq;
    the_rp = h.the_rp;
    point = λ v p. omega (arith, h.point v p);
    answer = h.answer;
  })
  RidRel-suc free later (update_logged h) = update_logged (record {
    u = h.u;
    o = h.o;
    no_rd = h.no_rd;
    no_uq = h.no_uq;
    the_up = h.the_up;
    due = ground (arith, h.due, h.the_up);
    entry = h.entry;
    the_rq = h.the_rq;
    no_rp = h.no_rp;
  })
  RidRel-suc free later (update_applied h) = update_applied (record {
    u = h.u;
    o = h.o;
    no_rd = h.no_rd;
    no_uq = h.no_uq;
    the_up = h.the_up;
    past = omega (arith, h.past);
    entry = h.entry;
    no_rq = h.no_rq;
    the_rp = h.the_rp;
  })

  -- The operation at the version, which a request waits for.
  logged_parts :
      {log : List (dt.WriteOperation)} {version : ℕ} {rd : Option (ReadReq (dt.ReadOperation))}
      {uq : Option (dt.WriteOperation)} {up : Option UpdateResp} {rq : Option (InputOperation dt)}
      {rp : Option (OutputOperation dt)} {pt : Option ℕ}
      → RidRel log version rd uq up rq rp pt
      → up ≡ some (record { idx = version })
      → (o : dt.WriteOperation) × (rd ≡ none)
        × (uq ≡ none)
        × (get_elem? log version ≡ some o)
        × (rq ≡ some (InputOperation.write o))
  logged_parts (update_logged h) e = (h.o, h.no_rd, h.no_uq, ground (arith, h.the_up), h.the_rq)
  logged_parts (update_applied h) e = absurd (ground (arith, h.past, h.the_up))
  logged_parts (unknown h) e = cc (h.no_up)
  logged_parts (read_pending h) e = cc (h.no_up)
  logged_parts (read_answered h) e = cc (h.no_up)
  logged_parts (update_waiting h) e = cc (h.no_up)

  -- A pending read is not due at the present version.
  not_due :
      {s : SimpleLog.State dt} (t : AsyncSingleton.State dt) {pts : Map ℕ} {r : ℕ}
      → FuturePointsOk (record s { version = suc (s.version) }) pts
      → Served s t pts r
      → (q : ReadReq (dt.ReadOperation)) (v : ℕ) → s.readonly_reqs r ≡ some q
      → pts r ≡ some v
      → t.reqs r ≢ none
      → s.version ≢ v
  not_due t {r} fut served (ReadReq.init o) v e p f same =
      omega (arith, fut.future r v (ReadReq.init o) p e)
  not_due t fut served (ReadReq.req ver o) v e p f same =
      f (served ver o e (p ∙ ap some (sym same)))

  -- The state after the atomic data structure has executed `o` for `rid`.
  abbrev applied : AsyncSingleton.State dt → ℕ → dt.WriteOperation → AsyncSingleton.State dt
  applied t rid o = record {
    state = (dt.dispatch_mut_spec (t.state) o).0;
    reqs = remove (t.reqs) rid;
    resps = insert (t.resps) rid (OutputOperation.write (dt.dispatch_mut_spec (t.state) o).1);
  }

  -- One step with which the atomic data structure follows a growth of the version by one.
  pub record Applied (s : SimpleLog.State dt) (t : AsyncSingleton.State dt) (pts : Map ℕ)
      : Type 0 where
    pub next_state : AsyncSingleton.State dt
    pub next : AsyncSingleton.Next t AsyncLabel.internal next_state
    pub rel : Rel (record s { version = suc (s.version) }) next_state pts

  pub apply_next :
      {s : SimpleLog.State dt} {t : AsyncSingleton.State dt} {pts : Map ℕ}
      → s.version < length (s.log)
      → FuturePointsOk (record s { version = suc (s.version) }) pts
      → Rel s t pts
      → ((r : ℕ) → Served s t pts r)
      → Applied s t pts
  unfolding internal_next AsyncSingleton.apply
  apply_next {s} {t} {pts} lt fut rel served =
      let (rid, up) = rel.covered (s.version) (omega arith) lt in
      let (o, no_rd, no_uq, entry, the_rq) = logged_parts (rel.rids rid) up in
      record {
        next_state = applied t rid o;
        next = internal_nexts rid (ground arith);
        rel = record {
          version_le = lt;
          state_eq = ground (arith, rel.state_eq, compute-suc dt (s.log) (s.version) entry);
          covered = λ v h k. rel.covered v (omega arith) k;
          unique = rel.unique;
          rids = λ r. elim (Bool-cases (rid == r)) [
            | inl same ↦ update_applied (record {
              u = record { idx = s.version };
              o = o;
              no_rd = ground arith;
              no_uq = ground arith;
              the_up = ground arith;
              past = omega arith;
              entry = entry;
              no_rq = ground arith;
              the_rp = ground (arith, rel.state_eq);
            })
            | inr other ↦ rw other (
                RidRel-suc (λ e. ground (arith, rel.unique rid r (record { idx = s.version })))
                  (not_due t fut (served r)) (rel.rids r))
          ];
        };
      }
