-- ===== src/Linearization/Updates.antt =====
-- spec/linearization.rs: the update transitions of the simple log, but for the growth of its version.
use verified_node_replicatio.Prelude.{
  ℕ, ◌≤◌, ◌<◌, ◌≡◌, ◌==◌, inl, inr, Bool-cases, Option, none, some, List, length, get_elem?, push,
  length-push, get_elem?-push_lt, get_elem?-push_self, get_elem?-lt, Map, insert, remove, ◌∙◌,
  arith,
}
use native.Mathlib.Decide.{dec_lt}
use verified_node_replicatio.Dispatch.{Dispatch, InputOperation, OutputOperation, AsyncLabel}
use verified_node_replicatio.SimpleLog
use verified_node_replicatio.SimpleLog.{
  ReadReq, UpdateResp, compute_nrstate_at_version, update_start, update_add_op_to_log,
  update_finish,
}
use verified_node_replicatio.SimpleLog.Enabled.{
  update_start_lem, update_add_op_to_log_lem, update_finish_lem, logged,
}
use verified_node_replicatio.SimpleLog.Version.{compute-push}
use verified_node_replicatio.AsyncSingleton
use verified_node_replicatio.AsyncSingleton.{starts, ends, no_op}
use verified_node_replicatio.Linearization.Relation.{
  RidRel, unknown, read_pending, read_answered, update_waiting, update_logged, update_applied,
  Served, Rel, Simulated, result,
}
use verified_node_replicatio.Linearization.Reads.{fresh_unknown}

module _ {dt : Dispatch} where
  pub update_start_refines :
      (rid : ℕ) (o : dt.WriteOperation) {s s2 : SimpleLog.State dt} {t : AsyncSingleton.State dt}
      {pts : Map ℕ}
      → update_start rid o s ≡ some s2
      → Rel s t pts
      → ((r : ℕ) → Served s t pts r)
      → Simulated t (AsyncLabel.start rid (InputOperation.write o)) s2 pts
  unfolding AsyncSingleton.start
  update_start_refines rid o {s} {s2} {t} {pts} e rel served =
      let (f, eq) = update_start_lem rid o s e in
      let (no_rq, no_rp) = fresh_unknown rel rid f in
      rw eq (record {
        next_state = record t { reqs = insert (t.reqs) rid (InputOperation.write o) };
        next = starts rid _ (ground arith);
        rel = record {
          version_le = rel.version_le;
          state_eq = rel.state_eq;
          covered = rel.covered;
          unique = rel.unique;
          rids = λ r. elim (Bool-cases (rid == r)) [
            | inl same ↦ update_waiting (record {
              o = o;
              no_rd = ground arith;
              the_uq = ground arith;
              no_up = ground arith;
              the_rq = ground arith;
              no_rp = ground arith;
            })
            | inr other ↦ rw other (rel.rids r)
          ];
        };
        served = λ r ver q h p. ground (arith, served r ver q);
      })

  -- A longer log changes nothing for the requests that are known.
  RidRel-push :
      {log : List (dt.WriteOperation)} {version : ℕ} {rd : Option (ReadReq (dt.ReadOperation))}
      {uq : Option (dt.WriteOperation)} {up : Option UpdateResp} {rq : Option (InputOperation dt)}
      {rp : Option (OutputOperation dt)} {pt : Option ℕ} (x : dt.WriteOperation)
      → version ≤ length log
      → RidRel log version rd uq up rq rp pt
      → RidRel (push log x) version rd uq up rq rp pt
  RidRel-push x le (unknown h) = unknown h
  RidRel-push x le (read_pending h) = read_pending h
  RidRel-push {log} x le (read_answered h) = read_answered (record {
    ver = h.ver;
    o = h.o;
    out = h.out;
    the_rd = h.the_rd;
    no_uq = h.no_uq;
    no_up = h.no_up;
    no_rq = h.no_rq;
    the_rp = h.the_rp;
    point = h.point;
    answer = λ v p. ground (arith, h.answer v p, h.point v p, compute-push dt log x v);
  })
  RidRel-push x le (update_waiting h) = update_waiting h
  RidRel-push {log} x le (update_logged h) = update_logged (record {
    u = h.u;
    o = h.o;
    no_rd = h.no_rd;
    no_uq = h.no_uq;
    the_up = h.the_up;
    due = h.due;
    entry = get_elem?-push_lt log x (h.u.idx) (get_elem?-lt log (h.u.idx) (h.entry)) ∙ h.entry;
    the_rq = h.the_rq;
    no_rp = h.no_rp;
  })
  RidRel-push {log} x le (update_applied h) = update_applied (record {
    u = h.u;
    o = h.o;
    no_rd = h.no_rd;
    no_uq = h.no_uq;
    the_up = h.the_up;
    past = h.past;
    entry = get_elem?-push_lt log x (h.u.idx) (get_elem?-lt log (h.u.idx) (h.entry)) ∙ h.entry;
    no_rq = h.no_rq;
    the_rp = ground (arith, h.the_rp, h.past, compute-push dt log x (h.u.idx));
  })

  -- A request for an update that is not in the log is pending.
  waiting_parts :
      {log : List (dt.WriteOperation)} {version : ℕ} {rd : Option (ReadReq (dt.ReadOperation))}
      {uq : Option (dt.WriteOperation)} {up : Option UpdateResp} {rq : Option (InputOperation dt)}
      {rp : Option (OutputOperation dt)} {pt : Option ℕ} {o : dt.WriteOperation}
      → RidRel log version rd uq up rq rp pt
      → uq ≡ some o
      → (rd ≡ none) × (up ≡ none) × (rq ≡ some (InputOperation.write o)) × (rp ≡ none)
  waiting_parts h e = ground arith

  -- A response stands for an operation of the log.
  pub entry_lt :
      {log : List (dt.WriteOperation)} {version : ℕ} {rd : Option (ReadReq (dt.ReadOperation))}
      {uq : Option (dt.WriteOperation)} {up : Option UpdateResp} {rq : Option (InputOperation dt)}
      {rp : Option (OutputOperation dt)} {pt : Option ℕ} (u : UpdateResp)
      → RidRel log version rd uq up rq rp pt
      → up ≡ some u
      → u.idx < length log
  entry_lt {log} u (update_logged h) e = ground (arith, get_elem?-lt log (u.idx) {a = h.o})
  entry_lt {log} u (update_applied h) e = ground (arith, get_elem?-lt log (u.idx) {a = h.o})
  entry_lt u (unknown h) e = cc (h.no_up)
  entry_lt u (read_pending h) e = cc (h.no_up)
  entry_lt u (read_answered h) e = cc (h.no_up)
  entry_lt u (update_waiting h) e = cc (h.no_up)

  logged-Rel :
      {s : SimpleLog.State dt} {t : AsyncSingleton.State dt} {pts : Map ℕ} (rid : ℕ)
      (o : dt.WriteOperation)
      → s.update_reqs rid ≡ some o
      → Rel s t pts
      → Rel (logged s rid o) t pts
  logged-Rel {s} {t} {pts} rid o e rel =
      let (no_rd, no_up, the_rq, no_rp) = waiting_parts (rel.rids rid) e in
      record {
        version_le = omega (arith, length-push (s.log) o, rel.version_le);
        state_eq =
            ground (arith, rel.state_eq, rel.version_le, compute-push dt (s.log) o (s.version));
        covered = λ v h k. elim (dec_lt v (length (s.log))) [
          | yes old ↦ let (r, f) = rel.covered v h old in (r, ground arith)
          | no new ↦ (rid, ground (arith, length-push (s.log) o))
        ];
        unique = λ i j u f g.
            ground (arith, rel.unique i j u, entry_lt u (rel.rids i), entry_lt u (rel.rids j));
        rids = λ r. elim (Bool-cases (rid == r)) [
          | inl same ↦ update_logged (record {
            u = record { idx = length (s.log) };
            o = o;
            no_rd = ground arith;
            no_uq = ground arith;
            the_up = ground arith;
            due = rel.version_le;
            entry = get_elem?-push_self (s.log) o;
            the_rq = ground arith;
            no_rp = ground arith;
          })
          | inr other ↦ rw other (RidRel-push o (rel.version_le) (rel.rids r))
        ];
      }

  pub update_add_op_to_log_refines :
      (rid : ℕ) {s s2 : SimpleLog.State dt} {t : AsyncSingleton.State dt} {pts : Map ℕ}
      → update_add_op_to_log rid s ≡ some s2
      → Rel s t pts
      → ((r : ℕ) → Served s t pts r)
      → Simulated t AsyncLabel.internal s2 pts
  update_add_op_to_log_refines rid {s} {s2} {t} {pts} e rel served =
      let (o, h, eq) = update_add_op_to_log_lem rid s e in
      rw eq (record { next_state = t; next = no_op; rel = logged-Rel rid o h rel; served = served })

  -- What the atomic data structure holds for an update below the version.
  applied_parts :
      {log : List (dt.WriteOperation)} {version : ℕ} {rd : Option (ReadReq (dt.ReadOperation))}
      {uq : Option (dt.WriteOperation)} {up : Option UpdateResp} {rq : Option (InputOperation dt)}
      {rp : Option (OutputOperation dt)} {pt : Option ℕ} {u : UpdateResp} {o : dt.WriteOperation}
      → RidRel log version rd uq up rq rp pt
      → up ≡ some u
      → u.idx < version
      → get_elem? log (u.idx) ≡ some o
      → (rd ≡ none) × (uq ≡ none) × (rq ≡ none) × (rp ≡ some (result log (u.idx) o))
  applied_parts {log} {u} (update_applied h) e lt f = ground arith
  applied_parts (update_logged h) e lt f = ground arith
  applied_parts (unknown h) e lt f = cc (h.no_up)
  applied_parts (read_pending h) e lt f = cc (h.no_up)
  applied_parts (read_answered h) e lt f = cc (h.no_up)
  applied_parts (update_waiting h) e lt f = cc (h.no_up)

  pub update_finish_refines :
      (rid : ℕ) {s s2 : SimpleLog.State dt} {ret : dt.Response} {t : AsyncSingleton.State dt}
      {pts : Map ℕ}
      → update_finish rid s ≡ some (ret, s2)
      → Rel s t pts
      → ((r : ℕ) → Served s t pts r)
      → Simulated t (AsyncLabel.end rid (OutputOperation.write ret)) s2 pts
  unfolding AsyncSingleton.end
  update_finish_refines rid {s} {s2} {ret} {t} {pts} e rel served =
      let (u, o, h, lt, entry, ret_eq, eq) = update_finish_lem rid s e in
      let (no_rd, no_uq, no_rq, the_rp) = applied_parts (rel.rids rid) h lt entry in
      rw (eq, ret_eq)
        (record {
          next_state = record t { resps = remove (t.resps) rid };
          next = ends rid (ground arith);
          rel = record {
            version_le = rel.version_le;
            state_eq = rel.state_eq;
            covered = λ v f g. let (r, k) = rel.covered v f g in (r, ground arith);
            unique = λ i j w f g. ground (arith, rel.unique i j w);
            rids = λ r. elim (Bool-cases (rid == r)) [
              | inl same ↦ unknown (record {
                no_rd = ground arith;
                no_uq = ground arith;
                no_up = ground arith;
                no_rq = ground arith;
                no_rp = ground arith;
              })
              | inr other ↦ rw other (rel.rids r)
            ];
          };
          served = served;
        })
