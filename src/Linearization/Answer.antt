-- ===== src/Linearization/Answer.antt =====
-- spec/linearization.rs, `update_incr_version_1_read_reqs`: the reads that are due at the present
-- version are answered one after the other by internal steps of the atomic data structure.
use verified_node_replicatio.Prelude.{
  ℕ, ◌≡◌, ◌==◌, Bool, true, false, refl, inl, inr, Bool-cases, Option, none, some, Map, insert,
  remove, arith,
}
use verified_node_replicatio.Dispatch.{Dispatch, InputOperation, OutputOperation, AsyncLabel}
use verified_node_replicatio.SimpleLog
use verified_node_replicatio.SimpleLog.{ReadReq, compute_nrstate_at_version}
use verified_node_replicatio.AsyncSingleton
use verified_node_replicatio.AsyncSingleton.{internal_next, internal_nexts, no_op}
use verified_node_replicatio.Linearization.Relation.{read_answered, Served, Rel}

-- The read is in flight with a version, its point is the present version, and it is not answered.
is_due_at : {R I : Type 0} → Option (ReadReq R) → Option ℕ → Option I → ℕ → Bool
is_due_at (some (ReadReq.req ver o)) (some v) (some i) version = v == version
is_due_at _ _ _ version = false

due_at_parts :
    {R I : Type 0} (q : Option (ReadReq R)) (pt : Option ℕ) (rq : Option I) (version : ℕ)
    → is_due_at q pt rq version ≡ true
    → (ver : ℕ) × (o : R) × (i : I) × (q ≡ some (ReadReq.req ver o))
      × (pt ≡ some version)
      × (rq ≡ some i)
unfolding is_due_at
due_at_parts (some (ReadReq.req ver o)) (some v) (some i) version h =
    (ver, o, i, refl, ground arith, refl)
due_at_parts none _ _ version h = absurd (cc)
due_at_parts (some (ReadReq.init o)) _ _ version h = absurd (cc)
due_at_parts (some (ReadReq.req ver o)) none _ version h = absurd (cc)
due_at_parts (some (ReadReq.req ver o)) (some v) none version h = absurd (cc)

module _ {dt : Dispatch} where
  -- One step at most, after which the read `rid` is not due any more.
  pub record Answered (s : SimpleLog.State dt) (t : AsyncSingleton.State dt) (pts : Map ℕ) (rid : ℕ)
      : Type 0 where
    pub next_state : AsyncSingleton.State dt
    pub next : AsyncSingleton.Next t AsyncLabel.internal next_state
    pub rel : Rel s next_state pts
    pub here : Served s next_state pts rid
    pub kept : (r : ℕ) → t.reqs r ≡ none → next_state.reqs r ≡ none

  is_due : SimpleLog.State dt → AsyncSingleton.State dt → Map ℕ → ℕ → Bool
  is_due s t pts rid = is_due_at (s.readonly_reqs rid) (pts rid) (t.reqs rid) (s.version)

  Served-of_not_due :
      (s : SimpleLog.State dt) (t : AsyncSingleton.State dt) (pts : Map ℕ) (rid : ℕ)
      → is_due s t pts rid ≡ false
      → Served s t pts rid
  unfolding is_due is_due_at
  Served-of_not_due s t pts rid h ver o e p = ground arith

  -- The state after the read has been answered.
  abbrev answered : AsyncSingleton.State dt → ℕ → dt.ReadOperation → AsyncSingleton.State dt
  answered t rid o = record t {
    reqs = remove (t.reqs) rid;
    resps = insert (t.resps) rid (OutputOperation.read (dt.dispatch_spec (t.state) o));
  }

  pending_input :
      {s : SimpleLog.State dt} {t : AsyncSingleton.State dt} {pts : Map ℕ}
      → Rel s t pts
      → (rid : ℕ) {q : ReadReq (dt.ReadOperation)} {i : InputOperation dt}
      → s.readonly_reqs rid ≡ some q
      → t.reqs rid ≡ some i
      → (i ≡ InputOperation.read (SimpleLog.op q))
        × (s.update_reqs rid ≡ none)
        × (s.update_resps rid ≡ none)
  pending_input rel rid e f = ground (arith, rel.rids rid)

  answered-Rel :
      {s : SimpleLog.State dt} {t : AsyncSingleton.State dt} {pts : Map ℕ}
      → Rel s t pts
      → (rid ver : ℕ) (o : dt.ReadOperation) → s.readonly_reqs rid ≡ some (ReadReq.req ver o)
      → s.update_reqs rid ≡ none
      → s.update_resps rid ≡ none
      → pts rid ≡ some (s.version)
      → Rel s (answered t rid o) pts
  answered-Rel {s} {t} {pts} rel rid ver o e f g p = record {
    version_le = rel.version_le;
    state_eq = rel.state_eq;
    covered = rel.covered;
    unique = rel.unique;
    rids = λ r. elim (Bool-cases (rid == r)) [
      | inl here ↦ read_answered (record {
        ver = ver;
        o = o;
        out = OutputOperation.read (dt.dispatch_spec (t.state) o);
        the_rd = ground arith;
        no_uq = ground arith;
        no_up = ground arith;
        no_rq = ground arith;
        the_rp = ground arith;
        point = λ v h. ground arith;
        answer = λ v h. ground (arith, rel.state_eq);
      })
      | inr other ↦ rw other (rel.rids r)
    ];
  }

  pub answer :
      {s : SimpleLog.State dt} {t : AsyncSingleton.State dt} {pts : Map ℕ}
      → Rel s t pts
      → (rid : ℕ) → Answered s t pts rid
  unfolding internal_next AsyncSingleton.apply is_due
  answer {s} {t} {pts} rel rid = elim (Bool-cases (is_due s t pts rid)) [
    | inl due ↦
        let (ver, o, i, e, p, f) =
          due_at_parts (s.readonly_reqs rid) (pts rid) (t.reqs rid) (s.version) due in
        let (same, no_uq, no_up) = pending_input rel rid e f in
        record {
          next_state = answered t rid o;
          next = internal_nexts rid (ground arith);
          rel = answered-Rel rel rid ver o e no_uq no_up p;
          here = λ v q h k. ground arith;
          kept = λ r h. ground arith;
        }
    | inr idle ↦ record {
      next_state = t;
      next = no_op;
      rel = rel;
      here = Served-of_not_due s t pts rid idle;
      kept = λ r h. h;
    }
  ]
