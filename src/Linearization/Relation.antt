-- ===== src/Linearization/Relation.antt =====
-- spec/linearization.rs: the relation between a state of the simple log, one of the atomic data
-- structure, and the versions at which the reads in flight will be answered (`r_points`).
use verified_node_replicatio.Prelude.{
  ℕ, ◌≤◌, ◌<◌, ◌≡◌, Option, none, some, List, length, get_elem?, Map,
}
use verified_node_replicatio.Dispatch.{Dispatch, InputOperation, OutputOperation, AsyncLabel}
use verified_node_replicatio.SimpleLog
use verified_node_replicatio.SimpleLog.{ReadReq, UpdateResp, compute_nrstate_at_version}
use verified_node_replicatio.AsyncSingleton

module _ (dt : Dispatch) where
  abbrev pub Points : Type 0
  Points = Map ℕ

  -- `future_rid_ok`
  abbrev pub FutureRead : ReadReq (dt.ReadOperation) → ℕ → ℕ → Type 0
  FutureRead (ReadReq.init o) version v = version ≤ v
  FutureRead (ReadReq.req ver o) version v = ver ≤ v

module _ {dt : Dispatch} where
  -- `future_points_ok`: a finite map is one with a bound on its keys, and a point of an id that is no
  -- read does no harm.
  pub record FuturePointsOk (s : SimpleLog.State dt) (pts : Map ℕ) : Type 0 where
    pub bound : ℕ
    pub bounded : (rid v : ℕ) → pts rid ≡ some v → rid < bound
    pub future :
        (rid v : ℕ) (q : ReadReq (dt.ReadOperation))
        → pts rid ≡ some v
        → s.readonly_reqs rid ≡ some q
        → FutureRead dt q (s.version) v

  abbrev pub result : List (dt.WriteOperation) → ℕ → dt.WriteOperation → OutputOperation dt
  result log idx o =
      OutputOperation.write (dt.dispatch_mut_spec (compute_nrstate_at_version dt log idx) o).1

  -- How one request id stands in the two machines: `rd`, `uq` and `up` are what the simple log has
  -- for it (`readonly_reqs`, `update_reqs`, `update_resps`), `rq` and `rp` what the atomic data
  -- structure has (`reqs`, `resps`), and `pt` is its point.
  module _ (rd : Option (ReadReq (dt.ReadOperation))) (uq : Option (dt.WriteOperation))
      (up : Option UpdateResp) (rq : Option (InputOperation dt))
      (rp : Option (OutputOperation dt)) where
    pub record Unknown : Type 0 where
      pub no_rd : rd ≡ none
      pub no_uq : uq ≡ none
      pub no_up : up ≡ none
      pub no_rq : rq ≡ none
      pub no_rp : rp ≡ none

    pub record UpdateWaiting : Type 0 where
      pub o : dt.WriteOperation
      pub no_rd : rd ≡ none
      pub the_uq : uq ≡ some o
      pub no_up : up ≡ none
      pub the_rq : rq ≡ some (InputOperation.write o)
      pub no_rp : rp ≡ none

  module _ (version : ℕ) (rd : Option (ReadReq (dt.ReadOperation)))
      (uq : Option (dt.WriteOperation)) (up : Option UpdateResp) (rq : Option (InputOperation dt))
      (rp : Option (OutputOperation dt)) (pt : Option ℕ) where
    pub record ReadPending : Type 0 where
      pub q : ReadReq (dt.ReadOperation)
      pub the_rd : rd ≡ some q
      pub no_uq : uq ≡ none
      pub no_up : up ≡ none
      pub the_rq : rq ≡ some (InputOperation.read (SimpleLog.op q))
      pub no_rp : rp ≡ none
      pub point : (v : ℕ) → pt ≡ some v → version ≤ v

  module _ (log : List (dt.WriteOperation)) (version : ℕ) (rd : Option (ReadReq (dt.ReadOperation)))
      (uq : Option (dt.WriteOperation)) (up : Option UpdateResp) (rq : Option (InputOperation dt))
      (rp : Option (OutputOperation dt)) (pt : Option ℕ) where
    pub record ReadAnswered : Type 0 where
      pub ver : ℕ
      pub o : dt.ReadOperation
      pub out : OutputOperation dt
      pub the_rd : rd ≡ some (ReadReq.req ver o)
      pub no_uq : uq ≡ none
      pub no_up : up ≡ none
      pub no_rq : rq ≡ none
      pub the_rp : rp ≡ some out
      pub point : (v : ℕ) → pt ≡ some v → v ≤ version
      pub answer :
          (v : ℕ)
          → pt ≡ some v
          → out ≡ OutputOperation.read (dt.dispatch_spec (compute_nrstate_at_version dt log v) o)

    pub record UpdateLogged : Type 0 where
      pub u : UpdateResp
      pub o : dt.WriteOperation
      pub no_rd : rd ≡ none
      pub no_uq : uq ≡ none
      pub the_up : up ≡ some u
      pub due : version ≤ u.idx
      pub entry : get_elem? log (u.idx) ≡ some o
      pub the_rq : rq ≡ some (InputOperation.write o)
      pub no_rp : rp ≡ none

    pub record UpdateApplied : Type 0 where
      pub u : UpdateResp
      pub o : dt.WriteOperation
      pub no_rd : rd ≡ none
      pub no_uq : uq ≡ none
      pub the_up : up ≡ some u
      pub past : u.idx < version
      pub entry : get_elem? log (u.idx) ≡ some o
      pub no_rq : rq ≡ none
      pub the_rp : rp ≡ some (result log (u.idx) o)

    pub data RidRel : Type 0 where
      unknown : Unknown rd uq up rq rp → RidRel
      read_pending : ReadPending version rd uq up rq rp pt → RidRel
      read_answered : ReadAnswered → RidRel
      update_waiting : UpdateWaiting rd uq up rq rp → RidRel
      update_logged : UpdateLogged → RidRel
      update_applied : UpdateApplied → RidRel

  abbrev pub RidRelAt : SimpleLog.State dt → AsyncSingleton.State dt → Map ℕ → ℕ → Type 0
  RidRelAt s t pts rid =
      RidRel (s.log) (s.version) (s.readonly_reqs rid) (s.update_reqs rid) (s.update_resps rid)
        (t.reqs rid) (t.resps rid) (pts rid)

  -- A read whose point is the present version has been answered.
  abbrev pub Served : SimpleLog.State dt → AsyncSingleton.State dt → Map ℕ → ℕ → Type 0
  Served s t pts rid =
      (ver : ℕ) (o : dt.ReadOperation)
      → s.readonly_reqs rid ≡ some (ReadReq.req ver o)
      → pts rid ≡ some (s.version)
      → t.reqs rid ≡ none

  -- `state_refinement_relation`, but for the reads that are due at the present version
  pub record Rel (s : SimpleLog.State dt) (t : AsyncSingleton.State dt) (pts : Map ℕ) : Type 0 where
    pub version_le : s.version ≤ length (s.log)
    pub state_eq : t.state ≡ compute_nrstate_at_version dt (s.log) (s.version)
    pub covered :
        (v : ℕ)
        → s.version ≤ v
        → v < length (s.log)
        → (rid : ℕ) × (s.update_resps rid ≡ some (record { idx = v }))
    pub unique :
        (i j : ℕ) (u : UpdateResp) → s.update_resps i ≡ some u → s.update_resps j ≡ some u → i ≡ j
    pub rids : (rid : ℕ) → RidRelAt s t pts rid

  -- A step of the atomic data structure with label `l` that leads on to `s`.
  pub record Simulated (t : AsyncSingleton.State dt) (l : AsyncLabel dt) (s : SimpleLog.State dt)
      (pts : Map ℕ) : Type 0 where
    pub next_state : AsyncSingleton.State dt
    pub next : AsyncSingleton.Next t l next_state
    pub rel : Rel s next_state pts
    pub served : (rid : ℕ) → Served s next_state pts rid
