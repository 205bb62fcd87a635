-- ===== src/SimpleLog.antt =====
-- spec/simple_log.rs: the abstract log of update operations, with its requests in flight. A
-- transition is a partial function on the state: `none` where its `require`s do not hold.
pub mod Inv
pub mod Enabled
pub mod Version
use verified_node_replicatio.Prelude.{
  ℕ, zero, suc, ◌≡◌, Bool, ◌&&◌, Option, none, some, List, [], length, get_elem?, push, leb, ltb,
  is_none, guard, ◌>>=◌, ◌>>◌, Map, empty, insert, remove,
}
use verified_node_replicatio.Dispatch.{Dispatch, InputOperation, OutputOperation, AsyncLabel}

-- `enum ReadReq`
pub data ReadReq (R : Type 0) : Type 0 where
  init : R → ReadReq R
  req : (version : ℕ) → R → ReadReq R

abbrev pub op : {R : Type 0} → ReadReq R → R
op (ReadReq.init o) = o
op (ReadReq.req version o) = o

-- `require let ReadReq::Init { op } = r`
abbrev pub as_init : {R : Type 0} → ReadReq R → Option R
as_init (ReadReq.init o) = some o
as_init (ReadReq.req version o) = none

-- `require let ReadReq::Req { op, version } = r`
abbrev pub as_req : {R : Type 0} → ReadReq R → Option (ℕ × R)
as_req (ReadReq.init o) = none
as_req (ReadReq.req version o) = some (version, o)

-- `struct UpdateResp(pub LogIdx)`
pub record UpdateResp : Type 0 where
  pub idx : ℕ

pub record State (dt : Dispatch) : Type 0 where
  pub log : List (dt.WriteOperation)
  pub version : ℕ
  pub readonly_reqs : Map (ReadReq (dt.ReadOperation))
  pub update_reqs : Map (dt.WriteOperation)
  pub update_resps : Map UpdateResp

module _ (dt : Dispatch) where
  -- The state of the data structure after the first `version` operations of the log. The source
  -- leaves the value open where the log is shorter; here the state then stays.
  unfoldable pub compute_nrstate_at_version : List (dt.WriteOperation) → ℕ → dt.View
  compute_nrstate_at_version log zero = dt.init_spec
  compute_nrstate_at_version log (suc v) =
      let prev = compute_nrstate_at_version log v in
      elim (get_elem? log v) [ none ↦ prev | some o ↦ (dt.dispatch_mut_spec prev o).0 ]

module _ {dt : Dispatch} where
  abbrev pub nrstate_at_version : State dt → ℕ → dt.View
  nrstate_at_version s version = compute_nrstate_at_version dt (s.log) version

  -- The request id is not known to the system.
  abbrev pub is_fresh : State dt → ℕ → Bool
  is_fresh s rid =
      is_none (s.readonly_reqs rid) && (is_none (s.update_reqs rid) && is_none (s.update_resps rid))

module _ (dt : Dispatch) where
  unfoldable pub initialize : State dt
  initialize = record {
    log = [];
    version = 0;
    readonly_reqs = empty;
    update_reqs = empty;
    update_resps = empty;
  }

module _ {dt : Dispatch} where
  unfoldable pub readonly_start : ℕ → dt.ReadOperation → State dt → Option (State dt)
  readonly_start rid o s = do
    guard (is_fresh s rid)
    some (record s { readonly_reqs = insert (s.readonly_reqs) rid (ReadReq.init o) })

  unfoldable pub readonly_read_version : ℕ → State dt → Option (State dt)
  readonly_read_version rid s = do
    r ← s.readonly_reqs rid
    o ← as_init r
    some (record s { readonly_reqs = insert (s.readonly_reqs) rid (ReadReq.req (s.version) o) })

  -- The answer at the supplied version, beside the new state.
  unfoldable pub readonly_finish : ℕ → ℕ → State dt → Option (dt.Response × State dt)
  readonly_finish rid version s = do
    r ← s.readonly_reqs rid
    q ← as_req r
    guard (leb q.0 version && leb version (length (s.log)))
    guard (leb version (s.version))
    some (
      dt.dispatch_spec (nrstate_at_version s version) q.1,
      record s { readonly_reqs = remove (s.readonly_reqs) rid },
    )

  unfoldable pub update_start : ℕ → dt.WriteOperation → State dt → Option (State dt)
  update_start rid o s = do
    guard (is_fresh s rid)
    some (record s { update_reqs = insert (s.update_reqs) rid o })

  unfoldable pub update_add_op_to_log : ℕ → State dt → Option (State dt)
  update_add_op_to_log rid s = do
    o ← s.update_reqs rid
    some (record s {
      log = push (s.log) o;
      update_reqs = remove (s.update_reqs) rid;
      update_resps = insert (s.update_resps) rid (record { idx = length (s.log) });
    })

  unfoldable pub update_incr_version : ℕ → State dt → Option (State dt)
  update_incr_version new_version s = do
    guard (leb (s.version) new_version && leb new_version (length (s.log)))
    some (record s { version = new_version })

  -- The result of the update at its place in the log, beside the new state.
  unfoldable pub update_finish : ℕ → State dt → Option (dt.Response × State dt)
  update_finish rid s = do
    u ← s.update_resps rid
    guard (ltb (u.idx) (s.version) && leb (s.version) (length (s.log)))
    o ← get_elem? (s.log) (u.idx)
    some (
      (dt.dispatch_mut_spec (nrstate_at_version s (u.idx)) o).1,
      record s { update_resps = remove (s.update_resps) rid },
    )

  -- `SimpleLog::State::next`
  pub data Next (s : State dt) : AsyncLabel dt → State dt → Type 0 where
    readonly_starts :
        (rid : ℕ) (o : dt.ReadOperation) {t : State dt}
        → readonly_start rid o s ≡ some t
        → Next s (AsyncLabel.start rid (InputOperation.read o)) t
    readonly_reads_version :
        (rid : ℕ) {t : State dt}
        → readonly_read_version rid s ≡ some t
        → Next s AsyncLabel.internal t
    readonly_finishes :
        (rid version : ℕ) {ret : dt.Response} {t : State dt}
        → readonly_finish rid version s ≡ some (ret, t)
        → Next s (AsyncLabel.end rid (OutputOperation.read ret)) t
    update_starts :
        (rid : ℕ) (o : dt.WriteOperation) {t : State dt}
        → update_start rid o s ≡ some t
        → Next s (AsyncLabel.start rid (InputOperation.write o)) t
    update_adds_op_to_log :
        (rid : ℕ) {t : State dt}
        → update_add_op_to_log rid s ≡ some t
        → Next s AsyncLabel.internal t
    update_incrs_version :
        (new_version : ℕ) {t : State dt}
        → update_incr_version new_version s ≡ some t
        → Next s AsyncLabel.internal t
    update_finishes :
        (rid : ℕ) {ret : dt.Response} {t : State dt}
        → update_finish rid s ≡ some (ret, t)
        → Next s (AsyncLabel.end rid (OutputOperation.write ret)) t
    no_op : Next s AsyncLabel.internal s
