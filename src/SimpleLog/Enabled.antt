-- ===== src/SimpleLog/Enabled.antt =====
-- What an enabled transition of spec/simple_log.rs required, and the state that it leaves.
use verified_node_replicatio.Prelude.{
  ℕ, ◌≤◌, ◌<◌, ◌≡◌, none, some, length, get_elem?, push, insert, remove, arith,
}
use verified_node_replicatio.Dispatch.{Dispatch}
use verified_node_replicatio.SimpleLog.{
  ReadReq, UpdateResp, State, nrstate_at_version, readonly_start, readonly_read_version,
  readonly_finish, update_start, update_add_op_to_log, update_incr_version, update_finish,
}

module _ {dt : Dispatch} where
  pub record IsFresh (s : State dt) (rid : ℕ) : Type 0 where
    pub no_read : s.readonly_reqs rid ≡ none
    pub no_update : s.update_reqs rid ≡ none
    pub no_resp : s.update_resps rid ≡ none

  pub readonly_start_lem :
      (rid : ℕ) (o : dt.ReadOperation) (s : State dt) {t : State dt}
      → readonly_start rid o s ≡ some t
      → IsFresh s rid
        × (t ≡ record s { readonly_reqs = insert (s.readonly_reqs) rid (ReadReq.init o) })
  unfolding readonly_start
  readonly_start_lem rid o s e = ground arith

  pub readonly_read_version_lem :
      (rid : ℕ) (s : State dt) {t : State dt}
      → readonly_read_version rid s ≡ some t
      → (o : dt.ReadOperation) × (s.readonly_reqs rid ≡ some (ReadReq.init o))
        × (t
            ≡ record s { readonly_reqs = insert (s.readonly_reqs) rid (ReadReq.req (s.version) o) })
  unfolding readonly_read_version
  readonly_read_version_lem rid s e = ground arith

  pub readonly_finish_lem :
      (rid version : ℕ) (s : State dt) {ret : dt.Response} {t : State dt}
      → readonly_finish rid version s ≡ some (ret, t)
      → (cur : ℕ) × (o : dt.ReadOperation) × (s.readonly_reqs rid ≡ some (ReadReq.req cur o))
        × (cur ≤ version)
        × (version ≤ s.version)
        × (ret ≡ dt.dispatch_spec (nrstate_at_version s version) o)
        × (t ≡ record s { readonly_reqs = remove (s.readonly_reqs) rid })
  unfolding readonly_finish
  readonly_finish_lem rid version s e = ground arith

  pub update_start_lem :
      (rid : ℕ) (o : dt.WriteOperation) (s : State dt) {t : State dt}
      → update_start rid o s ≡ some t
      → IsFresh s rid × (t ≡ record s { update_reqs = insert (s.update_reqs) rid o })
  unfolding update_start
  update_start_lem rid o s e = ground arith

  -- The state after the operation `o` of request `rid` has entered the log.
  abbrev pub logged : State dt → ℕ → dt.WriteOperation → State dt
  logged s rid o = record s {
    log = push (s.log) o;
    update_reqs = remove (s.update_reqs) rid;
    update_resps = insert (s.update_resps) rid (record { idx = length (s.log) });
  }

  pub update_add_op_to_log_lem :
      (rid : ℕ) (s : State dt) {t : State dt}
      → update_add_op_to_log rid s ≡ some t
      → (o : dt.WriteOperation) × (s.update_reqs rid ≡ some o) × (t ≡ logged s rid o)
  unfolding update_add_op_to_log
  update_add_op_to_log_lem rid s e = ground arith

  pub update_incr_version_lem :
      (v : ℕ) (s : State dt) {t : State dt}
      → update_incr_version v s ≡ some t
      → (s.version ≤ v) × (v ≤ length (s.log)) × (t ≡ record s { version = v })
  unfolding update_incr_version
  update_incr_version_lem v s e = ground arith

  pub update_finish_lem :
      (rid : ℕ) (s : State dt) {ret : dt.Response} {t : State dt}
      → update_finish rid s ≡ some (ret, t)
      → (u : UpdateResp) × (o : dt.WriteOperation) × (s.update_resps rid ≡ some u)
        × (u.idx < s.version)
        × (get_elem? (s.log) (u.idx) ≡ some o)
        × (ret ≡ (dt.dispatch_mut_spec (nrstate_at_version s (u.idx)) o).1)
        × (t ≡ record s { update_resps = remove (s.update_resps) rid })
  unfolding update_finish
  update_finish_lem rid s e = ground arith
