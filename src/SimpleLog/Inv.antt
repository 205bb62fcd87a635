-- ===== src/SimpleLog/Inv.antt =====
-- The invariants of spec/simple_log.rs, true at the start and kept by every transition.
use verified_node_replicatio.Prelude.{ℕ, ◌≤◌, ◌<◌, ◌≡◌, some, length, length-push, arith}
use verified_node_replicatio.Dispatch.{Dispatch, AsyncLabel}
use verified_node_replicatio.SimpleLog.{
  ReadReq, UpdateResp, State, Next, readonly_start, readonly_read_version, readonly_finish,
  update_start, update_add_op_to_log, update_incr_version, update_finish, readonly_starts,
  readonly_reads_version, readonly_finishes, update_starts, update_adds_op_to_log,
  update_incrs_version, update_finishes, no_op,
}

module _ {dt : Dispatch} where
  pub record Inv (s : State dt) : Type 0 where
    pub version_le : s.version ≤ length (s.log)
    pub update_resp_version :
        (rid : ℕ) (u : UpdateResp) → s.update_resps rid ≡ some u → u.idx < length (s.log)
    pub readonly_req_version :
        (rid v : ℕ) (o : dt.ReadOperation)
        → s.readonly_reqs rid ≡ some (ReadReq.req v o)
        → v ≤ s.version

  -- Every transition of the simple log keeps the invariants.
  pub simple_Next-Inv : {s t : State dt} {l : AsyncLabel dt} → Next s l t → Inv s → Inv t
  unfolding readonly_start readonly_read_version readonly_finish update_start update_add_op_to_log
      update_incr_version update_finish
  simple_Next-Inv (readonly_starts rid o e) inv = grind arith
  simple_Next-Inv (readonly_reads_version rid e) inv = grind arith
  simple_Next-Inv (readonly_finishes rid version e) inv = grind arith
  simple_Next-Inv (update_starts rid o e) inv = grind arith
  simple_Next-Inv (update_adds_op_to_log rid e) inv = grind (arith, length-push)
  simple_Next-Inv (update_incrs_version v e) inv = grind arith
  simple_Next-Inv (update_finishes rid e) inv = grind arith
  simple_Next-Inv no_op inv = inv
