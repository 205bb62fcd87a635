-- ===== src/LogRefinement/Reads.antt =====
-- spec/unbounded_log_refines_simplelog.rs: what the transitions of reads do to the requests of the
-- simple log.
use verified_node_replicatio.Prelude.{
  ℕ, true, ◌≡◌, ◌==◌, ap, refl, sym, fun_ext, Bool-cases, inl, inr, none, some, length, insert,
  remove, Map, leb, arith,
}
use verified_node_replicatio.Dispatch.{Dispatch, InputOperation, OutputOperation, AsyncLabel}
use verified_node_replicatio.SimpleLog
use verified_node_replicatio.SimpleLog.{
  ReadReq, readonly_start, readonly_read_version, readonly_finish, readonly_starts,
  readonly_reads_version, readonly_finishes, no_op, nrstate_at_version,
}
use verified_node_replicatio.UnboundedLog.{ReadonlyState, State}
use verified_node_replicatio.UnboundedLog.Steps
use verified_node_replicatio.UnboundedLog.Next.{add_ticket, consume_read}
use verified_node_replicatio.UnboundedLog.Enabled.{
  version_upper_bound_lem, ready_to_read_lem, apply_lem, consume_read_lem,
}
use verified_node_replicatio.UnboundedLog.Inv.{Inv}
use verified_node_replicatio.LogRefinement.{interp, interp_log, read_req, interp_readonly_reqs}
use verified_node_replicatio.LogRefinement.Interp.{length-interp_log, compute-interp_log}

module _ {dt : Dispatch} where
  interp-insert :
      (m : Map (ReadonlyState dt)) (rid : ℕ) (r : ReadonlyState dt)
      → interp_readonly_reqs (insert m rid r) ≡ insert (interp_readonly_reqs m) rid (read_req r)
  interp-insert m rid r =
      fun_ext
        (λ j. elim (Bool-cases (rid == j)) [ inl here ↦ rw here refl | inr other ↦ rw other refl ])

  interp-remove :
      (m : Map (ReadonlyState dt)) (rid : ℕ)
      → interp_readonly_reqs (remove m rid) ≡ remove (interp_readonly_reqs m) rid
  interp-remove m rid =
      fun_ext
        (λ j. elim (Bool-cases (rid == j)) [ inl here ↦ rw here refl | inr other ↦ rw other refl ])

  -- A read that stands for the same request as before changes nothing.
  interp-same :
      (m : Map (ReadonlyState dt)) (rid : ℕ) (r r' : ReadonlyState dt)
      → m rid ≡ some r
      → read_req r' ≡ read_req r
      → interp_readonly_reqs (insert m rid r') ≡ interp_readonly_reqs m
  interp-same m rid r r' e same =
      fun_ext
        (λ j. elim (Bool-cases (rid == j)) [ inl here ↦ ground arith | inr other ↦ rw other refl ])

  -- The simple log of a state with these reads.
  with_reads :
      (s : State dt) (reads : Map (ReadonlyState dt)) (reqs : Map (ReadReq (dt.ReadOperation)))
      → interp_readonly_reqs reads ≡ reqs
      → interp (record s { local_reads = reads }) ≡ record (interp s) { readonly_reqs = reqs }
  unfolding interp
  with_reads s reads reqs e = ap (λ m. record (interp s) { readonly_reqs = m }) e

  pub readonly_version_upper_bound-refines :
      (rid : ℕ) (s : State dt) {t : State dt}
      → Steps.readonly_version_upper_bound rid s ≡ some t
      → SimpleLog.Next (interp s) AsyncLabel.internal (interp t)
  unfolding readonly_read_version interp
  readonly_version_upper_bound-refines rid s e =
      let (op, r, eq) = version_upper_bound_lem rid s e in
      let new = ReadonlyState.version_upper_bound op (s.version_upper_bound) in
      rw eq (
        rw
          (with_reads s (insert (s.local_reads) rid new)
            (insert (interp_readonly_reqs (s.local_reads)) rid (read_req new))
            (interp-insert (s.local_reads) rid new))
          (readonly_reads_version rid (rw r refl)))

  pub readonly_ready_to_read-refines :
      (rid node_id : ℕ) (s : State dt) {t : State dt}
      → Steps.readonly_ready_to_read rid node_id s ≡ some t
      → SimpleLog.Next (interp s) AsyncLabel.internal (interp t)
  unfolding interp
  readonly_ready_to_read-refines rid node_id s e =
      let (op, vub, v, r, h, le, eq) = ready_to_read_lem rid node_id s e in
      let new = ReadonlyState.ready_to_read op vub node_id in
      rw eq (
        rw
          (with_reads s (insert (s.local_reads) rid new) (interp_readonly_reqs (s.local_reads))
            (interp-same (s.local_reads) rid (ReadonlyState.version_upper_bound op vub) new r refl))
          no_op)

  pub readonly_apply-refines :
      (rid : ℕ) (s : State dt) {t : State dt}
      → Steps.readonly_apply rid s ≡ some t
      → SimpleLog.Next (interp s) AsyncLabel.internal (interp t)
  unfolding interp
  readonly_apply-refines rid s e =
      let (op, vub, n, state, r, c, view, eq) = apply_lem rid s e in
      let new = ReadonlyState.done op vub n (dt.dispatch_spec state op) in
      rw eq (
        rw
          (with_reads s (insert (s.local_reads) rid new) (interp_readonly_reqs (s.local_reads))
            (interp-same (s.local_reads) rid (ReadonlyState.ready_to_read op vub n) new r refl))
          no_op)

  pub add_read-refines :
      (rid : ℕ) (op : dt.ReadOperation) (s : State dt) {t : State dt}
      → add_ticket rid (InputOperation.read op) s ≡ some t
      → SimpleLog.Next (interp s) (AsyncLabel.start rid (InputOperation.read op)) (interp t)
  unfolding add_ticket readonly_start interp
  add_read-refines rid op s {t} e =
      let eq : t ≡ record s { local_reads = insert (s.local_reads) rid (ReadonlyState.init op) } =
        ground arith in
      let no_read : s.local_reads rid ≡ none = ground arith in
      let no_update : s.local_updates rid ≡ none = ground arith in
      let new = ReadonlyState.init op in
      rw eq (
        rw
          (with_reads s (insert (s.local_reads) rid new)
            (insert (interp_readonly_reqs (s.local_reads)) rid (read_req new))
            (interp-insert (s.local_reads) rid new))
          (readonly_starts rid op (rw no_read (rw no_update refl))))

  pub consume_read-refines :
      (rid : ℕ) (s : State dt) {ret : dt.Response} {t : State dt}
      → Inv s
      → consume_read rid s ≡ some (ret, t)
      → SimpleLog.Next (interp s) (AsyncLabel.end rid (OutputOperation.read ret)) (interp t)
  unfolding readonly_finish interp
  consume_read-refines rid s {ret} {t} inv e =
      let (op, vub, n, r, eq) = consume_read_lem rid s e in
      let a = inv.reads rid (ReadonlyState.done op vub n ret) r in
      let len = length-interp_log (s.log) (s.tail) (inv.log_full) in
      let lo : leb vub (a.at) ≡ true = ground (arith, a.lo) in
      let hi : leb (a.at) (length (interp_log (s.tail) (s.log))) ≡ true =
        ground (arith, a.hi, inv.vub_le) in
      let top : leb (a.at) (s.version_upper_bound) ≡ true = ground (arith, a.hi) in
      let view =
        compute-interp_log (s.log) (s.tail) (a.at) (inv.log_full)
          (omega (arith, a.hi, inv.vub_le)) in
      let answer : ret ≡ dt.dispatch_spec (nrstate_at_version (interp s) (a.at)) op =
        rw view (a.answer) in
      let post =
        with_reads s (remove (s.local_reads) rid)
          (remove (interp_readonly_reqs (s.local_reads)) rid) (interp-remove (s.local_reads) rid) in
      rw eq (
        rw post
          (readonly_finishes rid (a.at) (rw r (rw lo (rw hi (rw top (rw (sym answer) refl)))))))
