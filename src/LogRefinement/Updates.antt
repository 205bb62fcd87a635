-- ===== src/LogRefinement/Updates.antt =====
-- spec/unbounded_log_refines_simplelog.rs: what the transitions of updates and combiners do to the
-- requests of the simple log.
use verified_node_replicatio.Prelude.{
  ℕ, true, ◌≡◌, ◌==◌, ap, refl, sym, ◌∙◌, fun_ext, Bool-cases, inl, inr, if◌then◌else◌, none, some,
  length, insert, remove, Map, leb, ltb, arith,
}
use verified_node_replicatio.Dispatch.{Dispatch, InputOperation, OutputOperation, AsyncLabel}
use verified_node_replicatio.SimpleLog
use verified_node_replicatio.SimpleLog.{
  UpdateResp, update_start, update_add_op_to_log, update_incr_version, update_finish, update_starts,
  update_adds_op_to_log, update_incrs_version, update_finishes, no_op, nrstate_at_version,
}
use verified_node_replicatio.UnboundedLog.{CombinerState, UpdateState, State}
use verified_node_replicatio.UnboundedLog.Steps
use verified_node_replicatio.UnboundedLog.Next.{add_ticket, consume_update}
use verified_node_replicatio.UnboundedLog.Enabled.{
  place_lem, update_done_lem, dispatch_local_lem, update_version_lem, consume_update_lem,
}
use verified_node_replicatio.UnboundedLog.Inv.{Inv}
use verified_node_replicatio.UnboundedLog.Preserve.Dispatched.{matches-local}
use verified_node_replicatio.LogRefinement.{
  interp, interp_log, update_req, update_resp, interp_update_reqs, interp_update_resps,
}
use verified_node_replicatio.LogRefinement.Interp.{
  length-interp_log, get_elem?-interp_log, compute-interp_log, interp_log-insert,
}

module _ {dt : Dispatch} where
  -- The requests and the answers that the updates stand for, after a change at `rid`.
  pub record Stands (m : Map (UpdateState dt)) (reqs : Map (dt.WriteOperation))
      (resps : Map UpdateResp) : Type 0 where
    pub the_reqs : interp_update_reqs m ≡ reqs
    pub the_resps : interp_update_resps m ≡ resps

  with_updates :
      (s : State dt) (updates : Map (UpdateState dt)) (reqs : Map (dt.WriteOperation))
      (resps : Map UpdateResp)
      → Stands updates reqs resps
      → interp (record s { local_updates = updates })
        ≡ record (interp s) { update_reqs = reqs; update_resps = resps }
  unfolding interp
  with_updates s updates reqs resps e =
      ap (λ m. record (interp s) { update_reqs = m; update_resps = interp_update_resps updates })
        (e.the_reqs)
      ∙ ap (λ m. record (interp s) { update_reqs = reqs; update_resps = m }) (e.the_resps)

  -- An update that stands for the same request or answer as before changes nothing.
  same-Stands :
      (m : Map (UpdateState dt)) (rid : ℕ) (u u' : UpdateState dt)
      → m rid ≡ some u
      → update_req u' ≡ update_req u
      → update_resp u' ≡ update_resp u
      → Stands (insert m rid u') (interp_update_reqs m) (interp_update_resps m)
  same-Stands m rid u u' e same same' = record {
    the_reqs =
        fun_ext (λ j. elim (Bool-cases (rid == j)) [
          | inl here ↦ ground arith
          | inr other ↦ rw other refl
        ]);
    the_resps =
        fun_ext (λ j. elim (Bool-cases (rid == j)) [
          | inl here ↦ ground arith
          | inr other ↦ rw other refl
        ]);
  }

  started-Stands :
      (m : Map (UpdateState dt)) (rid : ℕ) (op : dt.WriteOperation)
      → m rid ≡ none
      → Stands
          (insert m rid (UpdateState.init op))
          (insert (interp_update_reqs m) rid op)
          (interp_update_resps m)
  started-Stands m rid op e = record {
    the_reqs =
        fun_ext (λ j. elim (Bool-cases (rid == j)) [
          | inl here ↦ rw here refl
          | inr other ↦ rw other refl
        ]);
    the_resps =
        fun_ext (λ j. elim (Bool-cases (rid == j)) [
          | inl here ↦ ground arith
          | inr other ↦ rw other refl
        ]);
  }

  placed-Stands :
      (m : Map (UpdateState dt)) (rid : ℕ) (op : dt.WriteOperation) (idx : ℕ)
      → Stands
          (insert m rid (UpdateState.placed op idx))
          (remove (interp_update_reqs m) rid)
          (insert (interp_update_resps m) rid (record { idx = idx }))
  placed-Stands m rid op idx = record {
    the_reqs =
        fun_ext (λ j. elim (Bool-cases (rid == j)) [
          | inl here ↦ rw here refl
          | inr other ↦ rw other refl
        ]);
    the_resps =
        fun_ext (λ j. elim (Bool-cases (rid == j)) [
          | inl here ↦ rw here refl
          | inr other ↦ rw other refl
        ]);
  }

  ended-Stands :
      (m : Map (UpdateState dt)) (rid : ℕ) (ret : dt.Response) (idx : ℕ)
      → m rid ≡ some (UpdateState.done ret idx)
      → Stands (remove m rid) (interp_update_reqs m) (remove (interp_update_resps m) rid)
  ended-Stands m rid ret idx e = record {
    the_reqs =
        fun_ext (λ j. elim (Bool-cases (rid == j)) [
          | inl here ↦ ground arith
          | inr other ↦ rw other refl
        ]);
    the_resps =
        fun_ext (λ j. elim (Bool-cases (rid == j)) [
          | inl here ↦ rw here refl
          | inr other ↦ rw other refl
        ]);
  }

  pub update_done-refines :
      (rid : ℕ) (s : State dt) {t : State dt}
      → Steps.update_done rid s ≡ some t
      → SimpleLog.Next (interp s) AsyncLabel.internal (interp t)
  unfolding interp
  update_done-refines rid s e =
      let (ret, idx, u, lt, eq) = update_done_lem rid s e in
      let new = UpdateState.done ret idx in
      let same = same-Stands (s.local_updates) rid (UpdateState.applied ret idx) new u refl refl in
      rw eq (
        rw
          (with_updates s (insert (s.local_updates) rid new) (interp_update_reqs (s.local_updates))
            (interp_update_resps (s.local_updates)) same)
          no_op)

  pub exec_dispatch_local-refines :
      (n : ℕ) (s : State dt) {t : State dt}
      → Inv s
      → Steps.exec_dispatch_local n s ≡ some t
      → SimpleLog.Next (interp s) AsyncLabel.internal (interp t)
  unfolding interp
  exec_dispatch_local-refines n s inv run =
      let (q, lv, idx, end, rid, old, u, e, c, o, g, d, l, lt, own, eq) =
        dispatch_local_lem n s run in
      let node = inv.nodes n (CombinerState.loop q lv idx end) c in
      let (rid', op, g', p, m) = matches-local e lt l own (node.wf.range) in
      let p' : s.local_updates rid ≡ some (UpdateState.placed op lv) = ground arith in
      let new : UpdateState dt = UpdateState.applied (dt.dispatch_mut_spec old (e.op)).1 lv in
      let same = same-Stands (s.local_updates) rid (UpdateState.placed op lv) new p' refl refl in
      rw eq (
        rw
          (with_updates s (insert (s.local_updates) rid new) (interp_update_reqs (s.local_updates))
            (interp_update_resps (s.local_updates)) same)
          no_op)

  pub exec_update_version_upper_bound-refines :
      (n : ℕ) (s : State dt) {t : State dt}
      → Inv s
      → Steps.exec_update_version_upper_bound n s ≡ some t
      → SimpleLog.Next (interp s) AsyncLabel.internal (interp t)
  unfolding interp update_incr_version
  exec_update_version_upper_bound-refines n s inv e =
      let (q, lv, idx, end, c, at, eq) = update_version_lem n s e in
      let w = (inv.nodes n (CombinerState.loop q lv idx end) c).wf in
      let vub = if leb end (s.version_upper_bound) then s.version_upper_bound else end in
      let len = length-interp_log (s.log) (s.tail) (inv.log_full) in
      let lo : leb (s.version_upper_bound) vub ≡ true = ground arith in
      let hi : leb vub (length (interp_log (s.tail) (s.log))) ≡ true =
        ground (arith, w.end_le, inv.vub_le) in
      rw eq (update_incrs_version vub (rw lo (rw hi refl)))

  pub update_place_ops_in_log_one-refines :
      (n rid : ℕ) (s : State dt) {t : State dt}
      → Inv s
      → Steps.update_place_ops_in_log_one n rid s ≡ some t
      → SimpleLog.Next (interp s) AsyncLabel.internal (interp t)
  unfolding interp update_add_op_to_log
  update_place_ops_in_log_one-refines n rid s {t} inv e =
      let (q, op, c, u, eq) = place_lem n rid s e in
      let len = length-interp_log (s.log) (s.tail) (inv.log_full) in
      let stands = placed-Stands (s.local_updates) rid op (s.tail) in
      let log = interp_log-insert (s.log) (s.tail) (record { op = op; node_id = n }) in
      rw eq (
        rw (log, stands.the_reqs, stands.the_resps)
          (update_adds_op_to_log rid (rw u (rw len refl))))

  pub add_write-refines :
      (rid : ℕ) (op : dt.WriteOperation) (s : State dt) {t : State dt}
      → add_ticket rid (InputOperation.write op) s ≡ some t
      → SimpleLog.Next (interp s) (AsyncLabel.start rid (InputOperation.write op)) (interp t)
  unfolding add_ticket update_start interp
  add_write-refines rid op s {t} e =
      let eq : t ≡ record s { local_updates = insert (s.local_updates) rid (UpdateState.init op) } =
        ground arith in
      let no_read : s.local_reads rid ≡ none = ground arith in
      let no_update : s.local_updates rid ≡ none = ground arith in
      let new = UpdateState.init op in
      rw eq (
        rw
          (with_updates s (insert (s.local_updates) rid new)
            (insert (interp_update_reqs (s.local_updates)) rid op)
            (interp_update_resps (s.local_updates))
            (started-Stands (s.local_updates) rid op no_update))
          (update_starts rid op (rw no_read (rw no_update refl))))

  pub consume_update-refines :
      (rid : ℕ) (s : State dt) {ret : dt.Response} {t : State dt}
      → Inv s
      → consume_update rid s ≡ some (ret, t)
      → SimpleLog.Next (interp s) (AsyncLabel.end rid (OutputOperation.write ret)) (interp t)
  unfolding update_finish interp
  consume_update-refines rid s {ret} {t} inv e =
      let (idx, u, eq) = consume_update_lem rid s e in
      let r = inv.updates rid (UpdateState.done ret idx) u in
      let len = length-interp_log (s.log) (s.tail) (inv.log_full) in
      let lo : ltb idx (s.version_upper_bound) ≡ true = ground (arith, r.below) in
      let hi : leb (s.version_upper_bound) (length (interp_log (s.tail) (s.log))) ≡ true =
        ground (arith, inv.vub_le) in
      let entry =
        get_elem?-interp_log (s.log) (s.tail) idx (inv.log_full)
          (omega (arith, r.below, inv.vub_le)) (r.entry) in
      let view =
        compute-interp_log (s.log) (s.tail) idx (inv.log_full)
          (omega (arith, r.below, inv.vub_le)) in
      let answer : ret ≡ (dt.dispatch_mut_spec (nrstate_at_version (interp s) idx) (r.e.op)).1 =
        rw view (r.result) in
      rw eq (
        rw
          (with_updates s (remove (s.local_updates) rid) (interp_update_reqs (s.local_updates))
            (remove (interp_update_resps (s.local_updates)) rid)
            (ended-Stands (s.local_updates) rid ret idx u))
          (update_finishes rid (rw u (rw lo (rw hi (rw entry (rw (sym answer) refl)))))))
