-- ===== src/UnboundedLog/Safety.antt =====
-- spec/unbounded_log.rs: the assertions in the transitions and the safety conditions of the combiner,
-- and what the replicas agree on.
use verified_node_replicatio.Prelude.{
  ℕ, ◌<◌, ◌≡◌, ◌≢◌, ◌==◌, ◌⊎◌, inl, inr, Bool-cases, refl, none, some, List, [], ◌∷◌, length,
  get_elem?, get_elem?-lt, arith,
}
use native.Mathlib.Decide.{dec_lt}
use verified_node_replicatio.Dispatch.{Dispatch, AsyncLabel}
use verified_node_replicatio.UnboundedLog.{
  LogEntry, UpdateState, CombinerState, State, current_version,
}
use verified_node_replicatio.UnboundedLog.Steps
use verified_node_replicatio.UnboundedLog.Preserve.Reachable.{Run, Run-Inv}
use verified_node_replicatio.UnboundedLog.Preserve.Exec.{matches_end}
use verified_node_replicatio.UnboundedLog.Preserve.Dispatched.{matches-local}

module _ {dt : Dispatch} where
  -- In a state that a run reaches, a combiner that meets an entry of its own node has the request of the entry next in its queue,
  -- placed at that entry: `exec_dispatch_local` is enabled (`pre_exec_dispatch_local`).
  pub exec_dispatch_local-enabled :
      {number_of_nodes : ℕ} {seen : List (AsyncLabel dt)} {s : State dt} {n lv idx end : ℕ}
      {q : List ℕ} {e : LogEntry dt}
      → Run number_of_nodes seen s
      → s.combiner n ≡ some (CombinerState.loop q lv idx end)
      → lv < end
      → s.log lv ≡ some e
      → e.node_id ≡ n
      → (rid : ℕ) × (op : dt.WriteOperation) × (idx < length q)
        × (get_elem? q idx ≡ some rid)
        × (s.local_updates rid ≡ some (UpdateState.placed op lv))
        × (Steps.exec_dispatch_local n s ≢ none)
  unfolding Steps.exec_dispatch_local
  exec_dispatch_local-enabled {s} {n} {lv} {idx} {end} {q} {e} r c lt l own =
      let inv = Run-Inv r in
      let node = inv.nodes n (CombinerState.loop q lv idx end) c in
      let (rid, op, g, u, _) = matches-local e lt l own (node.wf.range) in
      (rid, op, get_elem?-lt q idx g, g, u, λ none_. ground (arith, node.the_replica))

  -- In a state that a run reaches, a combiner in its loop is never stuck: it is able to dispatch the
  -- next entry of the log, or it has reached the end of its range and is able to raise the version
  -- bound.
  pub loop-enabled :
      {number_of_nodes : ℕ} {seen : List (AsyncLabel dt)} {s : State dt} {n lv idx end : ℕ}
      {q : List ℕ}
      → Run number_of_nodes seen s
      → s.combiner n ≡ some (CombinerState.loop q lv idx end)
      → (Steps.exec_dispatch_local n s ≢ none)
        ⊎ ((Steps.exec_dispatch_remote n s ≢ none)
            ⊎ (Steps.exec_update_version_upper_bound n s ≢ none))
  unfolding Steps.exec_dispatch_remote Steps.exec_update_version_upper_bound
  loop-enabled {s} {n} {lv} {idx} {end} {q} r c =
      let inv = Run-Inv r in
      let node = inv.nodes n (CombinerState.loop q lv idx end) c in
      elim (dec_lt lv end) [
        | yes lt ↦
            let (e, l) = inv.log_full lv (omega (arith, node.wf.end_le)) in
            elim (Bool-cases (e.node_id == n)) [
              | inl own ↦
                  let (rid, op, _, _, _, run) =
                    exec_dispatch_local-enabled r c lt l (ground arith) in
                  inl run
              | inr other ↦ inr (inl (λ stuck. ground (arith, node.the_replica)))
            ]
        | no le ↦ inr (inr (λ stuck. ground (arith, node.wf.to)))
      ]

  -- In a state that a run reaches, a combiner that has executed its range is past the end of its
  -- queue, and no request of the queue is still placed (`pre_exec_update_version_upper_bound`).
  pub loop_end-all_answered :
      {number_of_nodes : ℕ} {seen : List (AsyncLabel dt)} {s : State dt} {n lv idx end : ℕ}
      {q : List ℕ}
      → Run number_of_nodes seen s
      → s.combiner n ≡ some (CombinerState.loop q lv idx end)
      → lv ≡ end
      → (idx ≡ length q)
        × ((j rid : ℕ) (op : dt.WriteOperation) (i : ℕ)
            → get_elem? q j ≡ some rid
            → s.local_updates rid ≢ some (UpdateState.placed op i))
  loop_end-all_answered {s} {n} {lv} {idx} {end} {q} r c at =
      let inv = Run-Inv r in
      let w = (inv.nodes n (CombinerState.loop q lv idx end) c).wf in
      let all = matches_end at (w.range) in
      (
        all,
        λ j rid op i g e.
            w.queue.late j rid (UpdateState.placed op i) (omega (arith, get_elem?-lt q j g)) g e,
      )

  -- In a state that a run reaches, a combiner that finds nothing new in the log has an empty queue (`exec_finish_no_change`).
  pub no_change-empty :
      {number_of_nodes : ℕ} {seen : List (AsyncLabel dt)} {s : State dt} {n lv : ℕ} {q : List ℕ}
      → Run number_of_nodes seen s
      → s.combiner n ≡ some (CombinerState.loaded_local_version q lv)
      → lv ≡ s.tail
      → q ≡ []
  no_change-empty {q} r c at =
      let inv = Run-Inv r in
      empty_of_length q
        (matches_end at ((inv.nodes _ (CombinerState.loaded_local_version q _) c).wf.range))
    where
      empty_of_length : (xs : List ℕ) → 0 ≡ length xs → xs ≡ []
      empty_of_length [] e = refl
      empty_of_length (x ∷ xs) e = absurd (omega arith)

  -- In a state that a run reaches, two replicas that have executed the log as far as each other are
  -- equal.
  pub replicas-agree :
      {number_of_nodes : ℕ} {seen : List (AsyncLabel dt)} {s : State dt} {n m : ℕ}
      {c d : CombinerState} {vn vm : ℕ} {rn rm : dt.View}
      → Run number_of_nodes seen s
      → s.combiner n ≡ some c
      → s.combiner m ≡ some d
      → s.local_versions n ≡ some vn
      → s.local_versions m ≡ some vm
      → current_version c vn ≡ current_version d vm
      → s.replicas n ≡ some rn
      → s.replicas m ≡ some rm
      → rn ≡ rm
  replicas-agree {n} {m} {c} {d} r cn cm ln lm same rn rm =
      let inv = Run-Inv r in
      let a = inv.nodes n c cn in
      let b = inv.nodes m d cm in
      ground (arith, a.the_version, b.the_version, a.the_replica, b.the_replica)
