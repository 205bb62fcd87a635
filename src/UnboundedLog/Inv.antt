-- ===== src/UnboundedLog/Inv.antt =====
-- spec/unbounded_log.rs: the invariants of the state machine, without the finiteness of the request ids, the
-- domains of the combiners and the node of a read that is done.
use verified_node_replicatio.Prelude.{
  ℕ, ◌≤◌, ◌<◌, ◌≡◌, Option, none, some, List, length, get_elem?, Map,
}
use verified_node_replicatio.Dispatch.{Dispatch}
use verified_node_replicatio.UnboundedLog.{
  LogEntry, ReadonlyState, UpdateState, CombinerState, queued_ops, State,
  compute_nrstate_at_version, current_version,
}
use verified_node_replicatio.UnboundedLog.LogRange.{LogRangeNoNodeId, LogRangeMatchesQueue}

-- A node with this combiner state and local version has executed the log as far as `vub`.
pub record Reached (combiner : Option CombinerState) (version : Option ℕ) (vub : ℕ) : Type 0 where
  pub c : CombinerState
  pub v : ℕ
  pub the_combiner : combiner ≡ some c
  pub the_version : version ≡ some v
  pub enough : vub ≤ current_version c v

-- No request is queued twice, at one node or at two.
abbrev pub Owner : Map CombinerState → Type 0
Owner m =
    (n n' j j' rid : ℕ) (c c' : CombinerState)
    → m n ≡ some c
    → m n' ≡ some c'
    → get_elem? (queued_ops c) j ≡ some rid
    → get_elem? (queued_ops c') j' ≡ some rid
    → (n ≡ n') × (j ≡ j')

module _ {dt : Dispatch} where
  -- The update has been executed.
  abbrev pub IsLate : UpdateState dt → Type 0
  IsLate (UpdateState.init op) = ⊥
  IsLate (UpdateState.placed op idx) = ⊥
  IsLate (UpdateState.applied ret idx) = Unit {0}
  IsLate (UpdateState.done ret idx) = Unit {0}

  -- `QueueRidsUpdateDone` below `idx` and `QueueRidsUpdatePlaced` from there on.
  pub record QueueWf (q : List ℕ) (updates : Map (UpdateState dt)) (idx : ℕ) : Type 0 where
    pub late :
        (j rid : ℕ) (u : UpdateState dt)
        → j < idx
        → get_elem? q j ≡ some rid
        → updates rid ≡ some u
        → IsLate u
    pub waiting :
        (j rid : ℕ)
        → idx ≤ j
        → get_elem? q j ≡ some rid
        → (op : dt.WriteOperation) × (i : ℕ) × (updates rid ≡ some (UpdateState.placed op i))

  -- `wf_combiner_for_node_id`, at the local version `v` of the node.
  module _ (log : Map (LogEntry dt)) (tail vub : ℕ) (updates : Map (UpdateState dt))
      (node_id v : ℕ) where
    pub record ReadyWf : Type 0 where
      pub free : LogRangeNoNodeId log v tail node_id

    pub record PlacedWf (q : List ℕ) : Type 0 where
      pub range : LogRangeMatchesQueue q log tail node_id updates 0 v
      pub queue : QueueWf q updates 0

    pub record LoadedWf (q : List ℕ) (lversion : ℕ) : Type 0 where
      pub same : lversion ≡ v
      pub range : LogRangeMatchesQueue q log tail node_id updates 0 lversion
      pub queue : QueueWf q updates 0

    pub record LoopWf (q : List ℕ) (lversion idx end : ℕ) : Type 0 where
      pub end_le : end ≤ tail
      pub from : v ≤ lversion
      pub to : lversion ≤ end
      pub idx_le : idx ≤ length q
      pub range : LogRangeMatchesQueue q log end node_id updates idx lversion
      pub free : LogRangeNoNodeId log end tail node_id
      pub queue : QueueWf q updates idx

    pub record UpdatedWf (q : List ℕ) (end : ℕ) : Type 0 where
      pub end_le : end ≤ vub
      pub from : v ≤ end
      pub free : LogRangeNoNodeId log end tail node_id
      pub queue : QueueWf q updates (length q)

    abbrev pub CombinerWf : CombinerState → Type 0
    CombinerWf CombinerState.ready = ReadyWf
    CombinerWf (CombinerState.placed q) = PlacedWf q
    CombinerWf (CombinerState.loaded_local_version q lversion) = LoadedWf q lversion
    CombinerWf (CombinerState.loop q lversion idx end) = LoopWf q lversion idx end
    CombinerWf (CombinerState.updated_version q end) = UpdatedWf q end

  -- The answer is that of the data structure at a version between `vub` and `limit`.
  pub record AnswerAt (log : Map (LogEntry dt)) (vub limit : ℕ) (op : dt.ReadOperation)
      (ret : dt.Response) : Type 0 where
    pub at : ℕ
    pub lo : vub ≤ at
    pub hi : at ≤ limit
    pub answer : ret ≡ dt.dispatch_spec (compute_nrstate_at_version dt log at) op

  -- `wf_readstate` and `read_results_match`
  module _ (log : Map (LogEntry dt)) (limit : ℕ) (combiner : Map CombinerState)
      (versions : Map ℕ) where
    abbrev pub ReadWf : ReadonlyState dt → Type 0
    ReadWf (ReadonlyState.init op) = Unit {0}
    ReadWf (ReadonlyState.version_upper_bound op vub) = vub ≤ limit
    ReadWf (ReadonlyState.ready_to_read op vub node_id) =
        (vub ≤ limit) × Reached (combiner node_id) (versions node_id) vub
    ReadWf (ReadonlyState.done op vub node_id ret) = AnswerAt log vub limit op ret

  -- The result of the update is that of its entry of the log, which lies below `limit`.
  pub record ResultAt (log : Map (LogEntry dt)) (limit idx : ℕ) (ret : dt.Response) : Type 0 where
    pub e : LogEntry dt
    pub below : idx < limit
    pub entry : log idx ≡ some e
    pub result : ret ≡ (dt.dispatch_mut_spec (compute_nrstate_at_version dt log idx) (e.op)).1

  -- `inv_local_updates_wf` and `update_results_match`
  abbrev pub UpdateWf : Map (LogEntry dt) → ℕ → ℕ → UpdateState dt → Type 0
  UpdateWf log tail vub (UpdateState.init op) = Unit {0}
  UpdateWf log tail vub (UpdateState.placed op idx) = idx < tail
  UpdateWf log tail vub (UpdateState.applied ret idx) = ResultAt log tail idx ret
  UpdateWf log tail vub (UpdateState.done ret idx) = ResultAt log vub idx ret

  -- What is known of a node with combiner state `c`, by its local version and its replica.
  pub record NodeWf (log : Map (LogEntry dt)) (tail vub : ℕ) (updates : Map (UpdateState dt))
      (node_id : ℕ) (version : Option ℕ) (replica : Option (dt.View)) (c : CombinerState)
      : Type 0 where
    pub v : ℕ
    pub the_version : version ≡ some v
    pub version_le : v ≤ vub
    pub the_replica : replica ≡ some (compute_nrstate_at_version dt log (current_version c v))
    pub wf : CombinerWf log tail vub updates node_id v c

  pub record Inv (s : State dt) : Type 0 where
    pub vub_le : s.version_upper_bound ≤ s.tail
    pub log_full : (i : ℕ) → i < s.tail → (e : LogEntry dt) × (s.log i ≡ some e)
    pub log_end : (i : ℕ) → s.tail ≤ i → s.log i ≡ none
    pub nodes :
        (n : ℕ) (c : CombinerState)
        → s.combiner n ≡ some c
        → NodeWf
            (s.log)
            (s.tail)
            (s.version_upper_bound)
            (s.local_updates)
            n
            (s.local_versions n)
            (s.replicas n)
            c
    pub combiners :
        (n v : ℕ) → s.local_versions n ≡ some v → (c : CombinerState) × (s.combiner n ≡ some c)
    pub owner : Owner (s.combiner)
    pub reads :
        (rid : ℕ) (r : ReadonlyState dt)
        → s.local_reads rid ≡ some r
        → ReadWf (s.log) (s.version_upper_bound) (s.combiner) (s.local_versions) r
    pub updates :
        (rid : ℕ) (u : UpdateState dt)
        → s.local_updates rid ≡ some u
        → UpdateWf (s.log) (s.tail) (s.version_upper_bound) u
