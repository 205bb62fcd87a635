-- ===== src/UnboundedLog/LogRange.antt =====
-- spec/unbounded_log.rs: what a range of the log says of the queue of a combiner, and how these
-- predicates live through a change of the log or of the updates.
use verified_node_replicatio.Prelude.{
  ℕ, zero, suc, ◌+◌, ◌≤◌, ◌<◌, ◌≡◌, ◌≢◌, refl, ◌∙◌, some, List, length, get_elem?, push,
  get_elem?-push_lt, get_elem?-push_self, get_elem?-lt, length-push, Map, insert, insert_ne, arith,
}
use verified_node_replicatio.Dispatch.{Dispatch}
use verified_node_replicatio.UnboundedLog.{LogEntry, UpdateState, compute_nrstate_at_version}

module _ {dt : Dispatch} where
  -- `LogRangeNoNodeId`: every index of the range has an entry, and none is of the node.
  abbrev pub LogRangeNoNodeId : Map (LogEntry dt) → ℕ → ℕ → ℕ → Type 0
  LogRangeNoNodeId log start end node_id =
      (i : ℕ) → start ≤ i → i < end → (e : LogEntry dt) × (log i ≡ some e) × (e.node_id ≢ node_id)

  -- The local entries from `lower` up to `upper` are, in order, those of the requests in `queue` from
  -- `qi` on, each of which is placed there.
  pub data LogRangeMatchesQueue (queue : List ℕ) (log : Map (LogEntry dt)) (upper node_id : ℕ)
      (updates : Map (UpdateState dt)) : ℕ → ℕ → Type 0 where
    finished :
        {qi lower : ℕ}
        → lower ≡ upper
        → qi ≡ length queue
        → LogRangeMatchesQueue queue log upper node_id updates qi lower
    local :
        {qi lower : ℕ} (e : LogEntry dt) (rid : ℕ) (op : dt.WriteOperation)
        → lower < upper
        → log lower ≡ some e
        → e.node_id ≡ node_id
        → get_elem? queue qi ≡ some rid
        → updates rid ≡ some (UpdateState.placed op lower)
        → LogRangeMatchesQueue queue log upper node_id updates (suc qi) (suc lower)
        → LogRangeMatchesQueue queue log upper node_id updates qi lower
    remote :
        {qi lower : ℕ} (e : LogEntry dt)
        → lower < upper
        → log lower ≡ some e
        → e.node_id ≢ node_id
        → LogRangeMatchesQueue queue log upper node_id updates qi (suc lower)
        → LogRangeMatchesQueue queue log upper node_id updates qi lower

  -- The range is as before where its entries are, and the placed requests of the queue.
  pub matches_map :
      {queue : List ℕ} {log log' : Map (LogEntry dt)} {upper node_id : ℕ}
      {updates updates' : Map (UpdateState dt)} {qi lower : ℕ}
      → ((i : ℕ) → i < upper → log' i ≡ log i)
      → ((j rid i : ℕ) (op : dt.WriteOperation)
          → qi ≤ j
          → get_elem? queue j ≡ some rid
          → updates rid ≡ some (UpdateState.placed op i)
          → updates' rid ≡ some (UpdateState.placed op i))
      → LogRangeMatchesQueue queue log upper node_id updates qi lower
      → LogRangeMatchesQueue queue log' upper node_id updates' qi lower
  matches_map fl fu (finished p q) = finished p q
  matches_map {qi} {lower} fl fu (local e rid op lt h n g u m) =
      local e rid op lt (fl lower lt ∙ h) n g (fu qi rid lower op (omega arith) g u)
        (matches_map fl (λ j r i o le. fu j r i o (omega arith)) m)
  matches_map {qi} {lower} fl fu (remote e lt h n m) =
      remote e lt (fl lower lt ∙ h) n (matches_map fl fu m)

  -- `concat_LogRangeNoNodeId_LogRangeMatchesQueue`
  pub no_node-matches :
      {queue : List ℕ} {log : Map (LogEntry dt)} {upper node_id : ℕ}
      {updates : Map (UpdateState dt)} {qi : ℕ} (k a : ℕ)
      → k + a ≤ upper
      → LogRangeNoNodeId log a (k + a) node_id
      → LogRangeMatchesQueue queue log upper node_id updates qi (k + a)
      → LogRangeMatchesQueue queue log upper node_id updates qi a
  no_node-matches zero a le free m = let e : 0 + a ≡ a = omega arith in rw e at m
  no_node-matches (suc k) a le free m =
      let (e, h, n) = free a (omega arith) (omega arith) in
      let s : suc k + a ≡ k + suc a = omega arith in
      remote e (omega arith) h n (
        no_node-matches k (suc a) (omega arith) (λ i lo hi. free i (omega arith) (omega arith))
          (rw s at m))

  -- `LogRangeMatchesQueue_append`: the node places one more of its requests.
  pub matches-append :
      {queue : List ℕ} {log : Map (LogEntry dt)} {upper node_id : ℕ}
      {updates : Map (UpdateState dt)} {qi lower : ℕ} (rid : ℕ) (op : dt.WriteOperation)
      → ((j r : ℕ) → get_elem? queue j ≡ some r → rid ≢ r)
      → LogRangeMatchesQueue queue log upper node_id updates qi lower
      → LogRangeMatchesQueue
          (push queue rid)
          (insert log upper (record { op = op; node_id = node_id }))
          (suc upper)
          node_id
          (insert updates rid (UpdateState.placed op upper))
          qi
          lower
  matches-append {queue} {log} {upper} {node_id} {updates} {qi} {lower} rid op new (finished p q) =
      local (record { op = op; node_id = node_id }) rid op (omega arith) (ground arith) refl
        (rw q (get_elem?-push_self queue rid)) (ground arith)
        (finished (omega arith) (omega (arith, length-push queue rid)))
  matches-append {queue} {log} {upper} {updates = updates} {qi} {lower} rid op new
        (local e r o lt h n g u m) =
      local e r o (omega arith) (ground arith) n
        (get_elem?-push_lt queue rid qi (get_elem?-lt queue qi g) ∙ g)
        (insert_ne updates rid r (UpdateState.placed op upper) (new qi r g) ∙ u)
        (matches-append rid op new m)
  matches-append rid op new (remote e lt h n m) =
      remote e (omega arith) (ground arith) n (matches-append rid op new m)

  -- `LogRangeMatchesQueue_append_other_augment`: another node places a request.
  pub matches-append_other :
      {queue : List ℕ} {log : Map (LogEntry dt)} {upper node_id : ℕ}
      {updates : Map (UpdateState dt)} {qi lower : ℕ} (e : LogEntry dt)
      → e.node_id ≢ node_id
      → LogRangeMatchesQueue queue log upper node_id updates qi lower
      → LogRangeMatchesQueue queue (insert log upper e) (suc upper) node_id updates qi lower
  matches-append_other e ne (finished p q) =
      remote e (omega arith) (ground arith) ne (finished (omega arith) q)
  matches-append_other e ne (local f r o lt h n g u m) =
      local f r o (omega arith) (ground arith) n g u (matches-append_other e ne m)
  matches-append_other e ne (remote f lt h n m) =
      remote f (omega arith) (ground arith) n (matches-append_other e ne m)

  -- `compute_nrstate_at_version_preserves`
  pub compute-agree :
      {log log' : Map (LogEntry dt)} (v : ℕ)
      → ((i : ℕ) → i < v → log' i ≡ log i)
      → compute_nrstate_at_version dt log' v ≡ compute_nrstate_at_version dt log v
  unfolding compute_nrstate_at_version
  compute-agree zero h = refl
  compute-agree (suc v) h =
      ground (arith, compute-agree v (λ i lt. h i (omega arith)), h v (omega arith))

  pub compute-suc :
      (log : Map (LogEntry dt)) (v : ℕ) {e : LogEntry dt}
      → log v ≡ some e
      → compute_nrstate_at_version dt log (suc v)
        ≡ (dt.dispatch_mut_spec (compute_nrstate_at_version dt log v) (e.op)).0
  unfolding compute_nrstate_at_version
  compute-suc log v h = ground arith
