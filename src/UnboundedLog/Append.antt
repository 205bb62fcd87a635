-- ===== src/UnboundedLog/Append.antt =====
-- spec/unbounded_log.rs, `update_place_ops_in_log_one_inductive`: a combiner places a request at the
-- end of the log.
use verified_node_replicatio.Prelude.{
  ℕ, suc, ◌≤◌, ◌<◌, ◌≡◌, ◌≢◌, ◌==◌, inl, inr, Bool-cases, Map, insert, arith,
}
use verified_node_replicatio.Dispatch.{Dispatch}
use verified_node_replicatio.UnboundedLog.{LogEntry, UpdateState, CombinerState, queued_ops}
use verified_node_replicatio.UnboundedLog.LogRange.{
  LogRangeNoNodeId, matches_map, matches-append_other,
}
use verified_node_replicatio.UnboundedLog.Inv.{CombinerWf}
use verified_node_replicatio.UnboundedLog.Keep.{Keeps, CombinerWf-Keeps}

module _ {dt : Dispatch} where
  free-append :
      {log : Map (LogEntry dt)} {start tail n : ℕ} (e : LogEntry dt)
      → e.node_id ≢ n
      → LogRangeNoNodeId log start tail n
      → LogRangeNoNodeId (insert log tail e) start (suc tail) n
  free-append {log} {start} {tail} e ne free i lo hi = elim (Bool-cases (tail == i)) [
    | inl here ↦ (e, ground arith, ne)
    | inr other ↦ let (f, g, h) = free i lo (ground arith) in (f, rw other g, h)
  ]

  pub agree_below :
      (log : Map (LogEntry dt)) (tail : ℕ) (e : LogEntry dt) (k : ℕ)
      → k ≤ tail
      → (i : ℕ) → i < k
      → insert log tail e i ≡ log i
  agree_below log tail e k le i lt = ground arith

  -- Another node's combiner, under an entry that is not its own.
  pub CombinerWf-append_other :
      (log : Map (LogEntry dt)) (tail vub : ℕ) (updates updates' : Map (UpdateState dt)) (n v : ℕ)
      (e : LogEntry dt)
      → e.node_id ≢ n
      → vub ≤ tail
      → (c : CombinerState) → Keeps (queued_ops c) updates updates'
      → CombinerWf log tail vub updates n v c
      → CombinerWf (insert log tail e) (suc tail) vub updates' n v c
  CombinerWf-append_other log tail vub upd upd' n v e ne le c k w =
      go c (CombinerWf-Keeps log tail vub vub upd upd' n v (omega arith) c k w)
    where
      go :
          (d : CombinerState)
          → CombinerWf log tail vub upd' n v d
          → CombinerWf (insert log tail e) (suc tail) vub upd' n v d
      go CombinerState.ready h = record { free = free-append e ne (h.free) }
      go (CombinerState.placed q) h = record {
        range = matches-append_other e ne (h.range);
        queue = h.queue;
      }
      go (CombinerState.loaded_local_version q lv) h = record {
        same = h.same;
        range = matches-append_other e ne (h.range);
        queue = h.queue;
      }
      go (CombinerState.loop q lv idx end) h = record {
        end_le = omega (arith, h.end_le);
        from = h.from;
        to = h.to;
        idx_le = h.idx_le;
        range = matches_map (agree_below log tail e end (h.end_le)) (λ j r i o _ _ f. f) (h.range);
        free = free-append e ne (h.free);
        queue = h.queue;
      }
      go (CombinerState.updated_version q end) h = record {
        end_le = h.end_le;
        from = h.from;
        free = free-append e ne (h.free);
        queue = h.queue;
      }
