-- ===== src/CyclicBuffer/Index.antt =====
-- spec/cyclicbuffer.rs: the physical indices and the alive values of the entries of a buffer of
-- `log_size` entries.
use verified_node_replicatio.Prelude.{ℕ, ◌+◌, ◌≤◌, ◌<◌, ◌≡◌, ◌≢◌, not, arith}
use verified_node_replicatio.CyclicBuffer.{log_size, log_entry_idx, log_entry_alive_value}

-- Two entries of one pass over the buffer have different physical indices
-- (`log_entry_idx_wrap_around`).
pub log_entry_idx-wrap_around :
    (start i j : ℕ)
    → start ≤ i
    → i < start + log_size
    → start ≤ j
    → j < start + log_size
    → i ≢ j
    → log_entry_idx i log_size ≢ log_entry_idx j log_size
log_entry_idx-wrap_around start i j a b c d ne same = ne (omega arith)

-- The alive value flips on each pass (`log_entry_alive_value_wrap_around`), and the physical index is
-- the same.
pub log_entry_alive_value-wrap_around :
    (i : ℕ)
    → (log_entry_alive_value (i + log_size) log_size ≡ not (log_entry_alive_value i log_size))
      × (log_entry_idx (i + log_size) log_size ≡ log_entry_idx i log_size)
log_entry_alive_value-wrap_around i = (ground arith, omega arith)
