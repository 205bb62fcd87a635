-- ===== src/Exec/Constants.antt =====
-- constants.rs, and the machine integers of the executable code.
use verified_node_replicatio.Prelude.{ℕ, ◌+◌, ◌*◌, ◌-◌, ◌%◌}

abbrev pub max_replicas : ℕ
max_replicas = 16

abbrev pub log_size : ℕ
log_size = 512 * 1024

abbrev pub max_threads_per_replica : ℕ
max_threads_per_replica = 64

abbrev pub max_pending_ops : ℕ
max_pending_ops = 1

abbrev pub max_requests : ℕ
max_requests = max_threads_per_replica * max_pending_ops

abbrev pub response_check_interval : ℕ
response_check_interval = 0x2000_0000

abbrev pub gc_from_head : ℕ
gc_from_head = max_pending_ops * max_threads_per_replica

abbrev pub max_idx : ℕ
max_idx = 0xffff_ffff_f000_0000

-- `2 ^ 64`
abbrev pub u64_size : ℕ
u64_size = 0x1_0000_0000_0000_0000

-- Addition and subtraction of `u64`, which wrap around.
abbrev pub wrapping_add : ℕ → ℕ → ℕ
wrapping_add a b = (a + b) % u64_size

abbrev pub wrapping_sub : ℕ → ℕ → ℕ
wrapping_sub a b = (a + u64_size - b) % u64_size
