-- ===== src/UnboundedLog/Preserve.antt =====
-- spec/unbounded_log.rs: the `…_inductive` proofs of the invariant.
pub mod Parts
pub mod Requests
pub mod Exec
pub mod Dispatched
pub mod Place
pub mod Reachable
