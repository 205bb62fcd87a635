-- ===== src/Linearization.antt =====
-- spec/linearization.rs
pub mod Relation
pub mod Answer
pub mod Reads
pub mod Updates
pub mod Future
pub mod Incr
pub mod Refinement
