-- ===== src/Exec.antt =====
-- exec/: the executable library. Its atomics and cells are fields of the shared state, the ghost state
-- of the source is left to the state machines of spec/.
pub mod Constants
pub mod RwLock
pub mod Log
pub mod Context
pub mod Replica
pub mod NodeReplicated
