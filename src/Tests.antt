-- ===== src/Tests.antt =====
-- Runs on small inputs, and the theorems applied to them.
mod RwLock
mod Exec
mod Calls
mod Counter
mod Log
mod Lock
mod Combiner
mod Simple
mod Buffer
mod MinVersion
