-- ===== src/Supervisor.antt =====
-- core/NDimensionalExecutor.cxx: the supervisor of worker processes.
pub mod Defs
pub mod Balance
pub mod Failure
pub mod Acks
pub mod Batch
pub mod Dispatch
pub mod Rounds
pub mod Loop
pub mod Finish
