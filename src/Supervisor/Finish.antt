-- ===== src/Supervisor/Finish.antt =====
-- core/NDimensionalExecutor.cxx: the end of a session.
pub mod Defs
pub mod Confirmed
