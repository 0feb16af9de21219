-- ===== src/Supervisor/Loop.antt =====
-- core/NDimensionalExecutor.cxx: the main loop of the supervisor.
pub mod Defs
pub mod Messages
pub mod Rounds
pub mod Whole
pub mod Bootstrap
pub mod Replies
