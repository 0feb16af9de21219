-- ===== src/Worker.antt =====
-- core/NDimensionalIpcRunner.cxx: the loop of a worker process.
pub mod Defs
pub mod Messages
pub mod Rounds
pub mod Answers
pub mod Acknowledged
pub mod Notices
pub mod Told
pub mod Leaving
pub mod Serving
pub mod Batches
pub mod Service
pub mod Crash
