-- ===== src/Sweep.antt =====
-- core/NDimensionalExecutor.cxx: the bounds of the executor and the sequential sweep over the points
-- between them.
pub mod Defs
pub mod Box
pub mod Advance
pub mod Complete
pub mod Once
