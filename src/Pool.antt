-- ===== src/Pool.antt =====
-- core/NDimensionalExecutor.cxx: `ExecuteParallel`, a pool of threads that take points from a queue.
pub mod Defs
pub mod Workers
pub mod Invariant
pub mod Soundness
pub mod Safety
pub mod LostWake
