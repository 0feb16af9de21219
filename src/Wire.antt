-- ===== src/Wire.antt =====
-- core/NDimensionalIpcRunner.cxx: the texts that the supervisor and the workers exchange.
pub mod Defs
pub mod RoundTrip
pub mod Batches
