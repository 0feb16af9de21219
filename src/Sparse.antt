-- ===== src/Sparse.antt =====
-- base/NUtils.cxx: histograms that hold only their filled bins.
pub mod Defs
pub mod Arranged
pub mod Orders
pub mod Axes
pub mod Points
