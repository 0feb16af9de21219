-- ===== src/Binning.antt =====
-- core/NBinning.h and .cxx, base/NUtils.cxx: axes that are divided into bins, and what a bin covers.
pub mod Ranges
pub mod Defs
pub mod Tiling
pub mod Widths
pub mod Walk
pub mod Coordinates
pub mod AxisBinning
pub mod Storage
pub mod Fill
pub mod Product
pub mod Filling
pub mod Marking
pub mod Outcome
pub mod Definitions
pub mod Ending
pub mod Store
pub mod Ids
pub mod Numbered
pub mod Refreshed
