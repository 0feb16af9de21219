-- ===== src/Tests.antt =====
-- Runs at concrete inputs, and the theorems at inputs that meet their hypotheses.
mod Sweeping
mod Managing
mod Supervising
mod Looping
mod Finishing
mod Writing
mod Dividing
mod Pooling
mod Defining
mod Refreshing
mod Working
mod Requesting
mod Reshaping
