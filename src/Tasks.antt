-- ===== src/Tasks.antt =====
-- core/NTaskStateManager.h and .cxx: the life of a task, pending to running to done. `Defs` is the
-- class; the other modules are about its methods.
pub mod Defs
pub mod Partition
pub mod Invariant
pub mod Phases
pub mod WorkerSets
pub mod Counts
pub mod Owners
pub mod Payloads
pub mod History
pub mod Lifecycle
