-- ===== src/Worker/Leaving.antt =====
-- core/NDimensionalIpcRunner.cxx: how often a worker says SHUTDOWN, to the end of `TaskLoop`.
