-- ===== src/Worker/Acknowledged.antt =====
-- core/NDimensionalIpcRunner.cxx: over the rounds of `TaskLoop`, what is processed is acknowledged.
