-- ===== src/Tests/Pooling.antt =====
-- core/NDimensionalExecutor.cxx: one worker that executes one point.
use ndmspc.Base.Int.{pos, ◌+ℤ◌}
use ndmspc.Base.{◌≤◌, ◌≡◌, refl, true, false, [], ◌∷◌, some, if◌then◌else◌}
use ndmspc.Pool.Defs.{Main, Move, Pool, Reach, Step, Worker}
use ndmspc.Pool.Invariant.{holding, is_late}
use ndmspc.Pool.LostWake.{IsStuck, execute_parallel-IsStuck}
use ndmspc.Pool.Safety.{execute_parallel-count}
use ndmspc.Pool.Workers.{total}
use ndmspc.Sweep.Box.{box}
use ndmspc.Sweep.Defs.{
  Coords, Executor, construct, check_bounds, first_bad, increment, increment_loop,
}
use ndmspc.Sweep.Once.{count, coords_dec, is_within}

abbrev origin : Coords
origin = pos 0 ∷ []

abbrev only : Executor
only = record {
  num_dimensions = 1;
  min_bounds = origin;
  max_bounds = origin;
  current_coords = origin;
}

only_made : construct origin origin ≡ some only
unfolding construct check_bounds first_bad
only_made = refl

-- The pool when the main thread is behind its wait.
abbrev waited : Pool
waited = record {
  tasks = [];
  active_tasks = 0;
  stop_pool = true;
  first_exception = false;
  main = Main.join;
  workers = Worker.counted true ∷ [];
  executed = origin ∷ [];
}

waited_reached : Reach 1 only waited
unfolding increment increment_loop ◌+ℤ◌
waited_reached =
    let added = Reach.later Reach.start (Step.add only refl refl) in
    let taken = Reach.later added (Step.work 0 refl (Move.take origin [] refl refl)) in
    let ran = Reach.later taken (Step.work 0 refl (Move.return origin)) in
    let counted = Reach.later ran (Step.work 0 refl Move.count_down) in
    let stopped = Reach.later counted (Step.set_stop refl) in
    Reach.later stopped (Step.go_on refl refl)

execute_parallel-count_example :
    (count coords_dec origin waited.executed ≤ (if is_within origin origin origin then 1 else 0))
    × (is_late waited.main ≡ true
        → (waited.tasks ≡ [])
          × (total holding waited.workers ≡ 0)
          × (waited.first_exception ≡ false
              → count coords_dec origin waited.executed
                ≡ (if is_within origin origin origin then 1 else 0)))
execute_parallel-count_example =
    execute_parallel-count origin origin origin 1 only_made waited_reached

execute_parallel-IsStuck_example :
    (p : Pool) × Reach 1 only p
    × IsStuck p
    × (p.executed ≡ box origin origin)
    × (p.first_exception ≡ false)
execute_parallel-IsStuck_example = execute_parallel-IsStuck origin origin only_made
