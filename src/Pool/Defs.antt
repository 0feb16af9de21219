-- ===== src/Pool/Defs.antt =====
-- core/NDimensionalExecutor.cxx: `ExecuteParallel` as steps of the main thread and of the workers
-- in any order. What a thread does under `queue_mutex` is one step, but for the wait of the main
-- thread: it holds the mutex from the test of its condition until it sleeps. A function that is
-- called with a point may throw or return. The exceptions of the main thread, which come from the
-- allocator, are left out.
use ndmspc.Base.{
  ℕ, zero, suc, ◌+◌, ◌-◌, ◌==◌, ◌≡◌, Bool, true, false, ◌&&◌, List, [], ◌∷◌, ◌++◌, some, length,
  get_elem?, set, All,
}
use ndmspc.Sweep.Defs.{Coords, Executor, increment}

-- Where a worker stands.
pub data Worker : Type 0 where
  idle : Worker  -- before the wait on `condition_producer`
  running : Coords → Worker  -- in the call with the point
  returned : Worker  -- before `--active_tasks`
  counted : Bool → Worker  -- behind it; whether it reached 0
  caught : Coords → Worker  -- in the handler
  stored : Worker  -- behind the storing of the exception
  drained : Worker  -- behind the drain of the queue
  woke : Worker  -- before `--active_tasks` in the handler
  failed : Bool → Worker  -- behind it
  exited : Worker

-- Where the main thread stands.
pub data Main : Type 0 where
  enqueue : Executor → Main  -- head of the loop over the points
  stop : Main  -- before `stop_pool = true`
  test : Main  -- before the test of the condition
  tested : Main  -- behind a test that failed, with the mutex
  asleep : Main
  join : Main
  done : Main

pub record Pool : Type 0 where
  pub tasks : List Coords
  pub active_tasks : ℕ
  pub stop_pool : Bool
  pub first_exception : Bool
  pub main : Main
  pub workers : List Worker
  pub executed : List Coords  -- the points whose calls have returned, in order

-- `queue_mutex` can be had.
abbrev pub is_free : Main → Bool
is_free Main.tested = false
is_free _ = true

-- `condition_consumer.notify_one()`: nobody hears it but a thread that sleeps.
abbrev pub notify : Main → Main
notify Main.asleep = Main.test
notify m = m

abbrev pub notify_if : Bool → Main → Main
notify_if true m = notify m
notify_if false m = m

-- `while (Increment())`
abbrev pub next_point : Executor × Bool → Main
next_point (e, true) = Main.enqueue e
next_point (e, false) = Main.stop

-- A step of one worker, by what the others see of it: the pool without the list of workers.
pub data Move (p : Pool) : Worker → Pool → Worker → Type 0 where
  take :
      (c : Coords) (rest : List Coords)
      → is_free p.main ≡ true
      → p.tasks ≡ c ∷ rest
      → Move p Worker.idle (record p { tasks = rest }) (Worker.running c)
  leave :
      is_free p.main ≡ true → p.stop_pool ≡ true → p.tasks ≡ [] → Move p Worker.idle p Worker.exited
  return :
      (c : Coords)
      → Move p (Worker.running c) (record p { executed = p.executed ++ c ∷ [] }) Worker.returned
  count_down :
      Move p Worker.returned
        (record p { active_tasks = p.active_tasks - 1 })
        (Worker.counted (p.active_tasks - 1 == 0))
  signal :
      (b : Bool)
      → Move p
          (Worker.counted b)
          (record p { main = notify_if (b && p.stop_pool) p.main })
          Worker.idle
  throw : (c : Coords) → Move p (Worker.running c) p (Worker.caught c)
  store :
      (c : Coords) → Move p (Worker.caught c) (record p { first_exception = true }) Worker.stored
  drain :
      is_free p.main ≡ true
      → Move p Worker.stored
          (record p {
            stop_pool = true;
            tasks = [];
            active_tasks = p.active_tasks - length p.tasks;
          })
          Worker.drained
  wake : Move p Worker.drained (record p { main = notify p.main }) Worker.woke
  give_up :
      Move p Worker.woke
        (record p { active_tasks = p.active_tasks - 1 })
        (Worker.failed (p.active_tasks - 1 == 0))
  exit :
      (b : Bool)
      → Move p
          (Worker.failed b)
          (record p { main = notify_if (b && p.stop_pool) p.main })
          Worker.exited

pub data Step (p : Pool) : Pool → Type 0 where
  work :
      (i : ℕ) {q : Pool} {w v : Worker}
      → get_elem? p.workers i ≡ some w
      → Move p w q v
      → Step p (record q { workers = set p.workers i v })
  add :
      (e : Executor)
      → p.main ≡ Main.enqueue e
      → p.stop_pool ≡ false
      → Step p (record p {
        active_tasks = p.active_tasks + 1;
        tasks = p.tasks ++ e.current_coords ∷ [];
        main = next_point (increment e);
      })
  break :
      (e : Executor)
      → p.main ≡ Main.enqueue e
      → p.stop_pool ≡ true
      → Step p (record p { main = Main.stop })
  set_stop : p.main ≡ Main.stop → Step p (record p { stop_pool = true; main = Main.test })
  go_on :
      p.main ≡ Main.test
      → (p.stop_pool && p.active_tasks == 0) ≡ true
      → Step p (record p { main = Main.join })
  fail :
      p.main ≡ Main.test
      → (p.stop_pool && p.active_tasks == 0) ≡ false
      → Step p (record p { main = Main.tested })
  sleep : p.main ≡ Main.tested → Step p (record p { main = Main.asleep })
  finish :
      p.main ≡ Main.join
      → All (λ w. w ≡ Worker.exited) p.workers
      → Step p (record p { main = Main.done })

abbrev pub all_idle : ℕ → List Worker
all_idle zero = []
all_idle (suc n) = Worker.idle ∷ all_idle n

-- The start of `n` workers, with `fCurrentCoords = fMinBounds`.
abbrev pub start_pool : ℕ → Executor → Pool
start_pool n e = record {
  tasks = [];
  active_tasks = 0;
  stop_pool = false;
  first_exception = false;
  main = Main.enqueue (record e { current_coords = e.min_bounds });
  workers = all_idle n;
  executed = [];
}

-- What can be reached. A sleeping thread may wake up by itself, which C++ allows and does not
-- promise.
pub data Reach (n : ℕ) (e : Executor) : Pool → Type 0 where
  start : Reach n e (start_pool n e)
  later : {p q : Pool} → Reach n e p → Step p q → Reach n e q
  spurious :
      {p : Pool} → Reach n e p → p.main ≡ Main.asleep → Reach n e (record p { main = Main.test })
