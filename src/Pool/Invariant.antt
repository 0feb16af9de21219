-- ===== src/Pool/Invariant.antt =====
-- core/NDimensionalExecutor.cxx: where the points of `ExecuteParallel` are between two steps.
use ndmspc.Base.{
  ℕ, ◌+◌, ◌-◌, ◌<◌, ◌≤◌, ◌≡◌, refl, sym, ap, ◌∙◌, Bool, true, false, ◌&&◌, List, [], ◌∷◌, ◌++◌,
  some, length, get_elem?, set, arith, ite,
}
use ndmspc.Pool.Defs.{Worker, Main, Pool, Move, notify, notify_if}
use ndmspc.Pool.Workers.{total, total-set}
use ndmspc.Sweep.Advance.{after}
use ndmspc.Sweep.Complete.{IsReady}
use ndmspc.Sweep.Defs.{Coords}
use ndmspc.Sweep.Once.{count, coords_dec}

-- A worker that `active_tasks` counts.
abbrev pub holding : Worker → ℕ
holding Worker.idle = 0
holding (Worker.counted b) = 0
holding (Worker.failed b) = 0
holding Worker.exited = 0
holding _ = 1

-- A worker that has a point and has not executed it.
abbrev pub calling : Coords → Worker → ℕ
calling c (Worker.running d) = ite (coords_dec c d) 1 0
calling c (Worker.caught d) = ite (coords_dec c d) 1 0
calling c _ = 0

-- A worker that is about to drain the queue.
abbrev pub draining : Worker → ℕ
draining Worker.stored = 1
draining _ = 0

-- The points that the main thread has not added.
abbrev pub remaining : Main → List Coords
remaining (Main.enqueue e) = e.current_coords ∷ after e.min_bounds e.max_bounds e.current_coords
remaining _ = []

-- How often a point stands in the pool.
abbrev pub placed : Coords → Pool → ℕ
placed c p =
    count coords_dec c p.executed
    + count coords_dec c p.tasks
    + total (calling c) p.workers
    + count coords_dec c (remaining p.main)

-- The main thread has not come to `stop_pool = true`.
abbrev pub is_early : Main → Bool
is_early (Main.enqueue e) = true
is_early Main.stop = true
is_early _ = false

-- It is behind the wait.
abbrev pub is_late : Main → Bool
is_late Main.join = true
is_late Main.done = true
is_late _ = false

abbrev pub IsProducing : Main → Type 0
IsProducing (Main.enqueue e) = IsReady e
IsProducing _ = Unit

-- What the counters and flags say of each other.
pub record IsSound (p : Pool) : Type 0 where
  pub live : p.active_tasks ≡ length p.tasks + total holding p.workers
  pub producing : IsProducing p.main
  pub early : is_early p.main ≡ true → p.stop_pool ≡ true → p.first_exception ≡ true
  pub late : is_late p.main ≡ true → p.active_tasks ≡ 0
  pub drains : 0 < total draining p.workers → p.first_exception ≡ true

-- A signal keeps what the invariant asks of the main thread.
pub record IsLike (m n : Main) : Type 0 where
  pub same_points : remaining n ≡ remaining m
  pub same_producing : IsProducing m → IsProducing n
  pub same_early : is_early n ≡ is_early m
  pub same_late : is_late n ≡ is_late m

itself : (m : Main) → IsLike m m
itself m = record {
  same_points = refl;
  same_producing = λ h. h;
  same_early = refl;
  same_late = refl;
}

notify-IsLike : (m : Main) → IsLike m (notify m)
notify-IsLike (Main.enqueue e) = itself (Main.enqueue e)
notify-IsLike Main.stop = itself Main.stop
notify-IsLike Main.test = itself Main.test
notify-IsLike Main.tested = itself Main.tested
notify-IsLike Main.asleep = record {
  same_points = refl;
  same_producing = λ h. h;
  same_early = refl;
  same_late = refl;
}
notify-IsLike Main.join = itself Main.join
notify-IsLike Main.done = itself Main.done

pub notify_if-IsLike : (b : Bool) (m : Main) → IsLike m (notify_if b m)
notify_if-IsLike true m = notify-IsLike m
notify_if-IsLike false m = itself m

-- A move that leaves the flags as they are.
module _ (p : Pool) (s : IsSound p) (i : ℕ) (w v : Worker)
    (h : get_elem? p.workers i ≡ some w) where
  moved :
      (tasks executed : List Coords) (active : ℕ) (main : Main)
      → active + holding w + length p.tasks ≡ p.active_tasks + holding v + length tasks
      → active ≤ p.active_tasks
      → draining v ≡ 0
      → IsLike p.main main
      → IsSound (record p {
        tasks = tasks;
        executed = executed;
        active_tasks = active;
        main = main;
        workers = set p.workers i v;
      })
  moved tasks executed active main e le d like = record {
    live = omega (arith, e, s.live, total-set holding p.workers i w v h);
    producing = like.same_producing s.producing;
    early = λ a. s.early (sym like.same_early ∙ a);
    late = λ a. omega (arith, le, s.late (sym like.same_late ∙ a));
    drains = λ more. s.drains (omega (arith, d, more, total-set draining p.workers i w v h));
  }

  -- `holding` says that the counter is not 0.
  held : holding w ≡ 1 → 1 ≤ p.active_tasks
  held e = omega (arith, e, s.live, total-set holding p.workers i w Worker.idle h)

pub Move-IsSound :
    (p q : Pool) (i : ℕ) (w v : Worker)
    → IsSound p
    → get_elem? p.workers i ≡ some w
    → Move p w q v
    → IsSound (record q { workers = set p.workers i v })
Move-IsSound p _ i w v s h (Move.take c rest f e) =
    moved p s i w v h rest p.executed p.active_tasks p.main (omega (arith, ap length e))
      (omega arith) refl (itself p.main)
Move-IsSound p _ i w v s h (Move.leave f a e) =
    moved p s i w v h p.tasks p.executed p.active_tasks p.main (omega arith) (omega arith) refl
      (itself p.main)
Move-IsSound p _ i w v s h (Move.return c) =
    moved p s i w v h p.tasks (p.executed ++ c ∷ []) p.active_tasks p.main (omega arith)
      (omega arith) refl (itself p.main)
Move-IsSound p _ i w v s h Move.count_down =
    moved p s i w v h p.tasks p.executed (p.active_tasks - 1) p.main
      (omega (arith, held p s i w v h refl)) (omega arith) refl (itself p.main)
Move-IsSound p _ i w v s h (Move.signal b) =
    moved p s i w v h p.tasks p.executed p.active_tasks (notify_if (b && p.stop_pool) p.main)
      (omega arith) (omega arith) refl (notify_if-IsLike (b && p.stop_pool) p.main)
Move-IsSound p _ i w v s h (Move.throw c) =
    moved p s i w v h p.tasks p.executed p.active_tasks p.main (omega arith) (omega arith) refl
      (itself p.main)
Move-IsSound p _ i w v s h (Move.store c) = record {
  live = omega (arith, s.live, total-set holding p.workers i w v h);
  producing = s.producing;
  early = λ a b. refl;
  late = s.late;
  drains = λ a. refl;
}
Move-IsSound p _ i w v s h (Move.drain f) = record {
  live = omega (arith, s.live, total-set holding p.workers i w v h);
  producing = s.producing;
  early = λ a b. s.drains (omega (arith, total-set draining p.workers i w v h));
  late = λ a. omega (arith, s.late a);
  drains = λ a. s.drains (omega (arith, total-set draining p.workers i w v h));
}
Move-IsSound p _ i w v s h Move.wake =
    moved p s i w v h p.tasks p.executed p.active_tasks (notify p.main) (omega arith) (omega arith)
      refl (notify_if-IsLike true p.main)
Move-IsSound p _ i w v s h Move.give_up =
    moved p s i w v h p.tasks p.executed (p.active_tasks - 1) p.main
      (omega (arith, held p s i w v h refl)) (omega arith) refl (itself p.main)
Move-IsSound p _ i w v s h (Move.exit b) =
    moved p s i w v h p.tasks p.executed p.active_tasks (notify_if (b && p.stop_pool) p.main)
      (omega arith) (omega arith) refl (notify_if-IsLike (b && p.stop_pool) p.main)
