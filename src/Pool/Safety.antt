-- ===== src/Pool/Safety.antt =====
-- core/NDimensionalExecutor.cxx: how often `ExecuteParallel` executes a point.
use ndmspc.Base.{
  ℕ, ◌+◌, ◌-◌, ◌≤◌, ◌≡◌, refl, sym, ap, ◌∙◌, true, false, ◌&&◌, List, [], ◌∷◌, ◌++◌, some, length,
  arith, ite, get_elem?, set, if◌then◌else◌,
}
use ndmspc.Pool.Defs.{
  Worker, Main, Pool, Move, Step, Reach, start_pool, next_point, notify, notify_if,
}
use ndmspc.Pool.Invariant.{
  IsSound, placed, remaining, calling, is_early, is_late, holding, draining, notify_if-IsLike,
}
use ndmspc.Pool.Soundness.{next_point-after, Reach-IsSound}
use ndmspc.Pool.Workers.{total, total-set, total-all_idle, total-le}
use ndmspc.Sweep.Advance.{after, box-after}
use ndmspc.Sweep.Box.{box}
use ndmspc.Sweep.Complete.{IsReady, restart, construct-IsReady, construct-IsBounds}
use ndmspc.Sweep.Defs.{Coords, Executor, increment, construct}
use ndmspc.Sweep.Once.{count, count-append, count-box, coords_dec, is_within}

count-nil : (c : Coords) → count coords_dec c [] ≡ 0
unfolding count
count-nil c = refl

count-one : (c d : Coords) → count coords_dec c (d ∷ []) ≡ ite (coords_dec c d) 1 0
unfolding count
count-one c d = omega arith

count-cons :
    (c d : Coords) (ds : List Coords)
    → count coords_dec c (d ∷ ds) ≡ ite (coords_dec c d) 1 0 + count coords_dec c ds
unfolding count
count-cons c d ds = refl

-- The pool has no more of a point than before, and as much if there is no exception.
abbrev IsKept : Coords → Pool → Pool → Type 0
IsKept c p q =
    (placed c q ≤ placed c p)
    × (q.first_exception ≡ false → (p.first_exception ≡ false) × (placed c q ≡ placed c p))

same :
    (c : Coords) (p q : Pool)
    → q.first_exception ≡ p.first_exception
    → placed c q ≡ placed c p
    → IsKept c p q
same c p q f e = (omega (arith, e), λ n. (sym f ∙ n, e))

Move-placed :
    (c : Coords) (p q : Pool) (i : ℕ) (w v : Worker)
    → IsSound p
    → get_elem? p.workers i ≡ some w
    → Move p w q v
    → IsKept c p (record q { workers = set p.workers i v })
Move-placed c p _ i w v s h (Move.take d rest f e) =
    same c p (record p { tasks = rest; workers = set p.workers i v }) refl
      (omega (
        arith,
        ap (count coords_dec c) e,
        count-cons c d rest,
        total-set (calling c) p.workers i w v h,
      ))
Move-placed c p _ i w v s h (Move.leave f a e) =
    same c p (record p { workers = set p.workers i v }) refl
      (omega (arith, total-set (calling c) p.workers i w v h))
Move-placed c p _ i w v s h (Move.return d) =
    same c p (record p { executed = p.executed ++ d ∷ []; workers = set p.workers i v }) refl
      (omega (
        arith,
        count-append coords_dec c p.executed (d ∷ []),
        count-one c d,
        total-set (calling c) p.workers i w v h,
      ))
Move-placed c p _ i w v s h Move.count_down =
    same c p (record p { active_tasks = p.active_tasks - 1; workers = set p.workers i v }) refl
      (omega (arith, total-set (calling c) p.workers i w v h))
Move-placed c p _ i w v s h (Move.signal b) =
    same c p (record p { main = notify_if (b && p.stop_pool) p.main; workers = set p.workers i v })
      refl
      (omega (
        arith,
        ap (count coords_dec c) (notify_if-IsLike (b && p.stop_pool) p.main).same_points,
        total-set (calling c) p.workers i w v h,
      ))
Move-placed c p _ i w v s h (Move.throw d) =
    same c p (record p { workers = set p.workers i v }) refl
      (omega (arith, total-set (calling c) p.workers i w v h))
Move-placed c p _ i w v s h (Move.store d) =
    (omega (arith, total-set (calling c) p.workers i w v h), λ n. absurd (ground (arith, n)))
Move-placed c p _ i w v s h (Move.drain f) = (
  omega (arith, count-nil c, total-set (calling c) p.workers i w v h),
  λ n. absurd (ground (arith, n, s.drains (omega (arith, total-set draining p.workers i w v h)))),
)
Move-placed c p _ i w v s h Move.wake =
    same c p (record p { main = notify p.main; workers = set p.workers i v }) refl
      (omega (
        arith,
        ap (count coords_dec c) (notify_if-IsLike true p.main).same_points,
        total-set (calling c) p.workers i w v h,
      ))
Move-placed c p _ i w v s h Move.give_up =
    same c p (record p { active_tasks = p.active_tasks - 1; workers = set p.workers i v }) refl
      (omega (arith, total-set (calling c) p.workers i w v h))
Move-placed c p _ i w v s h (Move.exit b) =
    same c p (record p { main = notify_if (b && p.stop_pool) p.main; workers = set p.workers i v })
      refl
      (omega (
        arith,
        ap (count coords_dec c) (notify_if-IsLike (b && p.stop_pool) p.main).same_points,
        total-set (calling c) p.workers i w v h,
      ))

remaining_at :
    (c : Coords) {m n : Main}
    → m ≡ n
    → count coords_dec c (remaining m) ≡ count coords_dec c (remaining n)
remaining_at c h = ap (λ m. count coords_dec c (remaining m)) h

Step-placed : (c : Coords) {p q : Pool} → Step p q → IsSound p → IsKept c p q
Step-placed c {p} (Step.work i {q} {w} {v} h m) s = Move-placed c p q i w v s h m
Step-placed c {p} (Step.add e at go) s =
    let r : IsReady e = rw at at s.producing in
    let d = e.current_coords in
    same c p
      (record p {
        active_tasks = p.active_tasks + 1;
        tasks = p.tasks ++ d ∷ [];
        main = next_point (increment e);
      })
      refl
      (omega (
        arith,
        remaining_at c at,
        ap (count coords_dec c) (next_point-after e r).1,
        count-append coords_dec c p.tasks (d ∷ []),
        count-one c d,
        count-cons c d (after e.min_bounds e.max_bounds d),
      ))
Step-placed c {p} (Step.break e at b) s =
    (omega (arith, count-nil c), λ n. absurd (ground (arith, n, s.early (ap is_early at) b)))
Step-placed c {p} (Step.set_stop at) s =
    same c p (record p { stop_pool = true; main = Main.test }) refl
      (omega (arith, remaining_at c at))
Step-placed c {p} (Step.go_on at e) s =
    same c p (record p { main = Main.join }) refl (omega (arith, remaining_at c at))
Step-placed c {p} (Step.fail at e) s =
    same c p (record p { main = Main.tested }) refl (omega (arith, remaining_at c at))
Step-placed c {p} (Step.sleep at) s =
    same c p (record p { main = Main.asleep }) refl (omega (arith, remaining_at c at))
Step-placed c {p} (Step.finish at all) s =
    same c p (record p { main = Main.done }) refl (omega (arith, remaining_at c at))

start-placed :
    (c : Coords) (n : ℕ) (e : Executor)
    → IsReady (restart e)
    → placed c (start_pool n e) ≡ count coords_dec c (box e.min_bounds e.max_bounds)
start-placed c n e r = omega (
  arith,
  count-nil c,
  total-all_idle (calling c) n refl,
  ap (count coords_dec c) (box-after e.min_bounds e.max_bounds r.bounds),
)

Reach-placed :
    (c : Coords) {n : ℕ} {e : Executor} {p : Pool}
    → IsReady (restart e)
    → Reach n e p
    → (placed c p ≤ count coords_dec c (box e.min_bounds e.max_bounds))
      × (p.first_exception ≡ false
          → placed c p ≡ count coords_dec c (box e.min_bounds e.max_bounds))
Reach-placed c {n} {e} r Reach.start = let h = start-placed c n e r in (omega (arith, h), λ f. h)
Reach-placed c r (Reach.later reach step) =
    let (a, b) = Reach-placed c r reach in
    let (d, k) = Step-placed c step (Reach-IsSound r reach) in
    (omega (arith, a, d), λ f. (k f).1 ∙ b (k f).0)
Reach-placed c r (Reach.spurious reach at) =
    let (a, b) = Reach-placed c r reach in
    (omega (arith, a, remaining_at c at), λ f. omega (arith, b f, remaining_at c at))

calling-le : (c : Coords) (w : Worker) → calling c w ≤ holding w
calling-le c (Worker.running d) = ground arith
calling-le c (Worker.caught d) = ground arith
calling-le c _ = omega arith

late_nothing : (m : Main) → is_late m ≡ true → remaining m ≡ []
late_nothing (Main.enqueue e) h = absurd (ground (arith, h))
late_nothing _ h = refl

length-zero : (cs : List Coords) → length cs ≡ 0 → cs ≡ []
length-zero [] h = refl
length-zero (c ∷ cs) h = absurd (omega (arith, h))

-- However the main thread and the workers take turns, `ExecuteParallel` executes a point between
-- the bounds at most once and no other point. When the main thread is behind its wait, the queue is
-- empty, no worker holds a task, and if no function has thrown then each point between the bounds
-- has been executed exactly once.
pub execute_parallel-count :
    (mins maxs c : Coords) (n : ℕ) {e : Executor} {p : Pool}
    → construct mins maxs ≡ some e
    → Reach n e p
    → (count coords_dec c p.executed ≤ (if is_within mins maxs c then 1 else 0))
      × (is_late p.main ≡ true
          → (p.tasks ≡ [])
            × (total holding p.workers ≡ 0)
            × (p.first_exception ≡ false
                → count coords_dec c p.executed ≡ (if is_within mins maxs c then 1 else 0)))
execute_parallel-count mins maxs c n {e} {p} made reach =
    let (r, lo, hi) = construct-IsReady mins maxs made in
    let s = Reach-IsSound r reach in
    let (most, exact) = Reach-placed c r reach in
    let all : count coords_dec c (box e.min_bounds e.max_bounds)
        ≡ (if is_within mins maxs c then 1 else 0) =
      rw (lo, hi) (count-box mins maxs c (construct-IsBounds mins maxs made)) in
    (
      omega (arith, most, all),
      λ late. (
        length-zero p.tasks (omega (arith, s.live, s.late late)),
        omega (arith, s.live, s.late late),
        λ fine. omega (
          arith,
          exact fine,
          all,
          s.live,
          s.late late,
          count-nil c,
          ap (count coords_dec c) (late_nothing p.main late),
          ap (count coords_dec c) (length-zero p.tasks (omega (arith, s.live, s.late late))),
          total-le (calling c) holding p.workers (calling-le c),
        ),
      ),
    )
