-- ===== src/Pool/LostWake.antt =====
-- core/NDimensionalExecutor.cxx: `active_tasks` is lowered, and its reaching 0 is signalled,
-- without `queue_mutex`: the main thread may have tested its condition and not sleep yet.
use ndmspc.Base.{
  ℕ, zero, suc, ◌-◌, ◌≤◌, ◌==◌, ◌≡◌, refl, sym, ap, ◌∙◌, Bool, true, false, ◌&&◌, List, [], ◌∷◌,
  ◌++◌, some, length, length-append, append-nil, append_assoc, arith, get_elem?, subst,
}
use ndmspc.Pool.Defs.{Worker, Main, Pool, Move, Step, Reach, next_point, notify_if}
use ndmspc.Pool.Invariant.{IsProducing, remaining, is_early}
use ndmspc.Pool.Soundness.{next_point-after, next_early}
use ndmspc.Sweep.Advance.{after, box-after}
use ndmspc.Sweep.Box.{box}
use ndmspc.Sweep.Complete.{restart, construct-IsReady}
use ndmspc.Sweep.Defs.{Coords, Executor, increment, construct}

-- The pool of one worker with no exception.
abbrev one : List Coords → ℕ → Bool → Main → Worker → List Coords → Pool
one tasks active stop main w executed = record {
  tasks = tasks;
  active_tasks = active;
  stop_pool = stop;
  first_exception = false;
  main = main;
  workers = w ∷ [];
  executed = executed;
}

-- The main thread adds all points before the worker takes one.
adding :
    (k : ℕ) (e : Executor) (ts : List Coords) (m : Main)
    → is_early m ≡ true
    → IsProducing m
    → length (remaining m) ≤ k
    → Reach 1 e (one ts (length ts) false m Worker.idle [])
    → Reach 1 e
        (one (ts ++ remaining m) (length (ts ++ remaining m)) false Main.stop Worker.idle [])
adding k e ts Main.stop early r le reach =
    subst (λ l. Reach 1 e (one l (length l) false Main.stop Worker.idle [])) (sym (append-nil ts))
      reach
adding zero e ts (Main.enqueue d) early r le reach = absurd (omega (arith, le))
adding (suc k) e ts (Main.enqueue d) early r le reach =
    let (next, rest) = next_point-after d r in
    let longer = length-append ts (d.current_coords ∷ []) in
    let added =
      subst
        (λ n.
          Reach 1 e
            (one (ts ++ d.current_coords ∷ []) n false (next_point (increment d)) Worker.idle []))
        (sym longer) (Reach.later reach (Step.add d refl refl)) in
    let all =
      adding k e (ts ++ d.current_coords ∷ []) (next_point (increment d))
        (next_early (increment d)).0 next (omega (arith, le, ap length rest)) added in
    subst (λ l. Reach 1 e (one l (length l) false Main.stop Worker.idle []))
      (ap (◌++◌ (ts ++ d.current_coords ∷ [])) rest
        ∙ append_assoc ts (d.current_coords ∷ [])
            (after d.min_bounds d.max_bounds d.current_coords))
      all
adding k e ts m early r le reach = absurd (ground (arith, early))

one_less : (n : ℕ) → suc n - 1 ≡ n
one_less n = omega arith

unheard : (b : Bool) → notify_if b Main.stop ≡ Main.stop
unheard true = refl
unheard false = refl

-- The worker takes them all, and stands behind its last call.
working :
    (e : Executor) (c : Coords) (ts xs : List Coords)
    → Reach 1 e (one (c ∷ ts) (length (c ∷ ts)) false Main.stop Worker.idle xs)
    → Reach 1 e (one [] 1 false Main.stop Worker.returned (xs ++ c ∷ ts))
working e c [] xs reach =
    Reach.later (Reach.later reach (Step.work 0 refl (Move.take c [] refl refl)))
      (Step.work 0 refl (Move.return c))
working e c (d ∷ ts) xs reach =
    let n = length (c ∷ d ∷ ts) - 1 in
    let taken = Reach.later reach (Step.work 0 refl (Move.take c (d ∷ ts) refl refl)) in
    let ran = Reach.later taken (Step.work 0 refl (Move.return c)) in
    let counted = Reach.later ran (Step.work 0 refl Move.count_down) in
    let signalled = Reach.later counted (Step.work 0 refl (Move.signal (n == 0))) in
    let again =
      subst (λ m. Reach 1 e (one (d ∷ ts) n false m Worker.idle (xs ++ c ∷ [])))
        (unheard (n == 0 && false)) signalled in
    subst (λ l. Reach 1 e (one [] 1 false Main.stop Worker.returned l))
      (append_assoc xs (c ∷ []) (d ∷ ts))
      (working e d ts (xs ++ c ∷ []) (
        subst (λ k. Reach 1 e (one (d ∷ ts) k false Main.stop Worker.idle (xs ++ c ∷ [])))
          (one_less (length (d ∷ ts))) again))

-- The main thread sleeps, and no thread can take a step.
pub record IsStuck (p : Pool) : Type 0 where
  pub sleeps : p.main ≡ Main.asleep
  pub still : (q : Pool) → ¬ Step p q

exited_still : (p q : Pool) (v : Worker) → ¬ Move p Worker.exited q v
exited_still p q v m = elim m [ ]

alone : (i : ℕ) (w : Worker) → get_elem? (Worker.exited ∷ []) i ≡ some w → Worker.exited ≡ w
alone zero w h = ground (arith, h)
alone (suc i) w h = absurd (ground (arith, h))

abbrev end : List Coords → Pool
end xs = one [] 0 true Main.asleep Worker.exited xs

nothing_left : (xs : List Coords) {q : Pool} → ¬ Step (end xs) q
nothing_left xs (Step.work i {q} {w} {v} h m) =
    exited_still (end xs) q v (subst (λ u. Move (end xs) u q v) (sym (alone i w h)) m)
nothing_left xs (Step.add e at go) = absurd (ground (arith, at))
nothing_left xs (Step.break e at go) = absurd (ground (arith, at))
nothing_left xs (Step.set_stop at) = absurd (ground (arith, at))
nothing_left xs (Step.go_on at e) = absurd (ground (arith, at))
nothing_left xs (Step.fail at e) = absurd (ground (arith, at))
nothing_left xs (Step.sleep at) = absurd (ground (arith, at))
nothing_left xs (Step.finish at all) = absurd (ground (arith, at))

-- The signal comes between the test of the main thread and its sleep.
losing :
    (e : Executor) (xs : List Coords)
    → Reach 1 e (one [] 1 false Main.stop Worker.returned xs)
    → Reach 1 e (one [] 0 true Main.asleep Worker.exited xs)
losing e xs reach =
    let stopped = Reach.later reach (Step.set_stop refl) in
    let tested = Reach.later stopped (Step.fail refl refl) in
    let counted = Reach.later tested (Step.work 0 refl Move.count_down) in
    let signalled = Reach.later counted (Step.work 0 refl (Move.signal true)) in
    let asleep = Reach.later signalled (Step.sleep refl) in
    Reach.later asleep (Step.work 0 refl (Move.leave refl refl refl))

-- With one worker, for any bounds that the constructor accepts, the threads of `ExecuteParallel`
-- can take turns such that no function throws and all points are executed in order, but the main
-- thread then sleeps in its wait, where neither it nor the worker has a step left: only a wake-up
-- of its own, which C++ does not promise, would end the wait.
pub execute_parallel-IsStuck :
    (mins maxs : Coords) {e : Executor}
    → construct mins maxs ≡ some e
    → (p : Pool) × Reach 1 e p
      × IsStuck p
      × (p.executed ≡ box mins maxs)
      × (p.first_exception ≡ false)
execute_parallel-IsStuck mins maxs {e} made =
    let (r, lo, hi) = construct-IsReady mins maxs made in
    let first = restart e in
    let added =
      adding (length (remaining (Main.enqueue first))) e [] (Main.enqueue first) refl r
        (omega arith) Reach.start in
    let rest = after e.min_bounds e.max_bounds e.min_bounds in
    (
      one [] 0 true Main.asleep Worker.exited (e.min_bounds ∷ rest),
      losing e (e.min_bounds ∷ rest) (working e e.min_bounds rest [] added),
      record { sleeps = refl; still = λ q. nothing_left (e.min_bounds ∷ rest) },
      sym (box-after e.min_bounds e.max_bounds r.bounds) ∙ rw (lo, hi) refl,
      refl,
    )
