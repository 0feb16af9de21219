-- ===== src/Pool/Soundness.antt =====
-- core/NDimensionalExecutor.cxx: the invariant of `ExecuteParallel` on all that can be reached.
use ndmspc.Base.{
  ℕ, ◌==◌, ◌≡◌, refl, sym, ap, Bool, true, false, ◌&&◌, [], ◌∷◌, length-append, arith,
}
use ndmspc.Pool.Defs.{Pool, Step, Reach, start_pool, next_point}
use ndmspc.Pool.Invariant.{
  IsSound, IsProducing, Move-IsSound, remaining, is_early, is_late, holding, draining,
}
use ndmspc.Pool.Workers.{total-all_idle}
use ndmspc.Sweep.Advance.{advance, after, IsNext, advance-IsNext}
use ndmspc.Sweep.Complete.{IsReady, increment-advance}
use ndmspc.Sweep.Defs.{Coords, Executor, increment}

next_after :
    (e : Executor)
    → IsReady e
    → (p : Coords × Bool) → IsNext e.min_bounds e.max_bounds e.current_coords p
    → IsProducing (next_point (record e { current_coords = p.0 }, p.1))
      × (remaining (next_point (record e { current_coords = p.0 }, p.1))
          ≡ after e.min_bounds e.max_bounds e.current_coords)
next_after e r (cs, true) n =
    (record { dimensions = r.dimensions; bounds = r.bounds; within = n.1 }, sym n.0)
next_after e r (cs, false) n = (tt, sym n.0)

-- `Increment` goes on with the points behind.
pub next_point-after :
    (e : Executor)
    → IsReady e
    → IsProducing (next_point (increment e))
      × (remaining (next_point (increment e)) ≡ after e.min_bounds e.max_bounds e.current_coords)
next_point-after e r = rw (increment-advance e r) (
    next_after e r (advance e.min_bounds e.max_bounds e.current_coords)
      (advance-IsNext e.min_bounds e.max_bounds e.current_coords r.bounds r.within))

pub next_early :
    (n : Executor × Bool) → (is_early (next_point n) ≡ true) × (is_late (next_point n) ≡ false)
next_early (e, true) = (refl, refl)
next_early (e, false) = (refl, refl)

pub Step-IsSound : {p q : Pool} → Step p q → IsSound p → IsSound q
Step-IsSound {p} (Step.work i {q} {w} {v} h m) s = Move-IsSound p q i w v s h m
Step-IsSound {p} (Step.add e at go) s = record {
  live = omega (arith, s.live, length-append p.tasks (e.current_coords ∷ []));
  producing = (next_point-after e (rw at at s.producing)).0;
  early = λ a b. absurd (ground (arith, b, go));
  late = λ a. absurd (ground (arith, a, next_early (increment e)));
  drains = s.drains;
}
Step-IsSound {p} (Step.break e at b) s = record {
  live = s.live;
  producing = tt;
  early = λ a c. s.early (ap is_early at) b;
  late = λ a. absurd (ground (arith, a));
  drains = s.drains;
}
Step-IsSound {p} (Step.set_stop at) s = record {
  live = s.live;
  producing = tt;
  early = λ a c. absurd (ground (arith, a));
  late = λ a. absurd (ground (arith, a));
  drains = s.drains;
}
Step-IsSound {p} (Step.go_on at e) s = record {
  live = s.live;
  producing = tt;
  early = λ a c. absurd (ground (arith, a));
  late = λ a. no_more p.stop_pool p.active_tasks e;
  drains = s.drains;
}
  where
    no_more : (b : Bool) (n : ℕ) → (b && n == 0) ≡ true → n ≡ 0
    no_more true n e = ground arith
    no_more false n e = absurd (ground (arith, e))
Step-IsSound {p} (Step.fail at e) s = record {
  live = s.live;
  producing = tt;
  early = λ a c. absurd (ground (arith, a));
  late = λ a. absurd (ground (arith, a));
  drains = s.drains;
}
Step-IsSound {p} (Step.sleep at) s = record {
  live = s.live;
  producing = tt;
  early = λ a c. absurd (ground (arith, a));
  late = λ a. absurd (ground (arith, a));
  drains = s.drains;
}
Step-IsSound {p} (Step.finish at all) s = record {
  live = s.live;
  producing = tt;
  early = λ a c. absurd (ground (arith, a));
  late = λ a. s.late (ap is_late at);
  drains = s.drains;
}

start-IsSound :
    (n : ℕ) (e : Executor)
    → IsReady (record e { current_coords = e.min_bounds })
    → IsSound (start_pool n e)
start-IsSound n e r = record {
  live = omega (arith, total-all_idle holding n refl);
  producing = r;
  early = λ a b. absurd (ground (arith, b));
  late = λ a. refl;
  drains = λ more. absurd (omega (arith, more, total-all_idle draining n refl));
}

pub Reach-IsSound :
    {n : ℕ} {e : Executor} {p : Pool}
    → IsReady (record e { current_coords = e.min_bounds })
    → Reach n e p
    → IsSound p
Reach-IsSound {n} {e} r Reach.start = start-IsSound n e r
Reach-IsSound r (Reach.later reach step) = Step-IsSound step (Reach-IsSound r reach)
Reach-IsSound r (Reach.spurious {p} reach at) =
    let s = Reach-IsSound r reach in
    record {
      live = s.live;
      producing = tt;
      early = λ a c. absurd (ground (arith, a));
      late = λ a. absurd (ground (arith, a));
      drains = s.drains;
    }
