-- ===== src/Tests/Sweeping.antt =====
-- core/NDimensionalExecutor.cxx: a sweep over a plane of two by three points.
use ndmspc.Base.Int.{pos, negsuc, ◌+ℤ◌}
use ndmspc.Base.{
  if◌then◌else◌, ◌&&◌, not, length, ◌==◌, ◌≡◌, refl, List, [], ◌∷◌, some, none, arith, ◌⊎◌,
}
use ndmspc.Sweep.Advance.{IsNext}
use ndmspc.Sweep.Box.{box, prefix, span_from, volume}
use ndmspc.Sweep.Complete.{IsReady, execute-construct, increment-IsNext, set_bounds-construct}
use ndmspc.Sweep.Defs.{
  Coords, Executor, Error, construct, check_bounds, first_bad, set_bounds, execute, visits,
  increment, increment_loop,
}

abbrev low : Coords
low = negsuc 0 ∷ pos 1 ∷ []

abbrev high : Coords
high = pos 0 ∷ pos 3 ∷ []

abbrev plane : Executor
plane = record { num_dimensions = 2; min_bounds = low; max_bounds = high; current_coords = low }

abbrev points : List Coords
points =
    (negsuc 0 ∷ pos 1 ∷ [])
    ∷ (negsuc 0 ∷ pos 2 ∷ [])
    ∷ (negsuc 0 ∷ pos 3 ∷ [])
    ∷ (pos 0 ∷ pos 1 ∷ [])
    ∷ (pos 0 ∷ pos 2 ∷ [])
    ∷ (pos 0 ∷ pos 3 ∷ [])
    ∷ []

plane_made : construct low high ≡ some plane
unfolding construct check_bounds first_bad
plane_made = refl

execute-plane : execute 6 plane ≡ some points
unfolding execute visits increment increment_loop ◌+ℤ◌
execute-plane = refl

plane_box : box low high ≡ points
unfolding box prefix span_from ◌+ℤ◌
plane_box = refl

execute-construct_example : execute 6 plane ≡ some (box low high)
unfolding volume
execute-construct_example = execute-construct low high 6 plane_made (omega arith)

plane-IsReady : IsReady plane
plane-IsReady = record { dimensions = refl; bounds = omega arith; within = omega arith }

increment-IsNext_example :
    IsNext low high low ((increment plane).0.current_coords, (increment plane).1)
increment-IsNext_example = increment-IsNext plane plane-IsReady

set_bounds-construct_example :
    ((set_bounds high low plane).1 ≡ none)
      × (construct high low ≡ some (set_bounds high low plane).0)
    ⊎ ((err : Error) × ((set_bounds high low plane).1 ≡ some err)
        × (construct high low ≡ none)
        × ((set_bounds high low plane).0 ≡ record plane {
          num_dimensions =
              if length high == length low && not (length high == 0)
              then length high
              else plane.num_dimensions;
          min_bounds = high;
          max_bounds = low;
        }))
set_bounds-construct_example = set_bounds-construct high low plane
