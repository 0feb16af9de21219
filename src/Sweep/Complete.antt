-- ===== src/Sweep/Complete.antt =====
-- core/NDimensionalExecutor.cxx: `Execute` and `Increment` against the list of the points.
use mathlib.Core.Option
use ndmspc.Base.Int.{leb_ℤ}
use ndmspc.Base.{
  ℕ, zero, suc, ◌<◌, ◌≤◌, ◌≡◌, refl, sym, ap, ◌∙◌, ◌==◌, Bool, true, false, ◌&&◌, not, List, [],
  ◌∷◌, none, some, subst, ◌⊎◌, arith, if◌then◌else◌, length, Bool-cases, Option-cases, inl, inr,
}
use ndmspc.Sweep.Box.{box, volume, length-box, IsBounds, IsWithin}
use ndmspc.Sweep.Advance.{
  advance, after, IsNext, advance-IsNext, increment_loop-advance, box-after, IsWithin-mins,
}
use ndmspc.Sweep.Once.{count, coords_dec, is_within, count-box}
use ndmspc.Sweep.Defs.{
  Coords, Executor, increment, increment_loop, visits, execute, construct, set_bounds, check_bounds,
  first_bad, keep_bounds, Error,
}

-- The executor between two steps.
pub record IsReady (e : Executor) : Type 0 where
  pub dimensions : e.num_dimensions ≡ length e.min_bounds
  pub bounds : IsBounds e.min_bounds e.max_bounds
  pub within : IsWithin e.min_bounds e.max_bounds e.current_coords

within_length :
    (ms hs cs : Coords) → IsWithin ms hs cs → (length ms ≡ length cs) × (length hs ≡ length cs)
within_length [] [] [] w = (refl, refl)
within_length (m ∷ ms) (h ∷ hs) (c ∷ cs) w =
    let (a, b) = within_length ms hs cs w.2 in (ap suc a, ap suc b)
within_length ms hs cs w = elim w [ ]

pub increment-advance :
    (e : Executor)
    → IsReady e
    → increment e ≡ (
      record e { current_coords = (advance e.min_bounds e.max_bounds e.current_coords).0 },
      (advance e.min_bounds e.max_bounds e.current_coords).1,
    )
unfolding increment
increment-advance e r =
    let (a, b) = within_length e.min_bounds e.max_bounds e.current_coords r.within in
    let same =
      ap (λ n. increment_loop n e.min_bounds e.max_bounds e.current_coords) (r.dimensions ∙ a)
      ∙ increment_loop-advance e.min_bounds e.max_bounds e.current_coords a b in
    λ i. (record e { current_coords = (same i).0 }, (same i).1)

-- The points from the current one on.
visits_from :
    (fuel : ℕ) (e : Executor)
    → IsReady e
    → length (after e.min_bounds e.max_bounds e.current_coords) < fuel
    → visits fuel e ≡ some (e.current_coords ∷ after e.min_bounds e.max_bounds e.current_coords)
unfolding visits
visits_from zero e r h = elim h [ ]
visits_from (suc fuel) e r h = rw (increment-advance e r) (
    go (advance ms hs e.current_coords) (advance-IsNext ms hs e.current_coords r.bounds r.within)
      (λ next w lt.
        visits_from fuel (record e { current_coords = next })
          (record { dimensions = r.dimensions; bounds = r.bounds; within = w }) lt))
  where
    open e use {min_bounds as ms, max_bounds as hs}

    go :
        (p : Coords × Bool)
        → IsNext ms hs e.current_coords p
        → ((next : Coords)
            → IsWithin ms hs next
            → length (after ms hs next) < fuel
            → visits fuel (record e { current_coords = next }) ≡ some (next ∷ after ms hs next))
        → (if p.1
            then Option.map (◌∷◌ e.current_coords) (visits fuel (record e { current_coords = p.0 }))
            else some (e.current_coords ∷ []))
          ≡ some (e.current_coords ∷ after ms hs e.current_coords)
    go (next, true) n rest = rw (rest next n.1 (omega (arith, ap length n.0, h)), n.0) refl
    go (next, false) n rest = ap (λ l. some (e.current_coords ∷ l)) (sym n.0)

-- From a point between the bounds, `Increment` goes to the next point in order, and from the last
-- one back to the first with the result false.
pub increment-IsNext :
    (e : Executor)
    → IsReady e
    → IsNext e.min_bounds e.max_bounds e.current_coords
        ((increment e).0.current_coords, (increment e).1)
increment-IsNext e r =
    rw (increment-advance e r)
      (advance-IsNext e.min_bounds e.max_bounds e.current_coords r.bounds r.within)

first_bad-IsBounds :
    (i : ℕ) (mins maxs : Coords)
    → length mins ≡ length maxs
    → first_bad i mins maxs ≡ none
    → IsBounds mins maxs
unfolding first_bad
first_bad-IsBounds i [] [] p h = tt
first_bad-IsBounds i [] (x ∷ hs) p h = absurd (omega arith)
first_bad-IsBounds i (m ∷ ms) [] p h = absurd (omega arith)
first_bad-IsBounds i (m ∷ ms) (x ∷ hs) p h = elim (Bool-cases (leb_ℤ m x)) [
  | inl le ↦ (ground arith, first_bad-IsBounds (suc i) ms hs (omega arith) (rw le at h))
  | inr gt ↦ absurd (ground arith)
]

-- What the checks let through.
pub check_bounds-IsBounds :
    (mins maxs : Coords) → check_bounds mins maxs ≡ none → IsBounds mins maxs × (0 < length mins)
unfolding check_bounds
check_bounds-IsBounds mins maxs h = elim (Bool-cases (length mins == length maxs)) [
  | inr differ ↦ absurd (ground arith)
  | inl same ↦ elim (Bool-cases (length mins == 0)) [
    | inl empty ↦ absurd (ground arith)
    | inr some_dim ↦
        (first_bad-IsBounds 0 mins maxs (ground arith) (rw (same, some_dim) at h), ground arith)
  ]
]

execute_ready :
    (fuel : ℕ) (e : Executor)
    → e.num_dimensions ≡ length e.min_bounds
    → IsBounds e.min_bounds e.max_bounds
    → 0 < length e.min_bounds
    → volume e.min_bounds e.max_bounds ≤ fuel
    → execute fuel e ≡ some (box e.min_bounds e.max_bounds)
unfolding execute
execute_ready fuel e d b positive enough =
    let start = record e { current_coords = e.min_bounds } in
    let some_dim : (e.num_dimensions == 0) ≡ false = ground (arith, d) in
    let all = box-after e.min_bounds e.max_bounds b in
    rw some_dim (
      visits_from fuel start
        (record { dimensions = d; bounds = b; within = IsWithin-mins e.min_bounds e.max_bounds b })
        (omega (arith, ap length all, length-box e.min_bounds e.max_bounds b))
      ∙ ap some (sym all))

-- With as much fuel as there are points, `Execute` on an executor that the constructor made ends,
-- and calls the function with the points between the bounds in lexicographic order.
pub execute-construct :
    (mins maxs : Coords) (fuel : ℕ) {e : Executor}
    → construct mins maxs ≡ some e
    → volume mins maxs ≤ fuel
    → execute fuel e ≡ some (box mins maxs)
unfolding construct
execute-construct mins maxs fuel {e} h enough = elim (Option-cases (check_bounds mins maxs)) [
  | inr (err, bad) ↦ absurd (ground arith)
  | inl ok ↦
      (let (b, positive) = check_bounds-IsBounds mins maxs ok in
        let made : Executor = record {
          num_dimensions = length mins;
          min_bounds = mins;
          max_bounds = maxs;
          current_coords = mins;
        } in
        let same : made ≡ e = ground arith in
        subst (λ x. execute fuel x ≡ some (box mins maxs)) same
          (execute_ready fuel made refl b positive enough))
]

pub construct-IsBounds :
    (mins maxs : Coords) {e : Executor} → construct mins maxs ≡ some e → IsBounds mins maxs
unfolding construct
construct-IsBounds mins maxs {e} h = elim (Option-cases (check_bounds mins maxs)) [
  | inr (err, bad) ↦ absurd (ground arith)
  | inl ok ↦ (check_bounds-IsBounds mins maxs ok).0
]

-- The executor at its first point.
abbrev pub restart : Executor → Executor
restart e = record e { current_coords = e.min_bounds }

pub construct-IsReady :
    (mins maxs : Coords) {e : Executor}
    → construct mins maxs ≡ some e
    → IsReady (restart e) × (e.min_bounds ≡ mins) × (e.max_bounds ≡ maxs)
unfolding construct
construct-IsReady mins maxs {e} h = elim (Option-cases (check_bounds mins maxs)) [
  | inr (err, bad) ↦ absurd (ground arith)
  | inl ok ↦
      (let (b, positive) = check_bounds-IsBounds mins maxs ok in
        let made : Executor = record {
          num_dimensions = length mins;
          min_bounds = mins;
          max_bounds = maxs;
          current_coords = mins;
        } in
        let same : made ≡ e = ground arith in
        subst (λ x. IsReady (restart x) × (x.min_bounds ≡ mins) × (x.max_bounds ≡ maxs)) same
          (
            record { dimensions = refl; bounds = b; within = IsWithin-mins mins maxs b },
            refl,
            refl,
          ))
]

-- With as much fuel as there are points, `Execute` on an executor that the constructor made calls
-- the function as often as `totalTasks` says, once for a point between the bounds and never for
-- another.
pub execute-count :
    (mins maxs cs : Coords) (fuel : ℕ) {e : Executor}
    → construct mins maxs ≡ some e
    → volume mins maxs ≤ fuel
    → (pts : List Coords) × (execute fuel e ≡ some pts)
      × (length pts ≡ volume mins maxs)
      × (count coords_dec cs pts ≡ (if is_within mins maxs cs then 1 else 0))
execute-count mins maxs cs fuel h enough =
    let b = construct-IsBounds mins maxs h in
    (
      box mins maxs,
      execute-construct mins maxs fuel h enough,
      length-box mins maxs b,
      count-box mins maxs cs b,
    )

-- The last check of the bounds has its own error.
abbrev is_order : Error → Bool
is_order (Error.min_above_max i) = true
is_order err = false

first_bad_order :
    (i : ℕ) (mins maxs : Coords) (err : Error)
    → first_bad i mins maxs ≡ some err
    → is_order err ≡ true
unfolding first_bad
first_bad_order i [] maxs err h = absurd (ground (arith, h))
first_bad_order i (m ∷ mins) [] err h = absurd (ground (arith, h))
first_bad_order i (m ∷ mins) (n ∷ maxs) err h = elim (Bool-cases (leb_ℤ m n)) [
  | inl fits ↦ first_bad_order (suc i) mins maxs err (ground (arith, h))
  | inr bad ↦
      (let e : Error.min_above_max i ≡ err = ground (arith, h) in
        subst (λ x. is_order x ≡ true) e refl)
]

kept_bounds :
    (mins maxs : Coords) (e : Executor) (err : Error)
    → check_bounds mins maxs ≡ some err
    → keep_bounds err (length mins) e ≡ record e {
      num_dimensions =
          if length mins == length maxs && not (length mins == 0)
          then length mins
          else e.num_dimensions;
    }
unfolding check_bounds
kept_bounds mins maxs e Error.size_mismatch h =
    let k = first_bad_order 0 mins maxs Error.size_mismatch in ground (arith, h)
kept_bounds mins maxs e Error.empty_bounds h =
    let k = first_bad_order 0 mins maxs Error.empty_bounds in ground (arith, h)
kept_bounds mins maxs e (Error.min_above_max i) h = ground (arith, h)

-- `SetBounds` that does not throw leaves the executor that the constructor makes. One that throws
-- has already replaced the bounds, and the number of dimensions as well if the two bounds are of
-- the same length and not empty, and leaves the position.
pub set_bounds-construct :
    (mins maxs : Coords) (e : Executor)
    → ((set_bounds mins maxs e).1 ≡ none) × (construct mins maxs ≡ some (set_bounds mins maxs e).0)
      ⊎ ((err : Error) × ((set_bounds mins maxs e).1 ≡ some err)
          × (construct mins maxs ≡ none)
          × ((set_bounds mins maxs e).0 ≡ record e {
            num_dimensions =
                if length mins == length maxs && not (length mins == 0)
                then length mins
                else e.num_dimensions;
            min_bounds = mins;
            max_bounds = maxs;
          }))
unfolding set_bounds construct
set_bounds-construct mins maxs e = elim (Option-cases (check_bounds mins maxs)) [
  | inl ok ↦ rw (ok, set_bounds, construct) (inl (refl, refl))
  | inr (err, bad) ↦
      rw (bad, set_bounds, construct)
        (inr (
          err,
          refl,
          refl,
          kept_bounds mins maxs (record e { min_bounds = mins; max_bounds = maxs }) err bad,
        ))
]
