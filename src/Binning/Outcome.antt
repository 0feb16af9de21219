-- ===== src/Binning/Outcome.antt =====
-- core/NBinning.cxx: how `FillAll` ends: with the points, or with the exception of the executor.
use ndmspc.Base.{
  ℕ, zero, suc, ◌<◌, ◌≤◌, ◌==◌, ◌||◌, ◌≡◌, refl, ap, ◌∙◌, true, false, List, [], Bool-cases, inl,
  inr, ◌∷◌, none, some, if◌then◌else◌, length, arith,
}
use ndmspc.Binning.Defs.{Bin, BinningType}
use ndmspc.Binning.Fill.{
  Content, sizes, ones, holds, mark_axes, run_points, Filled, fill_all, total_bins, fill_all_bins,
}
use ndmspc.Binning.Filling.{picks, collect-picks, picks-AreEntries, length-picks}
use ndmspc.Binning.Product.{
  AreEntries, choices, product, all_points-choices, volume-ones, length-choices,
}
use ndmspc.Sweep.Complete.{execute-construct}
use ndmspc.Sweep.Defs.{Executor, construct, check_bounds, first_bad, Error}
use ndmspc.Binning.Marking.{
  is_full, is_filled, mark_axes_all, mark_axes-product, mark_axes-is_filled,
}

first_bad_full :
    (i : ℕ) (content : Content)
    → is_full content ≡ true
    → first_bad i (ones (length content)) (sizes content) ≡ none
unfolding first_bad
first_bad_full i [] h = refl
first_bad_full i ([] ∷ content) h = absurd (ground (arith, h))
first_bad_full i ((e ∷ es) ∷ content) h = ground (arith, first_bad_full (suc i) content h)

first_bad_empty :
    (i : ℕ) (content : Content)
    → is_full content ≡ false
    → (err : Error) × (first_bad i (ones (length content)) (sizes content) ≡ some err)
unfolding first_bad
first_bad_empty i [] h = absurd (ground (arith, h))
first_bad_empty i ([] ∷ content) h = (Error.min_above_max i, ground arith)
first_bad_empty i ((e ∷ es) ∷ content) h =
    let (err, f) = first_bad_empty (suc i) content h in (err, ground (arith, f))

length-ones : (n : ℕ) → length (ones n) ≡ n
length-ones zero = refl
length-ones (suc n) = ap suc (length-ones n)

length-sizes : (content : Content) → length (sizes content) ≡ length content
length-sizes [] = refl
length-sizes (es ∷ content) = ap suc (length-sizes content)

not_zero : (n : ℕ) → 0 < n → (n == 0) ≡ false
not_zero n h = ground arith

-- What the checks of the bounds are left with.
check_bounds-sizes :
    (content : Content)
    → check_bounds (ones (length content)) (sizes content) ≡ (
        if length content == 0
        then some Error.empty_bounds
        else first_bad 0 (ones (length content)) (sizes content))
unfolding check_bounds
check_bounds-sizes content = ground (arith, length-ones (length content), length-sizes content)

construct_full :
    (content : Content)
    → 0 < length content
    → is_full content ≡ true
    → (e : Executor) × (construct (ones (length content)) (sizes content) ≡ some e)
unfolding construct
construct_full content p h = (
  record {
    num_dimensions = length (ones (length content));
    min_bounds = ones (length content);
    max_bounds = sizes content;
    current_coords = ones (length content);
  },
  rw
      (
        check_bounds-sizes content,
        construct,
        not_zero (length content) p,
        first_bad_full 0 content h,
      )
      refl,
)

construct_empty :
    (content : Content)
    → is_full content ≡ false
    → construct (ones (length content)) (sizes content) ≡ none
unfolding construct
construct_empty [] h = absurd (ground (arith, h))
construct_empty (es ∷ content) h =
    let (err, f) = first_bad_empty 0 (es ∷ content) h in
    rw (check_bounds-sizes (es ∷ content), construct, positive (length content), f) refl
  where
    positive : (n : ℕ) → (suc n == 0) ≡ false
    positive n = ground arith

run_full :
    (n fuel : ℕ) (content : Content) (marked : List ℕ × ℕ)
    → length content ≡ n
    → 0 < n
    → is_full content ≡ true
    → AreEntries content
    → product content ≤ fuel
    → run_points content marked fuel (construct (ones n) (sizes content))
      ≡ some (Filled.fills marked.0 marked.1 (choices content))
run_full n fuel content marked h p f w enough =
    let (e, made) = construct_full content (omega (arith, h, p)) f in
    let ran =
      execute-construct (ones (length content)) (sizes content) fuel made
        (omega (arith, enough, volume-ones content)) in
    rw (← h, made, ran, run_points, all_points-choices content w) refl

run_empty :
    (n fuel : ℕ) (content : Content) (marked : List ℕ × ℕ)
    → length content ≡ n
    → is_full content ≡ false
    → run_points content marked fuel (construct (ones n) (sizes content))
      ≡ some (Filled.throws marked.0)
run_empty n fuel content marked h f = rw (← h, construct_empty content f) refl

-- If every axis has a bin and the fuel is as much as there are points, `FillAll` fills the points
-- of all choices of one bin for each axis, each once, the bins of an axis in the order of the map
-- and those of the last axis fastest. `nTotalBins` is how many they are, and every axis becomes a
-- variable axis of the definition.
pub fill_all-choices :
    (fuel : ℕ) (types : List BinningType) (ps : List Bin) (axes : List ℕ)
    → 0 < length types
    → is_full (picks 0 (length types) types ps) ≡ true
    → product (picks 0 (length types) types ps) ≤ fuel
    → (marked : List ℕ) × (total : ℕ) × (fill_all fuel types ps axes
        ≡ some (Filled.fills marked total (choices (picks 0 (length types) types ps))))
      × (total ≡ length (choices (picks 0 (length types) types ps)))
      × ((j : ℕ) → j < length types → holds marked j ≡ true)
unfolding fill_all
fill_all-choices fuel types ps axes p f enough =
    let content = picks 0 (length types) types ps in
    let size = length-picks 0 (length types) types ps in
    let marked = mark_axes 0 content axes 1 in
    (
      marked.0,
      marked.1,
      rw (collect-picks types ps) (
          run_full (length types) fuel content marked size p f
            (picks-AreEntries 0 (length types) types ps) enough),
      omega (arith, mark_axes-product 0 content axes 1 f, length-choices content),
      λ j h. mark_axes_all 0 j content axes 1 f (omega arith) (omega (arith, h, size)),
    )

-- If there is an axis with no bin, `FillAll` ends with the exception of the constructor of the
-- executor, for any fuel. The variable axes of the definition are then those that it had and the
-- axes that have a bin.
pub fill_all_throws :
    (fuel : ℕ) (types : List BinningType) (ps : List Bin) (axes : List ℕ)
    → is_full (picks 0 (length types) types ps) ≡ false
    → (marked : List ℕ) × (fill_all fuel types ps axes ≡ some (Filled.throws marked))
      × ((j : ℕ) → holds marked j ≡ holds axes j || is_filled (picks 0 (length types) types ps) j)
unfolding fill_all
fill_all_throws fuel types ps axes f =
    let content = picks 0 (length types) types ps in
    let marked = mark_axes 0 content axes 1 in
    (
      marked.0,
      rw (collect-picks types ps)
          (run_empty (length types) fuel content marked (length-picks 0 (length types) types ps) f),
      λ j. mark_axes-is_filled 0 j j content axes 1 (omega arith),
    )

total_bins-product :
    (types : List BinningType) (ps : List Bin) (axes : List ℕ)
    → is_full (picks 0 (length types) types ps) ≡ true
    → total_bins types ps axes ≡ product (picks 0 (length types) types ps)
unfolding total_bins
total_bins-product types ps axes full =
    let content = picks 0 (length types) types ps in
    ap (λ c. (mark_axes 0 c axes 1).1) (collect-picks types ps)
    ∙ mark_axes-product 0 content axes 1 full
    ∙ omega arith

fill_none :
    (fuel : ℕ) (ps : List Bin) (axes : List ℕ)
    → fill_all fuel [] ps axes ≡ some (Filled.throws axes)
unfolding fill_all mark_axes construct check_bounds
fill_none fuel ps axes =
    ap (λ c. run_points c (mark_axes 0 c axes 1) fuel (construct [] (sizes c)))
      (collect-picks [] ps)

-- With the fuel for `nTotalBins` points it always ends.
pub fill_all_returns :
    (types : List BinningType) (ps : List Bin) (axes : List ℕ)
    → (f : Filled) × (fill_all_bins types ps axes ≡ some f)
unfolding fill_all_bins
fill_all_returns [] ps axes = (Filled.throws axes, fill_none (total_bins [] ps axes) ps axes)
fill_all_returns (t ∷ types) ps axes =
    let content = picks 0 (length (t ∷ types)) (t ∷ types) ps in
    elim (Bool-cases (is_full content)) [
      | inl full ↦
          (let filled =
              fill_all-choices (total_bins (t ∷ types) ps axes) (t ∷ types) ps axes (omega arith)
                full (omega (arith, total_bins-product (t ∷ types) ps axes full)) in
            (Filled.fills filled.0 filled.1 (choices content), filled.2))
      | inr gap ↦
          (let (marked, ran, _) =
              fill_all_throws (total_bins (t ∷ types) ps axes) (t ∷ types) ps axes gap in
            (Filled.throws marked, ran))
    ]
