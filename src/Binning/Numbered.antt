-- ===== src/Binning/Numbered.antt =====
-- core/NBinning.cxx and core/NBinningPoint.cxx: the ranges that `GetAxisRanges` reads for all axes
-- are in the order of the axes, each with the number of its own.
use mathlib.Core.List.{map-append}
use ndmspc.Base.Int.{ℤ}
use ndmspc.Base.{
  ℕ, ◌+◌, ◌≤◌, ◌≡◌, refl, ap, sym, ◌∙◌, List, [], ◌∷◌, ◌++◌, map, Option, none, some, length,
  length-append, arith, subst,
}
use ndmspc.Binning.Defs.{Axis, BinningType}
use ndmspc.Binning.Ids.{storage_of}
use ndmspc.Binning.Walk.{AxisRange, Range, axis_range, get_axis_ranges, ranges_from}

module _ (axes : List Axis) (types : List BinningType) (nbins : ℕ) (bin_coords : ℕ → List ℤ)
    (find_bin : ℕ → ℤ → ℤ → ℤ) where
  -- The bin of the definition for a range, on the axis that the range is for.
  abbrev pub own_bin : AxisRange → ℤ
  own_bin r = find_bin r.0 r.1 r.2

  abbrev IsNumbered : List AxisRange → Type 0
  IsNumbered rs = storage_of axes types nbins bin_coords find_bin 0 rs ≡ map own_bin rs

  storage_of-append :
      (i : ℕ) (rs : List AxisRange) (r : AxisRange)
      → storage_of axes types nbins bin_coords find_bin i (rs ++ r ∷ [])
        ≡ storage_of axes types nbins bin_coords find_bin i rs
          ++ find_bin (i + length rs) r.1 r.2 ∷ []
  storage_of-append i [] r = ap (λ n. find_bin n r.1 r.2 ∷ []) (omega arith)
  storage_of-append i (q ∷ rs) r = ap (◌∷◌ (find_bin i q.1 q.2)) (
      storage_of-append (i + 1) rs r
      ∙ ap
          (λ n.
            storage_of axes types nbins bin_coords find_bin (i + 1) rs ++ find_bin n r.1 r.2 ∷ [])
          (omega arith))

  next-IsNumbered :
      (i : ℕ) (rs : List AxisRange) (low high : ℤ)
      → length rs ≡ i
      → IsNumbered rs
      → IsNumbered (rs ++ (i, low, high) ∷ [])
  next-IsNumbered i rs low high same k =
      storage_of-append 0 rs (i, low, high)
      ∙ ap (λ n. storage_of axes types nbins bin_coords find_bin 0 rs ++ find_bin n low high ∷ [])
          (omega arith)
      ∙ ap (λ bins. bins ++ find_bin i low high ∷ []) k
      ∙ sym (map-append own_bin rs ((i, low, high) ∷ []))

  -- One axis of the walk, which goes on by `next`.
  step-IsNumbered :
      (i : ℕ) (found rs : List AxisRange) (next : List AxisRange → Option (List AxisRange))
      (o : Option Range)
      → length found ≤ i
      → (length found ≡ i → IsNumbered found)
      → ((more : List AxisRange)
          → length more ≤ i + 1
          → (length more ≡ i + 1 → IsNumbered more)
          → next more ≡ some rs
          → IsNumbered rs)
      → elim o as (λ _. Option (List AxisRange)) [
        | none ↦ none
        | some none ↦ some []
        | some (some r) ↦ next (found ++ (i, r.0, r.1) ∷ [])
      ]
        ≡ some rs
      → IsNumbered rs
  step-IsNumbered i found rs next none b k walk h = absurd (ground (arith, h))
  step-IsNumbered i found rs next (some none) b k walk h =
      let e : [] ≡ rs = ground (arith, h) in subst IsNumbered e refl
  step-IsNumbered i found rs next (some (some r)) b k walk h =
      let size = length-append found ((i, r.0, r.1) ∷ []) in
      walk (found ++ (i, r.0, r.1) ∷ []) (omega (arith, size))
        (λ same.
          let here : length found ≡ i = omega (arith, size) in
          next-IsNumbered i found r.0 r.1 here (k here))
        h

  walk-IsNumbered :
      (i : ℕ) (more : List Axis) (ts : List BinningType) (c : List ℤ) (index : ℕ)
      (found rs : List AxisRange)
      → length found ≤ i
      → (length found ≡ i → IsNumbered found)
      → ranges_from i more ts c index found ≡ some rs
      → length rs ≡ i + length more
      → IsNumbered rs
  unfolding ranges_from
  walk-IsNumbered i [] ts c index found rs b k h all =
      let e : found ≡ rs = ground (arith, h) in
      subst IsNumbered e (k (ap length e ∙ all ∙ omega arith))
  walk-IsNumbered i (axis ∷ more) [] c index found rs b k h all = absurd (ground (arith, h))
  walk-IsNumbered i (axis ∷ more) (BinningType.undefined ∷ ts) c index found rs b k h all =
      walk-IsNumbered (i + 1) more ts c index found rs (omega arith) (λ e. absurd (omega arith)) h
        (omega arith)
  walk-IsNumbered i (axis ∷ more) (BinningType.single ∷ ts) c index found rs b k h all =
      step-IsNumbered i found rs (ranges_from (i + 1) more ts c (index + 1))
        (axis_range axis BinningType.single c index) b k
        (λ f b' k' h'. walk-IsNumbered (i + 1) more ts c (index + 1) f rs b' k' h' (omega arith)) h
  walk-IsNumbered i (axis ∷ more) (BinningType.multiple ∷ ts) c index found rs b k h all =
      step-IsNumbered i found rs (ranges_from (i + 1) more ts c (index + 3))
        (axis_range axis BinningType.multiple c index) b k
        (λ f b' k' h'. walk-IsNumbered (i + 1) more ts c (index + 3) f rs b' k' h' (omega arith)) h
  walk-IsNumbered i (axis ∷ more) (BinningType.user ∷ ts) c index found rs b k h all =
      step-IsNumbered i found rs (ranges_from (i + 1) more ts c (index + 1))
        (axis_range axis BinningType.user c index) b k
        (λ f b' k' h'. walk-IsNumbered (i + 1) more ts c (index + 1) f rs b' k' h' (omega arith)) h

  -- With a range for every axis, the bins of the definition are those of the ranges.
  pub storage_of-get_axis_ranges :
      (c : List ℤ) (rs : List AxisRange)
      → get_axis_ranges axes types c ≡ some rs
      → length rs ≡ length axes
      → storage_of axes types nbins bin_coords find_bin 0 rs ≡ map own_bin rs
  unfolding get_axis_ranges
  storage_of-get_axis_ranges c rs h all =
      walk-IsNumbered 0 axes types c 0 [] rs (omega arith) (λ e. refl) h (omega arith)
