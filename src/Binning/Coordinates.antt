-- ===== src/Binning/Coordinates.antt =====
-- core/NBinning.cxx: the coordinates of a point that is given axis by axis.
use ndmspc.Base.Int.{ℤ, pos}
use ndmspc.Base.{
  ℕ, zero, suc, ◌+◌, ◌≡◌, refl, sym, ap, ◌∙◌, List, [], ◌∷◌, ◌++◌, append_assoc, append-nil, map,
  Option, none, some, length, length-append, Option-cases, inl, inr, get_elem?, arith,
}
use ndmspc.Binning.Defs.{Axis, BinningType}
use ndmspc.Binning.Ranges.{range_in_base}
use ndmspc.Binning.Walk.{
  Range, AxisRange, axis_range, width, ranges_from, get_axis_ranges, columns_from, get_coords_range,
}

-- What a point says of one axis.
pub data Place : Type 0 where
  at : ℤ → Place
  grouped : ℤ → ℤ → ℤ → Place
  by_user : ℤ → Place

abbrev pub type_of : Place → BinningType
type_of (Place.at bin) = BinningType.single
type_of (Place.grouped rebin start bin) = BinningType.multiple
type_of (Place.by_user bin) = BinningType.user

abbrev pub coords_of : Place → List ℤ
coords_of (Place.at bin) = bin ∷ []
coords_of (Place.grouped rebin start bin) = rebin ∷ start ∷ bin ∷ []
coords_of (Place.by_user bin) = bin ∷ []

-- The coordinates of the point.
abbrev pub flatten : List Place → List ℤ
flatten [] = []
flatten (p ∷ ps) = coords_of p ++ flatten ps

-- The bins of the axis that the place covers.
abbrev pub covered : Axis → Place → Range
covered axis (Place.at bin) = range_in_base axis.nbins (pos 1) (pos 1) bin
covered axis (Place.grouped rebin start bin) = range_in_base axis.nbins rebin start bin
covered axis (Place.by_user bin) = range_in_base axis.nbins (pos axis.nbins) (pos 1) (pos 1)

abbrev pub number : ℕ → Option (ℤ × ℤ) → Option (List AxisRange) → Option (List AxisRange)
number i (some r) (some rest) = some ((i, r.0, r.1) ∷ rest)
number i r rest = none

-- The range of every axis, if all are valid.
abbrev pub all_covered : ℕ → List Axis → List Place → Option (List AxisRange)
all_covered i (axis ∷ axes) (p ∷ ps) = number i (covered axis p) (all_covered (i + 1) axes ps)
all_covered i axes places = some []

abbrev pub or_empty : Option (List AxisRange) → List AxisRange
or_empty none = []
or_empty (some rs) = rs

-- Reading behind a list.
pub get_elem?-append :
    (pre xs : List ℤ) (m n : ℕ) → m ≡ length pre + n → get_elem? (pre ++ xs) m ≡ get_elem? xs n
get_elem?-append [] xs m n h = ap (get_elem? xs) (h ∙ omega arith)
get_elem?-append (p ∷ pre) xs zero n h = absurd (omega (arith, h))
get_elem?-append (p ∷ pre) xs (suc m) n h = get_elem?-append pre xs m n (omega arith)

axis_range-covered :
    (axis : Axis) (p : Place) (pre rest : List ℤ)
    → axis_range axis (type_of p) (pre ++ (coords_of p ++ rest)) (length pre)
      ≡ some (covered axis p)
unfolding axis_range
axis_range-covered axis (Place.at bin) pre rest =
    rw (get_elem?-append pre (bin ∷ rest) (length pre) 0 (omega arith)) refl
axis_range-covered axis (Place.grouped rebin start bin) pre rest =
    rw
      (
        get_elem?-append pre (rebin ∷ start ∷ bin ∷ rest) (length pre) 0 (omega arith),
        get_elem?-append pre (rebin ∷ start ∷ bin ∷ rest) (length pre + 1) 1 refl,
        get_elem?-append pre (rebin ∷ start ∷ bin ∷ rest) (length pre + 2) 2 refl,
      )
      refl
axis_range-covered axis (Place.by_user bin) pre rest = refl

pub length-coords_of :
    (pre : List ℤ) (p : Place) → length pre + width (type_of p) ≡ length (pre ++ coords_of p)
length-coords_of pre (Place.at bin) = sym (length-append pre _)
length-coords_of pre (Place.grouped rebin start bin) = sym (length-append pre _)
length-coords_of pre (Place.by_user bin) = sym (length-append pre _)

-- The walks over an axis with a valid range.
ranges_valid :
    (i : ℕ) (axis : Axis) (axes : List Axis) (p : Place) (types : List BinningType) (c : List ℤ)
    (index : ℕ) (found : List AxisRange) (r : ℤ × ℤ)
    → axis_range axis (type_of p) c index ≡ some (some r)
    → ranges_from i (axis ∷ axes) (type_of p ∷ types) c index found
      ≡ ranges_from (i + 1) axes types c (index + width (type_of p)) (found ++ (i, r.0, r.1) ∷ [])
unfolding ranges_from
ranges_valid i axis axes (Place.at bin) types c index found r e = rw (ranges_from, e) refl
ranges_valid i axis axes (Place.grouped a b bin) types c index found r e = rw (ranges_from, e) refl
ranges_valid i axis axes (Place.by_user bin) types c index found r e = rw (ranges_from, e) refl

columns_valid :
    (i : ℕ) (axis : Axis) (axes : List Axis) (p : Place) (types : List BinningType) (c : List ℤ)
    (index : ℕ) (ids mins maxs : List ℤ) (r : ℤ × ℤ)
    → axis_range axis (type_of p) c index ≡ some (some r)
    → columns_from i (axis ∷ axes) (type_of p ∷ types) c index ids mins maxs
      ≡ columns_from
          (i + 1)
          axes
          types
          c
          (index + width (type_of p))
          (ids ++ pos i ∷ [])
          (mins ++ r.0 ∷ [])
          (maxs ++ r.1 ∷ [])
unfolding columns_from
columns_valid i axis axes (Place.at bin) types c index a b d r e = rw (columns_from, e) refl
columns_valid i axis axes (Place.grouped x y bin) types c index a b d r e =
    rw (columns_from, e) refl
columns_valid i axis axes (Place.by_user bin) types c index a b d r e = rw (columns_from, e) refl

-- A range that is not valid ends them.
ranges_invalid :
    (i : ℕ) (axis : Axis) (axes : List Axis) (p : Place) (types : List BinningType) (c : List ℤ)
    (index : ℕ) (found : List AxisRange)
    → axis_range axis (type_of p) c index ≡ some none
    → ranges_from i (axis ∷ axes) (type_of p ∷ types) c index found ≡ some []
unfolding ranges_from
ranges_invalid i axis axes (Place.at bin) types c index found e = rw (ranges_from, e) refl
ranges_invalid i axis axes (Place.grouped a b bin) types c index found e = rw (ranges_from, e) refl
ranges_invalid i axis axes (Place.by_user bin) types c index found e = rw (ranges_from, e) refl

columns_invalid :
    (i : ℕ) (axis : Axis) (axes : List Axis) (p : Place) (types : List BinningType) (c : List ℤ)
    (index : ℕ) (ids mins maxs : List ℤ)
    → axis_range axis (type_of p) c index ≡ some none
    → columns_from i (axis ∷ axes) (type_of p ∷ types) c index ids mins maxs ≡ some []
unfolding columns_from
columns_invalid i axis axes (Place.at bin) types c index a b d e = rw (columns_from, e) refl
columns_invalid i axis axes (Place.grouped x y bin) types c index a b d e =
    rw (columns_from, e) refl
columns_invalid i axis axes (Place.by_user bin) types c index a b d e = rw (columns_from, e) refl

-- What the loops return when they had collected something before these ranges.
abbrev after_ranges : List AxisRange → Option (List AxisRange) → List AxisRange
after_ranges found none = []
after_ranges found (some rs) = found ++ rs

abbrev after_columns : List ℤ → List ℤ → List ℤ → Option (List AxisRange) → List (List ℤ)
after_columns ids mins maxs none = []
after_columns ids mins maxs (some rs) =
    (ids ++ map (λ r. pos r.0) rs) ∷ (mins ++ map (λ r. r.1) rs) ∷ (maxs ++ map (λ r. r.2) rs) ∷ []

after_ranges-number :
    (i : ℕ) (found : List AxisRange) (r : ℤ × ℤ) (o : Option (List AxisRange))
    → after_ranges (found ++ (i, r.0, r.1) ∷ []) o ≡ after_ranges found (number i (some r) o)
after_ranges-number i found r none = refl
after_ranges-number i found r (some rs) = append_assoc found ((i, r.0, r.1) ∷ []) rs

after_columns-number :
    (i : ℕ) (ids mins maxs : List ℤ) (r : ℤ × ℤ) (o : Option (List AxisRange))
    → after_columns (ids ++ pos i ∷ []) (mins ++ r.0 ∷ []) (maxs ++ r.1 ∷ []) o
      ≡ after_columns ids mins maxs (number i (some r) o)
after_columns-number i ids mins maxs r none = refl
after_columns-number i ids mins maxs r (some rs) =
    rw
      (
        append_assoc ids (pos i ∷ []) (map (λ r. pos r.0) rs),
        append_assoc mins (r.0 ∷ []) (map (λ r. r.1) rs),
        append_assoc maxs (r.1 ∷ []) (map (λ r. r.2) rs),
      )
      refl

walk-ranges :
    (i : ℕ) (axes : List Axis) (ps : List Place) (pre : List ℤ) (found : List AxisRange)
    → length axes ≡ length ps
    → ranges_from i axes (map type_of ps) (pre ++ flatten ps) (length pre) found
      ≡ some (after_ranges found (all_covered i axes ps))
walk-ranges i [] [] pre found h = unfold ranges_from in ap some (sym (append-nil found))
walk-ranges i [] (p ∷ ps) pre found h = absurd (omega (arith, h))
walk-ranges i (axis ∷ axes) [] pre found h = absurd (omega (arith, h))
walk-ranges i (axis ∷ axes) (p ∷ ps) pre found h =
    let read = axis_range-covered axis p pre (flatten ps) in
    elim (Option-cases (covered axis p)) [
      | inl e ↦
          ranges_invalid i axis axes p (map type_of ps) (pre ++ flatten (p ∷ ps)) (length pre) found
            (read ∙ ap some e)
          ∙ rw e refl
      | inr (r, e) ↦
          ranges_valid i axis axes p (map type_of ps) (pre ++ flatten (p ∷ ps)) (length pre) found r
            (read ∙ ap some e)
          ∙ rw (length-coords_of pre p, ← append_assoc pre (coords_of p) (flatten ps))
              (walk-ranges (i + 1) axes ps (pre ++ coords_of p) (found ++ (i, r.0, r.1) ∷ [])
                (omega (arith, h)))
          ∙ ap some (after_ranges-number i found r (all_covered (i + 1) axes ps))
          ∙ rw e refl
    ]

walk-columns :
    (i : ℕ) (axes : List Axis) (ps : List Place) (pre ids mins maxs : List ℤ)
    → length axes ≡ length ps
    → columns_from i axes (map type_of ps) (pre ++ flatten ps) (length pre) ids mins maxs
      ≡ some (after_columns ids mins maxs (all_covered i axes ps))
walk-columns i [] [] pre ids mins maxs h =
    unfold columns_from in rw (append-nil ids, append-nil mins, append-nil maxs) refl
walk-columns i [] (p ∷ ps) pre ids mins maxs h = absurd (omega (arith, h))
walk-columns i (axis ∷ axes) [] pre ids mins maxs h = absurd (omega (arith, h))
walk-columns i (axis ∷ axes) (p ∷ ps) pre ids mins maxs h =
    let read = axis_range-covered axis p pre (flatten ps) in
    elim (Option-cases (covered axis p)) [
      | inl e ↦
          columns_invalid i axis axes p (map type_of ps) (pre ++ flatten (p ∷ ps)) (length pre) ids
            mins maxs (read ∙ ap some e)
          ∙ rw e refl
      | inr (r, e) ↦
          columns_valid i axis axes p (map type_of ps) (pre ++ flatten (p ∷ ps)) (length pre) ids
            mins maxs r (read ∙ ap some e)
          ∙ rw (length-coords_of pre p, ← append_assoc pre (coords_of p) (flatten ps))
              (walk-columns (i + 1) axes ps (pre ++ coords_of p) (ids ++ pos i ∷ [])
                (mins ++ r.0 ∷ []) (maxs ++ r.1 ∷ []) (omega (arith, h)))
          ∙ ap some (after_columns-number i ids mins maxs r (all_covered (i + 1) axes ps))
          ∙ rw e refl
    ]

-- The ids, the lower and the upper bounds of the ranges, each in a list.
abbrev pub columns : Option (List AxisRange) → List (List ℤ)
columns none = []
columns (some rs) = map (λ r. pos r.0) rs ∷ map (λ r. r.1) rs ∷ map (λ r. r.2) rs ∷ []

columns-after : (o : Option (List AxisRange)) → after_columns [] [] [] o ≡ columns o
columns-after none = refl
columns-after (some rs) = refl

or_empty-after : (o : Option (List AxisRange)) → after_ranges [] o ≡ or_empty o
or_empty-after none = refl
or_empty-after (some rs) = refl

-- At a point that is given by the place of every axis, `GetAxisRanges` reads for each axis the bins
-- that its own place covers, in the order of the axes, and is empty if one of them is not on its
-- axis; `GetCoordsRange` returns the same in columns.
pub get_axis_ranges-all_covered :
    (axes : List Axis) (ps : List Place)
    → length axes ≡ length ps
    → (get_axis_ranges axes (map type_of ps) (flatten ps) ≡ some (or_empty (all_covered 0 axes ps)))
      × (get_coords_range axes (map type_of ps) (flatten ps)
          ≡ some (columns (all_covered 0 axes ps)))
unfolding get_axis_ranges get_coords_range
get_axis_ranges-all_covered axes ps h = (
  walk-ranges 0 axes ps [] [] h ∙ ap some (or_empty-after (all_covered 0 axes ps)),
  walk-columns 0 axes ps [] [] [] [] h ∙ ap some (columns-after (all_covered 0 axes ps)),
)
