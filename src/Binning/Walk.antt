-- ===== src/Binning/Walk.antt =====
-- core/NBinning.cxx: what the coordinates of a point say of each axis. The axis has one coordinate
-- or three, by its type, and the methods walk over the axes with an index into the coordinates.
-- `none` marks a read behind the end of the coordinates or of `fBinningTypes`.
use ndmspc.Base.Int.{ℤ, pos}
use ndmspc.Base.{
  ℕ, zero, suc, ◌+◌, ◌==◌, List, [], ◌∷◌, ◌++◌, Option, none, some, if◌then◌else◌, get_elem?,
}
use ndmspc.Binning.Defs.{Axis, BinningType}
use ndmspc.Binning.Ranges.{range_in_base}

-- `isValid` false, with no bounds, is the inner `none`.
abbrev pub Range : Type 0
Range = Option (ℤ × ℤ)

unfoldable pub get_binning_type : List BinningType → ℕ → BinningType
get_binning_type [] i = BinningType.undefined
get_binning_type (t ∷ ts) zero = t
get_binning_type (t ∷ ts) (suc i) = get_binning_type ts i

abbrev pub range_of_one : Axis → Option ℤ → Option Range
range_of_one axis (some bin) = some (range_in_base axis.nbins (pos 1) (pos 1) bin)
range_of_one axis none = none

abbrev pub range_of_three : Axis → Option ℤ → Option ℤ → Option ℤ → Option Range
range_of_three axis (some rebin) (some start) (some bin) =
    some (range_in_base axis.nbins rebin start bin)
range_of_three axis rebin start bin = none

-- The range that the walk reads for an axis of a type that is not undefined.
unfoldable pub axis_range : Axis → BinningType → List ℤ → ℕ → Option Range
axis_range axis BinningType.single c index = range_of_one axis (get_elem? c index)
axis_range axis BinningType.multiple c index =
    range_of_three axis (get_elem? c index) (get_elem? c (index + 1)) (get_elem? c (index + 2))
axis_range axis BinningType.user c index =
    some (range_in_base axis.nbins (pos axis.nbins) (pos 1) (pos 1))
axis_range axis BinningType.undefined c index = none

abbrev pub width : BinningType → ℕ
width BinningType.single = 1
width BinningType.multiple = 3
width BinningType.user = 1
width BinningType.undefined = 0

-- The number of the axis, from 0 on, and the bounds of its range.
abbrev pub AxisRange : Type 0
AxisRange = ℕ × ℤ × ℤ

-- The loop of `GetAxisRanges` from the axis `i` on, with what it has collected.
unfoldable pub ranges_from :
    ℕ → List Axis → List BinningType → List ℤ → ℕ → List AxisRange → Option (List AxisRange)
ranges_from i [] types c index found = some found
ranges_from i (axis ∷ axes) [] c index found = none
ranges_from i (axis ∷ axes) (BinningType.undefined ∷ types) c index found =
    ranges_from (i + 1) axes types c index found
ranges_from i (axis ∷ axes) (t ∷ types) c index found = elim (axis_range axis t c index) [
  | none ↦ none
  | some none ↦ some []
  | some (some r) ↦ ranges_from (i + 1) axes types c (index + width t) (found ++ (i, r.0, r.1) ∷ [])
]

unfoldable pub get_axis_ranges : List Axis → List BinningType → List ℤ → Option (List AxisRange)
get_axis_ranges axes types c = ranges_from 0 axes types c 0 []

-- The loop of `GetCoordsRange`.
unfoldable pub columns_from :
    ℕ
    → List Axis
    → List BinningType
    → List ℤ
    → ℕ
    → List ℤ
    → List ℤ
    → List ℤ
    → Option (List (List ℤ))
columns_from i [] types c index ids mins maxs = some (ids ∷ mins ∷ maxs ∷ [])
columns_from i (axis ∷ axes) [] c index ids mins maxs = none
columns_from i (axis ∷ axes) (BinningType.undefined ∷ types) c index ids mins maxs =
    columns_from (i + 1) axes types c index ids mins maxs
columns_from i (axis ∷ axes) (t ∷ types) c index ids mins maxs = elim (axis_range axis t c index) [
  | none ↦ none
  | some none ↦ some []
  | some (some r) ↦
      columns_from (i + 1) axes types c (index + width t) (ids ++ pos i ∷ []) (mins ++ r.0 ∷ [])
        (maxs ++ r.1 ∷ [])
]

unfoldable pub get_coords_range : List Axis → List BinningType → List ℤ → Option (List (List ℤ))
get_coords_range axes types c = columns_from 0 axes types c 0 [] [] []

abbrev pub three : Option ℤ → Option ℤ → Option ℤ → Option (List ℤ)
three (some rebin) (some start) (some bin) = some (rebin ∷ start ∷ bin ∷ [])
three rebin start bin = none

-- The three numbers of an axis of this type.
unfoldable pub binning_at : BinningType → List ℤ → ℕ → Option (List ℤ)
binning_at BinningType.single c index = three (some (pos 1)) (some (pos 1)) (get_elem? c index)
binning_at BinningType.multiple c index =
    three (get_elem? c index) (get_elem? c (index + 1)) (get_elem? c (index + 2))
binning_at BinningType.user c index = three (get_elem? c index) (some (pos 1)) (some (pos 1))
binning_at BinningType.undefined c index = some []

-- The loop of `GetAxisBinning`, with the number of axes and the types from the axis `i` on.
unfoldable pub binning_from : ℕ → ℕ → ℕ → List BinningType → List ℤ → ℕ → Option (List ℤ)
binning_from axis_id i zero types c index = some []
binning_from axis_id i (suc axes) [] c index = none
binning_from axis_id i (suc axes) (BinningType.undefined ∷ types) c index =
    binning_from axis_id (i + 1) axes types c index
binning_from axis_id i (suc axes) (t ∷ types) c index =
    let rest = binning_from axis_id (i + 1) axes types c (index + width t) in
    if i == axis_id then binning_at t c index else rest

unfoldable pub get_axis_binning : ℕ → ℕ → List BinningType → List ℤ → Option (List ℤ)
get_axis_binning axes axis_id types c = binning_from axis_id 0 axes types c 0
