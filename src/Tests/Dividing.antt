-- ===== src/Tests/Dividing.antt =====
-- core/NBinning.cxx, core/NBinningDef.cxx: small axes that are divided into bins.
use ndmspc.Base.Int.{ℤ, pos, ◌+ℤ◌, ◌-ℤ◌, ◌*ℤ◌, ◌/ℤ◌, ◌%ℤ◌}
use ndmspc.Base.{
  ◌||◌, ℕ, ◌≤◌, ◌<◌, ◌≡◌, refl, true, false, List, [], ◌∷◌, ◌++◌, map, none, some, length,
  get_elem?, arith,
}
use ndmspc.Binning.AxisBinning.{binning_or_empty, get_axis_binning-flatten}
use ndmspc.Binning.Coordinates.{
  Place, type_of, flatten, all_covered, or_empty, columns, get_axis_ranges-all_covered,
}
use ndmspc.Binning.Defs.{
  Added, Axis, Bin, BinningType, add_binning, add_points, first_point, consecutive,
  variable_binning, add_segments, add_binning_variable, add_binning_via_bin_widths,
}
use ndmspc.Binning.Fill.{Filled, fill_all, holds}
use ndmspc.Binning.Filling.{picks}
use ndmspc.Binning.Marking.{is_filled}
use ndmspc.Binning.Outcome.{fill_all-choices, fill_all_throws}
use ndmspc.Binning.Product.{choices}
use ndmspc.Binning.Ranges.{bins_in_base, range_in_base, rebin_of, start_of}
use ndmspc.Binning.Storage.{
  storage_edges, edges_from, edge_rounds, ranges_to, storage_edges-add_binning_via_bin_widths,
  storage_edges_room,
}
use ndmspc.Binning.Tiling.{IsTiling, range_of, segments, add_binning_variable-IsTiling}
use ndmspc.Binning.Walk.{get_axis_binning, get_axis_ranges, get_coords_range, get_binning_type}
use ndmspc.Binning.Widths.{
  Width, Skip, all_widths, bounds, entry, skip_entry, add_binning_via_bin_widths-segments,
}

-- The third bound is not behind the second.
abbrev some_bounds : List ℤ
some_bounds = pos 3 ∷ pos 9 ∷ pos 5 ∷ []

bounds-added :
    add_binning_variable 1 10 1 (pos 1 ∷ some_bounds)
    ≡ some (
      false,
      record { dim = 1; rebin = pos 2; start = pos 1; bin = pos 1 }
          ∷ record { dim = 1; rebin = pos 6; start = pos 3; bin = pos 1 }
          ∷ [],
    )
unfolding add_binning_variable add_segments variable_binning add_binning add_points first_point
    consecutive ◌-ℤ◌ ◌/ℤ◌ ◌%ℤ◌ ◌+ℤ◌
bounds-added = refl

add_binning_variable-IsTiling_example :
    (r : Added) × (add_binning_variable 1 10 1 (pos 1 ∷ some_bounds) ≡ some r) × IsTiling 10 1 1 r.1
add_binning_variable-IsTiling_example =
    add_binning_variable-IsTiling 1 10 1 1 some_bounds (omega arith)

-- `{4, -1}, {1, 3}, {2}` on an axis of twelve bins.
abbrev one_skipped : Skip
one_skipped = some (4, 0)

abbrev two_widths : List Width
two_widths = (1, some 3) ∷ (2, none) ∷ []

add_binning_via_bin_widths-segments_example :
    (bins : List Bin) × (add_binning_via_bin_widths 1 12 1
        (skip_entry one_skipped ++ map entry two_widths)
      ≡ some (true, bins))
    × (map (range_of 12) bins ≡ segments 5 (bounds 12 5 (all_widths 12 two_widths)))
add_binning_via_bin_widths-segments_example =
    add_binning_via_bin_widths-segments 1 12 1 one_skipped two_widths refl (omega arith)
      (omega arith, (omega arith, tt))

storage_edges-add_binning_via_bin_widths_example :
    (bins : List Bin) × (edges : List ℕ) × (add_binning_via_bin_widths 1 12 1 (map entry two_widths)
      ≡ some (true, bins))
    × (storage_edges 12 (map entry two_widths) ≡ some (map pos edges))
    × (map (range_of 12) bins ≡ ranges_to 0 edges)
storage_edges-add_binning_via_bin_widths_example =
    storage_edges-add_binning_via_bin_widths 1 12 1 two_widths refl (omega arith, (omega arith, tt))

-- The bins that are added begin at 5, the edges at 1.
edges-skipped :
    storage_edges 12 (skip_entry one_skipped ++ map entry two_widths)
    ≡ some (map pos (1 ∷ 2 ∷ 3 ∷ 5 ∷ 7 ∷ 9 ∷ 11 ∷ []))
unfolding storage_edges edges_from edge_rounds ◌/ℤ◌ ◌+ℤ◌
edges-skipped = refl

storage_edges_room_example :
    (edges : List ℤ) × (storage_edges 12 (skip_entry one_skipped ++ map entry two_widths)
      ≡ some edges)
    × (storage_edges 12 (map entry two_widths) ≡ some edges)
    × (length edges ≤ 12)
storage_edges_room_example =
    storage_edges_room 12 one_skipped two_widths (omega arith, (omega arith, tt))

-- Ten bins over a base axis of 21: the first group begins at 2.
base_bins : bins_in_base 21 10 (pos 1) (pos 10) ≡ (pos 2, pos 21)
unfolding bins_in_base range_in_base rebin_of start_of ◌+ℤ◌ ◌-ℤ◌ ◌*ℤ◌
base_bins = refl

abbrev two_axes : List Axis
two_axes =
    record { name = []; nbins = 10; is_alphanumeric = false }
    ∷ record { name = []; nbins = 3; is_alphanumeric = false }
    ∷ []

abbrev two_places : List Place
two_places = Place.grouped (pos 2) (pos 1) (pos 3) ∷ Place.by_user (pos 1) ∷ []

get_axis_ranges-all_covered_example :
    (get_axis_ranges two_axes (map type_of two_places) (flatten two_places)
      ≡ some (or_empty (all_covered 0 two_axes two_places)))
    × (get_coords_range two_axes (map type_of two_places) (flatten two_places)
        ≡ some (columns (all_covered 0 two_axes two_places)))
get_axis_ranges-all_covered_example = get_axis_ranges-all_covered two_axes two_places refl

get_axis_binning-flatten_example :
    get_axis_binning 2 1 (map type_of two_places) (flatten two_places)
    ≡ some (binning_or_empty (get_elem? two_places 1))
get_axis_binning-flatten_example = get_axis_binning-flatten 1 two_places

abbrev two_types : List BinningType
two_types = BinningType.multiple ∷ BinningType.user ∷ []

abbrev map_points : List Bin
map_points =
    record { dim = 1; rebin = pos 2; start = pos 1; bin = pos 1 }
    ∷ record { dim = 2; rebin = pos 3; start = pos 1; bin = pos 1 }
    ∷ record { dim = 1; rebin = pos 2; start = pos 1; bin = pos 2 }
    ∷ []

fill_all-choices_example :
    (marked : List ℕ) × (total : ℕ) × (fill_all 5 two_types map_points []
      ≡ some (Filled.fills marked total (choices (picks 0 2 two_types map_points))))
    × (total ≡ length (choices (picks 0 2 two_types map_points)))
    × ((j : ℕ) → j < 2 → holds marked j ≡ true)
unfolding get_binning_type
fill_all-choices_example =
    fill_all-choices 5 two_types map_points [] (omega arith) refl (omega arith)

abbrev first_point_only : List Bin
first_point_only = record { dim = 1; rebin = pos 2; start = pos 1; bin = pos 1 } ∷ []

fill_all_throws_example :
    (marked : List ℕ) × (fill_all 5 two_types first_point_only [] ≡ some (Filled.throws marked))
    × ((j : ℕ) → holds marked j ≡ holds [] j || is_filled (picks 0 2 two_types first_point_only) j)
unfolding get_binning_type
fill_all_throws_example = fill_all_throws 5 two_types first_point_only [] refl
