-- ===== src/Tests/Defining.antt =====
-- core/NBinning.cxx: a store with one axis of four bins and a definition of two.
use ndmspc.Base.Dict
use ndmspc.Base.Int.{pos, ◌+ℤ◌, ◌-ℤ◌, ◌*ℤ◌, ◌/ℤ◌, ◌%ℤ◌}
use ndmspc.Base.{◌≡◌, refl, false, List, [], ◌∷◌, some, Bytes, bytes_dec, ℕ_discrete}
use ndmspc.Binning.Defs.{
  Bin, BinningType, add_binning, add_points, first_point, consecutive, variable_binning,
  add_segments, add_binning_variable, add_binning_via_bin_widths, collect_mins, extend,
}
use ndmspc.Binning.Definitions.{
  Call, Store, add_definition, all_bins, axis_bins, get_definition, run, set_current, step,
  with_defaults,
}
use ndmspc.Binning.Fill.{collect, fill_all, fill_all_bins, total_bins, mark_axes, point_content}
use ndmspc.Binning.Walk.{get_binning_type}
use ndmspc.Sweep.Defs.{
  check_bounds, construct, execute, first_bad, increment, increment_loop, visits,
}

abbrev pt : Bytes
pt = 112 ∷ 116 ∷ []

abbrev halves : Bytes
halves = 104 ∷ []

abbrev no_definition : Store
no_definition = record {
  axes = (record { name = pt; nbins = 4; is_alphanumeric = false }, BinningType.multiple) ∷ [];
  definition_names = [];
  definitions = [];
  current = [];
}

abbrev in_order : List Bin → List Bin
in_order bins = bins

-- The second call names a definition that there is not.
abbrev three_calls : List Call
three_calls =
    Call.adds_definition halves ((pt, (pos 2 ∷ []) ∷ []) ∷ []) ∷ Call.sets pt ∷ Call.gets [] ∷ []

abbrev defined : Store
defined = record no_definition {
  definition_names = halves ∷ [];
  definitions =
      (
        halves,
        record {
          widths = (pt, (pos 2 ∷ []) ∷ []) ∷ [];
          variable_axes = 0 ∷ [];
          points = (pos 2 ∷ pos 1 ∷ pos 1 ∷ []) ∷ (pos 2 ∷ pos 1 ∷ pos 2 ∷ []) ∷ [];
        },
      )
      ∷ [];
  current = halves;
}

defined_run : run in_order three_calls no_definition ≡ some defined
unfolding run step add_definition all_bins axis_bins with_defaults get_definition set_current
    add_binning add_points first_point consecutive variable_binning add_segments
    add_binning_variable add_binning_via_bin_widths collect_mins extend collect fill_all mark_axes
    total_bins fill_all_bins point_content get_binning_type check_bounds construct execute first_bad
    increment increment_loop visits Dict.find Dict.put bytes_dec ℕ_discrete ◌+ℤ◌ ◌-ℤ◌ ◌*ℤ◌ ◌/ℤ◌ ◌%ℤ◌
defined_run = refl
