-- ===== src/Tests/Refreshing.antt =====
-- core/NBinningDef.cxx: ids in a definition with one axis of three bins. The id 7 is no bin of the
-- content.
use ndmspc.Base.Int.{ℤ, pos}
use ndmspc.Base.{ℕ, suc, false, List, [], ◌∷◌}
use ndmspc.Binning.Defs.{Axis, BinningType}
use ndmspc.Binning.Ids.{Point}
use ndmspc.Sweep.Defs.{Coords, Executor}

abbrev axes : List Axis
axes = record { name = []; nbins = 3; is_alphanumeric = false } ∷ []

abbrev types : List BinningType
types = BinningType.single ∷ []

abbrev bin_coords : ℕ → List ℤ
bin_coords id = pos (suc id) ∷ []

abbrev find_bin : ℕ → ℤ → ℤ → ℤ
find_bin i low high = low

-- The point is at the first bin.
abbrev start : Point
start = record { content_coords = pos 1 ∷ []; storage_coords = pos 1 ∷ [] }

abbrev ids : List ℕ
ids = 0 ∷ 2 ∷ 7 ∷ 1 ∷ []

abbrev three_bins : Coords
three_bins = pos 3 ∷ []

abbrev over_bins : Executor
over_bins = record {
  num_dimensions = 1;
  min_bounds = pos 1 ∷ [];
  max_bounds = three_bins;
  current_coords = pos 1 ∷ [];
}
