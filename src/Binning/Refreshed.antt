-- ===== src/Binning/Refreshed.antt =====
-- core/NBinningDef.cxx: what `RefreshContentFromIds` leaves, and that `RefreshIdsFromContent` reads
-- it.
use mathlib.Core.Option
use ndmspc.Base.Dict
use ndmspc.Base.Int.{ℤ}
use ndmspc.Base.{
  map, ltb, ◌<◌, ◌==◌, if◌then◌else◌, Bool, true, is_some, ℕ, suc, ◌≡◌, List, [], ◌∷◌, ◌++◌, Option,
  none, some, ite, length,
}
use ndmspc.Binning.Defs.{Axis, BinningType}
use ndmspc.Binning.Ids.{Cells, Point}
use ndmspc.Binning.Walk.{AxisRange, get_axis_ranges}
use ndmspc.Sweep.Defs.{Coords}
use ndmspc.Sweep.Once.{coords_dec}

-- The first of two ids that there is.
abbrev pub later : Option ℕ → Option ℕ → Option ℕ
later (some j) o = some j
later none o = o

abbrev pub listed_id : Option ℕ → List ℕ
listed_id none = []
listed_id (some id) = id ∷ []

-- The last id that is placed at a point.
abbrev pub last_at : Coords → List (ℕ × Coords) → Option ℕ
last_at c [] = none
last_at c (q ∷ qs) = later (last_at c qs) (ite (coords_dec c q.1) (some q.0) none)

-- The ids of the points, in the order of the points.
abbrev pub ids_at : List (ℕ × Coords) → List Coords → List ℕ
ids_at qs [] = []
ids_at qs (c ∷ cs) = listed_id (last_at c qs) ++ ids_at qs cs

-- The bins behind ids at these places.
abbrev stored : List (ℕ × Coords) → Cells → Cells
stored [] m = m
stored (q ∷ qs) m = stored qs (Dict.put coords_dec q.1 (suc q.0) m)

module _ (axes : List Axis) (types : List BinningType) (nbins : ℕ) (bin_coords : ℕ → List ℤ)
    (find_bin : ℕ → ℤ → ℤ → ℤ) where
  abbrev pub place_in : Option (List AxisRange) → Option Coords
  place_in none = none
  place_in (some rs) =
      if length rs == length axes then some (map (λ r. find_bin r.0 r.1 r.2) rs) else none

  -- Where an id belongs: at the bins of the definition for the ranges of its axes, each on the axis
  -- that it is for, if it is a bin of the content and there is a range for every axis.
  abbrev pub place : ℕ → Option Coords
  place id = if ltb id nbins then place_in (get_axis_ranges axes types (bin_coords id)) else none

  -- Each id at its place, or where the one before it is if it has none.
  abbrev pub placed : Coords → List ℕ → List (ℕ × Coords)
  placed before [] = []
  placed before (id ∷ ids) = let at = Option.get_or (place id) before in (id, at) ∷ placed at ids

  -- The coordinates of each bin of the content can be read for all axes.
  abbrev pub AreReadable : Type 0
  AreReadable = (id : ℕ) → id < nbins → is_some (get_axis_ranges axes types (bin_coords id)) ≡ true

  -- The point behind the search for the id.
  abbrev Finds : Coords → Point → Option (Point × Bool) → Type 0
  Finds at p o = (r : Point × Bool) × (o ≡ some r) × (r.0.storage_coords ≡ at)
