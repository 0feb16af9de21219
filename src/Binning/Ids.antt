-- ===== src/Binning/Ids.antt =====
-- core/NBinningDef.cxx: `RefreshContentFromIds` and `RefreshIdsFromContent`, and the methods of
-- core/NBinningPoint.cxx that set a point to a bin of the content. The histogram of a definition is
-- the dictionary of its filled bins. What ROOT says is a parameter: the number of bins of the
-- content (`nbins`), the coordinates of each (`bin_coords`), and the bin of an axis of the
-- definition which has the middle of the base bins from one to another (`find_bin`).
use mathlib.Core.Option
use ndmspc.Base.Dict
use ndmspc.Base.{
  ltb, ◌+◌, ◌==◌, if◌then◌else◌, Bool, true, false, ℕ, zero, suc, List, [], ◌∷◌, ◌++◌, Option, none,
  some, length,
}
use ndmspc.Binning.Defs.{Axis, BinningType}
use ndmspc.Binning.Fill.{ones}
use ndmspc.Binning.Walk.{AxisRange, get_axis_ranges}
use ndmspc.Base.Int.{ℤ}
use ndmspc.Sweep.Defs.{Coords, construct, execute}
use ndmspc.Sweep.Once.{coords_dec}

abbrev pub Cells : Type 0
Cells = Dict.Dict Coords ℕ

-- `GetBinContent`
abbrev pub content_at : Coords → Cells → ℕ
content_at c m = Option.get_or (Dict.find coords_dec c m) 0

-- `if (id > 0) fIds.push_back(id - 1)`
abbrev pub read_id : ℕ → List ℕ
read_id zero = []
read_id (suc id) = id ∷ []

-- The ids behind the bins that are visited.
unfoldable pub read_ids : Cells → List Coords → List ℕ
read_ids m [] = []
read_ids m (c ∷ cs) = read_id (content_at c m) ++ read_ids m cs

-- `RefreshIdsFromContent`, for axes with so many bins; `none` is an exception of the constructor,
-- or the end of the fuel.
unfoldable pub refresh_ids_from_content : ℕ → Coords → Cells → Option (List ℕ)
refresh_ids_from_content fuel maxs m = elim (construct (ones (length maxs)) maxs) [
  | none ↦ none
  | some e ↦ Option.map (read_ids m) (execute fuel e)
]

-- What a point keeps of a bin: `fContentCoords` and `fStorageCoords`.
pub record Point : Type 0 where
  pub content_coords : List ℤ
  pub storage_coords : Coords

module _ (axes : List Axis) (types : List BinningType) (nbins : ℕ) (bin_coords : ℕ → List ℤ)
    (find_bin : ℕ → ℤ → ℤ → ℤ) where
  -- The loop over the axes, from the one with the number `i` on.
  abbrev pub storage_of : ℕ → List AxisRange → Coords
  storage_of i [] = []
  storage_of i (r ∷ rs) = find_bin i r.1 r.2 ∷ storage_of (i + 1) rs

  abbrev pub after_ranges : Point → Option (List AxisRange) → Option (Point × Bool)
  after_ranges p none = none
  after_ranges p (some rs) =
      if length rs == length axes
      then some (record p { storage_coords = storage_of 0 rs }, true)
      else some (p, false)

  -- `RecalculateStorageCoords`: the point and the result; `none` is a read behind the end of a
  -- vector.
  unfoldable pub recalculate_storage_coords : Point → Option (Point × Bool)
  recalculate_storage_coords p = after_ranges p (get_axis_ranges axes types p.content_coords)

  -- `SetPointContentFromLinearIndex`
  unfoldable pub set_point_content_from_linear_index : ℕ → Point → Option (Point × Bool)
  set_point_content_from_linear_index id p =
      if ltb id nbins
      then recalculate_storage_coords (record p { content_coords = bin_coords id })
      else some (p, false)

  -- The loop that stores the ids, whatever the point says of them.
  unfoldable pub store_ids : List ℕ → Point → Cells → Option (Point × Cells)
  store_ids [] p m = some (p, m)
  store_ids (id ∷ ids) p m = elim (set_point_content_from_linear_index id p) [
    | none ↦ none
    | some r ↦ store_ids ids r.0 (Dict.put coords_dec r.0.storage_coords (suc id) m)
  ]

  abbrev pub read_back : ℕ → Coords → Option (Point × Cells) → Option (Point × Cells × List ℕ)
  read_back fuel maxs none = none
  read_back fuel maxs (some r) =
      Option.map (λ found. (r.0, r.1, found)) (refresh_ids_from_content fuel maxs r.1)

  -- `RefreshContentFromIds`: the point of the binning, the bins and the ids.
  unfoldable pub refresh_content_from_ids :
      ℕ → Coords → List ℕ → Point → Option (Point × Cells × List ℕ)
  refresh_content_from_ids fuel maxs ids p = read_back fuel maxs (store_ids ids p [])
