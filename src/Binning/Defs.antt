-- ===== src/Binning/Defs.antt =====
-- core/NBinning.h and .cxx: the axes, the bins that a definition adds to the map, and the walk over
-- the coordinates of a point. A ROOT axis is what the code reads of it. The map is the list of the
-- points that `SetBinContent` is called with. `none` marks what C++ leaves undefined: a read behind
-- the end of a vector, a division by zero.
use ndmspc.Base.Int.{ℤ, pos, ◌+ℤ◌, ◌-ℤ◌, ◌*ℤ◌, ◌/ℤ◌, ◌%ℤ◌, ltb_ℤ, eqb_ℤ, pos_part}
use ndmspc.Base.{
  ℕ, zero, suc, ◌+◌, ◌==◌, ltb, Bool, true, false, not, ◌&&◌, ◌||◌, List, [], ◌∷◌, ◌++◌, Option,
  none, some, Bytes, if◌then◌else◌,
}

pub record Axis : Type 0 where
  pub name : Bytes
  pub nbins : ℕ
  pub is_alphanumeric : Bool

pub data BinningType : Type 0 where
  single multiple user undefined : BinningType

-- A point of the map: the number of the axis from 1 on, `rebin`, `start` and `bin`.
pub record Bin : Type 0 where
  pub dim : ℕ
  pub rebin : ℤ
  pub start : ℤ
  pub bin : ℤ

-- What a method returns and the points that it adds.
abbrev pub Added : Type 0
Added = Bool × List Bin

abbrev pub is_valid_id : ℕ → ℕ → Bool
is_valid_id axes id = not (id == 0) && not (ltb axes id)

-- The array `point`; `binning` has one number or three.
unfoldable pub first_point : ℕ → List ℤ → Option Bin
first_point id (b ∷ []) = some (record { dim = id; rebin = pos 1; start = pos 1; bin = b })
first_point id (r ∷ s ∷ b ∷ []) = some (record { dim = id; rebin = r; start = s; bin = b })
first_point id _ = none

unfoldable pub consecutive : ℕ → Bin → List Bin
consecutive zero p = []
consecutive (suc n) p = p ∷ consecutive n (record p { bin = p.bin +ℤ pos 1 })

unfoldable pub add_points : ℕ → Option Bin → Option Added
add_points n none = none
add_points n (some p) = some (true, consecutive n p)

-- `AddBinning`, with the number of axes.
unfoldable pub add_binning : ℕ → ℕ → List ℤ → ℕ → Option Added
add_binning axes id binning n =
    if axes == 0 || not (is_valid_id axes id)
    then some (false, [])
    else add_points n (first_point id binning)

-- The binning of the bins from `low` up to and without `high`.
unfoldable pub variable_binning : ℤ → ℤ → List ℤ
variable_binning low high =
    let rebin = high -ℤ low in
    if eqb_ℤ rebin (pos 1)
    then rebin ∷ pos 1 ∷ low ∷ []
    else rebin ∷ low %ℤ rebin ∷ high /ℤ rebin ∷ []

abbrev pub join_added : Option Added → Option Added → Option Added
join_added (some a) (some b) = some (b.0, a.1 ++ b.1)
join_added _ _ = none

-- The loop of `AddBinningVariable`, behind the value `low`.
unfoldable pub add_segments : ℕ → ℕ → ℕ → ℤ → List ℤ → Option Added
add_segments axes nbins id low [] = some (true, [])
add_segments axes nbins id low (high ∷ mins) =
    let rest = add_segments axes nbins id high mins in
    if ltb_ℤ high (pos 1) || ltb_ℤ (pos (nbins + 1)) high
    then some (true, [])
    else if ltb_ℤ (high -ℤ low) (pos 1)
    then some (false, [])
    else join_added (add_binning axes id (variable_binning low high) 1) rest

-- `AddBinningVariable`, with the bins of the axis.
unfoldable pub add_binning_variable : ℕ → ℕ → ℕ → List ℤ → Option Added
add_binning_variable axes nbins id [] =
    if is_valid_id axes id then some (true, []) else some (false, [])
add_binning_variable axes nbins id (low ∷ mins) =
    if is_valid_id axes id then add_segments axes nbins id low mins else some (false, [])

abbrev pub last : ℤ → List ℤ → ℤ
last m [] = m
last m (n ∷ ns) = last n ns

-- The inner loop over the widths, with the rounds left; the first of `mins` stands apart.
unfoldable pub extend : ℕ → ℕ → ℤ → ℤ → List ℤ → List ℤ
extend zero nbins width first mins = mins
extend (suc k) nbins width first mins =
    let rest = extend k nbins width first (mins ++ (last first mins +ℤ width) ∷ []) in
    if ltb_ℤ (pos nbins) (last first mins) then mins else rest

-- The rounds from `from` up to and without `count`.
abbrev pub rounds : ℤ → ℤ → ℕ
rounds count from = pos_part (count -ℤ from)

-- The loop over the widths: whether the skip at the start was applied, and `mins`.
unfoldable pub collect_mins : ℕ → Bool → ℤ → List ℤ → List (List ℤ) → Option (ℤ × List ℤ)
collect_mins nbins applied first mins [] = some (first, mins)
collect_mins nbins applied first mins ([] ∷ ws) = none
collect_mins nbins applied first mins ((width ∷ []) ∷ ws) =
    let more = extend (rounds (pos nbins /ℤ width) (pos 0)) nbins width first mins in
    let rest = collect_mins nbins applied first more ws in
    if eqb_ℤ width (pos 0) then none else rest
collect_mins nbins applied first mins ((width ∷ count ∷ _) ∷ ws) =
    let skip = (pos 0 -ℤ count) *ℤ width in
    let skips = not applied && ltb_ℤ count (pos 0) in
    let first' = if skips then pos 1 +ℤ skip else first in
    let from = if skips then skip /ℤ width else pos 0 in
    let more = extend (rounds count from) nbins width first' mins in
    let rest = collect_mins nbins (applied || skips) first' more ws in
    if skips && eqb_ℤ width (pos 0) then none else rest

abbrev pub add_collected : ℕ → ℕ → ℕ → Option (ℤ × List ℤ) → Option Added
add_collected axes nbins id none = none
add_collected axes nbins id (some (first, mins)) = add_binning_variable axes nbins id (first ∷ mins)

-- `AddBinningViaBinWidths`, for an axis that there is.
unfoldable pub add_binning_via_bin_widths : ℕ → ℕ → ℕ → List (List ℤ) → Option Added
add_binning_via_bin_widths axes nbins id widths =
    add_collected axes nbins id (collect_mins nbins false (pos 1) [] widths)
