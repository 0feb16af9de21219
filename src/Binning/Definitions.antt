-- ===== src/Binning/Definitions.antt =====
-- core/NBinning.cxx: the binning definitions and the one that is current. A definition has the
-- points that `FillAll` fills in place of their numbers in the content. What ROOT's iterator makes
-- of the points that were set in the map, in this order, is the parameter `iterate`. Each axis
-- stands with its binning type.
use ndmspc.Base.Dict
use ndmspc.Base.Int.{ℤ, pos, eqb_ℤ}
use ndmspc.Base.{
  ℕ, ◌+◌, Bool, true, false, not, ◌&&◌, List, [], ◌∷◌, ◌++◌, map, Option, none, some, Bytes,
  bytes_dec, if◌then◌else◌, length,
}
use ndmspc.Binning.Defs.{Added, Axis, Bin, BinningType, add_binning, add_binning_via_bin_widths}
use ndmspc.Binning.Fill.{Filled, fill_all_bins}

-- The widths of each axis, by its name.
abbrev pub Widths : Type 0
Widths = Dict.Dict Bytes (List (List ℤ))

pub record Definition : Type 0 where
  pub widths : Widths
  pub variable_axes : List ℕ
  pub points : List (List ℤ)

pub record Store : Type 0 where
  pub axes : List (Axis × BinningType)
  pub definition_names : List Bytes
  pub definitions : Dict.Dict Bytes Definition
  pub current : Bytes

abbrev pub is_empty {ℓ} : {A : Type ℓ} → List A → Bool
is_empty [] = true
is_empty (x ∷ xs) = false

-- `binning[axisName]`
abbrev pub widths_of : Bytes → Widths → List (List ℤ)
widths_of name widths = elim (Dict.find bytes_dec name widths) [ none ↦ [] | some w ↦ w ]

-- The constructor of `NBinningDef`: an axis with no widths gets its number of bins as the only one.
unfoldable pub with_defaults : List (Axis × BinningType) → Widths → Widths
with_defaults [] widths = widths
with_defaults (axis ∷ axes) widths =
    let rest = with_defaults axes in
    if is_empty (widths_of axis.0.name widths)
    then rest (Dict.put bytes_dec axis.0.name ((pos axis.0.nbins ∷ []) ∷ []) widths)
    else rest widths

-- What the loop over the axes comes to: `exit(1)`, what C++ leaves undefined, or points for the
-- map.
pub data Bins : Type 0 where
  exits undefined : Bins
  adds : List Bin → Bins

abbrev pub added_bins : Option Added → Bins
added_bins none = undefined
added_bins (some a) = adds a.1

-- `binning[axisName].size() != 1 || binning[axisName][0][0] != 1` is false.
abbrev pub is_unit : List (List ℤ) → Bool
is_unit ((w ∷ _) ∷ []) = eqb_ℤ w (pos 1)
is_unit _ = false

-- The axis with the number `id`, of so many.
unfoldable pub axis_bins : ℕ → ℕ → Axis → List (List ℤ) → Bins
axis_bins axes id axis [] =
    if axis.is_alphanumeric
    then exits
    else added_bins (add_binning axes id (pos axis.nbins ∷ pos 1 ∷ pos 1 ∷ []) 1)
axis_bins axes id axis (w ∷ ws) =
    if axis.is_alphanumeric && not (is_unit (w ∷ ws))
    then exits
    else added_bins (add_binning_via_bin_widths axes axis.nbins id (w ∷ ws))

abbrev pub join_bins : Bins → Bins → Bins
join_bins exits bs = exits
join_bins undefined bs = undefined
join_bins (adds ps) exits = exits
join_bins (adds ps) undefined = undefined
join_bins (adds ps) (adds bs) = adds (ps ++ bs)

-- The loop over the axes, from the one with the number `id` on.
unfoldable pub all_bins : ℕ → ℕ → List (Axis × BinningType) → Widths → Bins
all_bins count id [] widths = adds []
all_bins count id (axis ∷ axes) widths =
    join_bins (axis_bins count id axis.0 (widths_of axis.0.name widths))
      (all_bins count (id + 1) axes widths)

-- How a call ends.
pub data Outcome : Type 0 where
  exists exited unclear threw filled : Outcome

-- The definition behind `FillAll`; `none` is a read behind the end of a vector.
abbrev pub after_fill : Bytes → Definition → Store → Option Filled → Outcome × Store
after_fill name def s none = (unclear, s)
after_fill name def s (some (Filled.throws axes)) = (
  threw,
  record s {
    definitions = Dict.put bytes_dec name (record def { variable_axes = axes }) s.definitions;
  },
)
after_fill name def s (some (Filled.fills axes total points)) = (
  filled,
  record s {
    definitions =
        Dict.put bytes_dec name (record def { variable_axes = axes; points = points })
          s.definitions;
  },
)

-- `GetDefinition`
unfoldable pub get_definition : Bytes → Store → Option Definition × Store
get_definition [] s =
    if is_empty s.current then (none, s) else (Dict.find bytes_dec s.current s.definitions, s)
get_definition (c ∷ cs) s = elim (Dict.find bytes_dec (c ∷ cs) s.definitions) [
  | none ↦ (none, s)
  | some d ↦ (some d, record s { current = c ∷ cs })
]

abbrev pub first_name : List Bytes → Bytes → Bytes
first_name [] current = current
first_name (n ∷ ns) current = n

-- `SetCurrentDefinitionName`, which also resets the point.
unfoldable pub set_current : Bytes → Store → Store
set_current [] s = record s { current = first_name s.definition_names s.current }
set_current (c ∷ cs) s = elim (Dict.find bytes_dec (c ∷ cs) s.definitions) [
  | none ↦ s
  | some d ↦ record s { current = c ∷ cs }
]

-- A call that exits leaves nothing, and one that is undefined nothing that is known.
abbrev pub unless_exited : Outcome × Store → Option Store
unless_exited (exited, s) = none
unless_exited (unclear, s) = none
unless_exited (_, s) = some s

pub data Call : Type 0 where
  adds_definition : Bytes → Widths → Call
  gets sets : Bytes → Call

module _ (iterate : List Bin → List Bin) where
  abbrev pub fill_definition : Bytes → Definition → Store → Bins → Outcome × Store
  fill_definition name def s exits = (exited, s)
  fill_definition name def s undefined = (unclear, s)
  fill_definition name def s (adds bins) =
      after_fill name def s (fill_all_bins (map (λ a. a.1) s.axes) (iterate bins) def.variable_axes)

  -- `AddBinningDefinition`; its argument `forceDefault` changes nothing, since the new definition
  -- is the current one before it is read.
  unfoldable pub add_definition : Bytes → Widths → Store → Outcome × Store
  add_definition name widths s = elim (Dict.find bytes_dec name s.definitions) [
    | some d ↦ (exists, s)
    | none ↦
        let def : Definition = record {
          widths = with_defaults s.axes widths;
          variable_axes = [];
          points = [];
        } in
        fill_definition name def
          (record s {
            definition_names = s.definition_names ++ name ∷ [];
            definitions = Dict.put bytes_dec name def s.definitions;
            current = name;
          })
          (all_bins (length s.axes) 1 s.axes widths)
  ]

  unfoldable pub step : Call → Store → Option Store
  step (adds_definition name widths) s = unless_exited (add_definition name widths s)
  step (gets name) s = some (get_definition name s).1
  step (sets name) s = some (set_current name s)

  unfoldable pub run : List Call → Store → Option Store
  run [] s = some s
  run (c ∷ cs) s = elim (step c s) [ none ↦ none | some t ↦ run cs t ]
