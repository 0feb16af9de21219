-- ===== src/Sweep/Defs.antt =====
-- core/NDimensionalExecutor.cxx: `SetBounds`, the constructor, `Increment` and `Execute`. An `int`
-- is an integer; the bounds and one more than these are representable wherever the code runs.
use mathlib.Core.Option
use ndmspc.Base.Int.{ℤ, pos, ◌+ℤ◌, leb_ℤ}
use ndmspc.Base.{
  ℕ, zero, suc, ◌==◌, Bool, true, false, not, List, [], ◌∷◌, Option, none, some, if◌then◌else◌,
  length, get_or, set,
}

abbrev pub Coords : Type 0
Coords = List ℤ

pub record Executor : Type 0 where
  pub num_dimensions : ℕ
  pub min_bounds : Coords
  pub max_bounds : Coords
  pub current_coords : Coords

-- The messages of std::invalid_argument.
pub data Error : Type 0 where
  size_mismatch empty_bounds : Error
  min_above_max : ℕ → Error

-- The loop that compares the bounds, from dimension `i`.
unfoldable pub first_bad : ℕ → Coords → Coords → Option Error
first_bad i [] maxs = none
first_bad i (m ∷ ms) [] = none
first_bad i (m ∷ ms) (h ∷ hs) =
    if leb_ℤ m h then first_bad (suc i) ms hs else some (min_above_max i)

unfoldable pub check_bounds : Coords → Coords → Option Error
check_bounds mins maxs =
    if not (length mins == length maxs)
    then some size_mismatch
    else if length mins == 0
    then some empty_bounds
    else first_bad 0 mins maxs

-- The constructor: no object if it throws.
unfoldable pub construct : Coords → Coords → Option Executor
construct mins maxs = elim (check_bounds mins maxs) [
  | some e ↦ none
  | none ↦ some (record {
    num_dimensions = length mins;
    min_bounds = mins;
    max_bounds = maxs;
    current_coords = mins;
  })
]

-- The executor when an exception is thrown: the number of dimensions is stored before the bounds are
-- compared.
abbrev pub keep_bounds : Error → ℕ → Executor → Executor
keep_bounds size_mismatch n e = e
keep_bounds empty_bounds n e = e
keep_bounds (min_above_max i) n e = record e { num_dimensions = n }

-- `SetBounds` stores the bounds before it checks them.
unfoldable pub set_bounds : Coords → Coords → Executor → Executor × Option Error
set_bounds mins maxs e =
    let stored = record e { min_bounds = mins; max_bounds = maxs } in
    elim (check_bounds mins maxs) [
      | some err ↦ (keep_bounds err (length mins) stored, some err)
      | none ↦ (record stored { num_dimensions = length mins; current_coords = mins }, none)
    ]

-- The loop of `Increment`, for the dimensions below the first argument, the last one first.
unfoldable pub increment_loop : ℕ → Coords → Coords → Coords → Coords × Bool
increment_loop zero mins maxs cs = (cs, false)
increment_loop (suc i) mins maxs cs =
    let raised = set cs i (get_or cs i (pos 0) +ℤ pos 1) in
    let rest = increment_loop i mins maxs (set raised i (get_or mins i (pos 0))) in
    if leb_ℤ (get_or raised i (pos 0)) (get_or maxs i (pos 0)) then (raised, true) else rest

unfoldable pub increment : Executor → Executor × Bool
increment e =
    let (cs, more) = increment_loop e.num_dimensions e.min_bounds e.max_bounds e.current_coords in
    (record e { current_coords = cs }, more)

-- The `do … while` of `Execute`: the points that the function is called with, in order. `none` means
-- that the fuel ran out.
unfoldable pub visits : ℕ → Executor → Option (List Coords)
visits zero e = none
visits (suc fuel) e =
    let next = increment e in
    let rest = Option.map (◌∷◌ e.current_coords) (visits fuel next.0) in
    if next.1 then rest else some (e.current_coords ∷ [])

unfoldable pub execute : ℕ → Executor → Option (List Coords)
execute fuel e =
    if e.num_dimensions == 0
    then some []
    else visits fuel (record e { current_coords = e.min_bounds })
