-- ===== src/Binning/Fill.antt =====
-- core/NBinning.cxx: `FillAll`, from the points of the map to the points of the content. The filled
-- points of the map come in the order of the iterator of ROOT. `none` marks a read behind the end
-- of a vector; the definition keeps the list of the variable axes.
use mathlib.Core.Option
use ndmspc.Base.Int.{ℤ, pos, pos_part}
use ndmspc.Base.{
  ℕ, zero, suc, ◌+◌, ◌-◌, ◌*◌, ◌==◌, ◌||◌, Bool, false, List, [], ◌∷◌, ◌++◌, Option, none, some,
  if◌then◌else◌, length, get_elem?,
}
use ndmspc.Binning.Defs.{Bin, BinningType}
use ndmspc.Binning.Walk.{get_binning_type}
use ndmspc.Sweep.Defs.{Coords, Executor, construct, execute}

-- What one axis has collected, and for all axes.
abbrev pub Entries : Type 0
Entries = List (List ℤ)

abbrev pub Content : Type 0
Content = List Entries

-- What is stored of a point of the map.
abbrev pub stored : BinningType → Bin → Option (List ℤ)
stored BinningType.single p = some (pos p.dim ∷ p.bin ∷ [])
stored BinningType.multiple p = some (pos p.dim ∷ p.rebin ∷ p.start ∷ p.bin ∷ [])
stored BinningType.user p = some (pos p.dim ∷ pos 1 ∷ [])
stored BinningType.undefined p = none

-- `content[i].push_back(e)`
abbrev pub push_at : ℕ → List ℤ → Content → Content
push_at i e [] = []
push_at zero e (es ∷ rest) = (es ++ e ∷ []) ∷ rest
push_at (suc i) e (es ∷ rest) = es ∷ push_at i e rest

abbrev pub collect_one : List BinningType → Bin → Content → Content
collect_one types p content = elim (stored (get_binning_type types (p.dim - 1)) p) [
  | none ↦ content
  | some e ↦ push_at (p.dim - 1) e content
]

-- The loop over the filled points of the map.
unfoldable pub collect : List BinningType → List Bin → Content → Content
collect types [] content = content
collect types (p ∷ ps) content = collect types ps (collect_one types p content)

abbrev pub no_content : ℕ → Content
no_content zero = []
no_content (suc axes) = [] ∷ no_content axes

-- `maxs`, which is raised with each entry.
abbrev pub sizes : Content → Coords
sizes [] = []
sizes (es ∷ rest) = pos (length es) ∷ sizes rest

abbrev pub ones : ℕ → Coords
ones zero = []
ones (suc n) = pos 1 ∷ ones n

abbrev pub holds : List ℕ → ℕ → Bool
holds [] i = false
holds (j ∷ js) i = j == i || holds js i

-- The loop over the contents, from the axis `i` on: the variable axes and `nTotalBins`.
unfoldable pub mark_axes : ℕ → Content → List ℕ → ℕ → List ℕ × ℕ
mark_axes i [] axes total = (axes, total)
mark_axes i ([] ∷ rest) axes total = mark_axes (i + 1) rest axes total
mark_axes i ((e ∷ es) ∷ rest) axes total =
    mark_axes (i + 1) rest (if holds axes i then axes else axes ++ i ∷ []) (total * length (e ∷ es))

-- `content[i][coords[i] - 1]` without its first number; an entry has two numbers or four.
abbrev pub numbers : Option (List ℤ) → Option (List ℤ)
numbers (some (d ∷ b ∷ [])) = some (b ∷ [])
numbers (some (d ∷ r ∷ s ∷ b ∷ [])) = some (r ∷ s ∷ b ∷ [])
numbers _ = none

abbrev pub joined : Option (List ℤ) → Option (List ℤ) → Option (List ℤ)
joined (some xs) (some ys) = some (xs ++ ys)
joined _ _ = none

-- `pointContentVector` at coordinates.
unfoldable pub point_content : Content → Coords → Option (List ℤ)
point_content content [] = some []
point_content [] (c ∷ cs) = none
point_content (es ∷ content) (c ∷ cs) =
    joined (numbers (get_elem? es (pos_part c - 1))) (point_content content cs)

abbrev pub add_point : Option (List ℤ) → Option (List (List ℤ)) → Option (List (List ℤ))
add_point (some p) (some ps) = some (p ∷ ps)
add_point _ _ = none

abbrev pub all_points : Content → List Coords → Option (List (List ℤ))
all_points content [] = some []
all_points content (c ∷ cs) = add_point (point_content content c) (all_points content cs)

-- What `FillAll` fills: the variable axes of the definition, `nTotalBins` and the points of the
-- content in the order in which they are filled. `throws` is the exception of the executor's
-- constructor.
pub data Filled : Type 0 where
  throws : List ℕ → Filled
  fills : List ℕ → ℕ → List (List ℤ) → Filled

abbrev pub run_points : Content → List ℕ × ℕ → ℕ → Option Executor → Option Filled
run_points content marked fuel none = some (Filled.throws marked.0)
run_points content marked fuel (some e) = elim (execute fuel e) [
  | none ↦ none
  | some cs ↦ Option.map (Filled.fills marked.0 marked.1) (all_points content cs)
]

-- `FillAll` for axes of these types, with the variable axes that the definition has and the fuel of
-- `Execute`.
unfoldable pub fill_all : ℕ → List BinningType → List Bin → List ℕ → Option Filled
fill_all fuel types map_points axes =
    let content = collect types map_points (no_content (length types)) in
    let marked = mark_axes 0 content axes 1 in
    run_points content marked fuel (construct (ones (length types)) (sizes content))

-- `nTotalBins`, which is the fuel that `Execute` needs.
unfoldable pub total_bins : List BinningType → List Bin → List ℕ → ℕ
total_bins types map_points axes =
    (mark_axes 0 (collect types map_points (no_content (length types))) axes 1).1

-- `FillAll`
unfoldable pub fill_all_bins : List BinningType → List Bin → List ℕ → Option Filled
fill_all_bins types map_points axes =
    fill_all (total_bins types map_points axes) types map_points axes
