-- ===== src/Sweep/Box.antt =====
-- The points between two bounds in lexicographic order, independently of how they are enumerated.
use mathlib.Core.Path.{ap₂}
use ndmspc.Base.Int.{ℤ, pos, pos_part, neg_part, ◌+ℤ◌, ◌≤ℤ◌, +ℤ_parts}
use ndmspc.Base.{
  ℕ, zero, suc, ◌+◌, ◌-◌, ◌*◌, ◌≡◌, refl, ap, ◌∙◌, List, [], ◌∷◌, ◌++◌, map, arith, length,
  length-append, length-map,
}
use ndmspc.Sweep.Defs.{Coords}

-- How many integers lie from `m` to `h`.
abbrev pub width : ℤ → ℤ → ℕ
width m h = pos_part h + neg_part m + 1 - (pos_part m + neg_part h)

unfoldable pub span_from : ℕ → ℤ → List ℤ
span_from zero m = []
span_from (suc n) m = m ∷ span_from n (m +ℤ pos 1)

-- The integers from `m` to `h`.
abbrev pub span : ℤ → ℤ → List ℤ
span m h = span_from (width m h) m

-- Each of the numbers before each of the points.
unfoldable pub prefix : List ℤ → List Coords → List Coords
prefix [] pts = []
prefix (x ∷ xs) pts = map (◌∷◌ x) pts ++ prefix xs pts

unfoldable pub box : Coords → Coords → List Coords
box (m ∷ ms) (h ∷ hs) = prefix (span m h) (box ms hs)
box [] [] = [] ∷ []
box _ _ = []

-- The number of points, as the executor multiplies it up.
unfoldable pub volume : Coords → Coords → ℕ
volume (m ∷ ms) (h ∷ hs) = width m h * volume ms hs
volume _ _ = 1

-- The bounds that the constructor accepts, but for the empty ones.
abbrev pub IsBounds : Coords → Coords → Type 0
IsBounds [] [] = Unit {0}
IsBounds (m ∷ ms) (h ∷ hs) = (m ≤ℤ h) × IsBounds ms hs
IsBounds [] (h ∷ hs) = ⊥
IsBounds (m ∷ ms) [] = ⊥

-- Between the bounds, dimension by dimension.
abbrev pub IsWithin : Coords → Coords → Coords → Type 0
IsWithin [] [] [] = Unit {0}
IsWithin (m ∷ ms) (h ∷ hs) (c ∷ cs) = (m ≤ℤ c) × (c ≤ℤ h) × IsWithin ms hs cs
IsWithin _ _ _ = ⊥

length-span_from : (n : ℕ) (m : ℤ) → length (span_from n m) ≡ n
unfolding span_from
length-span_from zero m = refl
length-span_from (suc n) m = ap suc (length-span_from n (m +ℤ pos 1))

length-prefix : (xs : List ℤ) (pts : List Coords) → length (prefix xs pts) ≡ length xs * length pts
unfolding prefix
length-prefix [] pts = omega arith
length-prefix (x ∷ xs) pts = omega (
  arith,
  length-append (map (◌∷◌ x) pts) (prefix xs pts),
  length-map pts (◌∷◌ x),
  length-prefix xs pts,
)

-- There are as many points as the executor computes.
pub length-box :
    (mins maxs : Coords) → IsBounds mins maxs → length (box mins maxs) ≡ volume mins maxs
unfolding box volume
length-box [] [] b = refl
length-box (m ∷ ms) (h ∷ hs) b =
    length-prefix (span m h) (box ms hs)
    ∙ ap₂ (◌*◌) (length-span_from (width m h) m) (length-box ms hs b.1)
length-box [] (h ∷ hs) b = elim b [ ]
length-box (m ∷ ms) [] b = elim b [ ]

-- A span begins with its lower end.
pub span-cons : (m h : ℤ) → m ≤ℤ h → span m h ≡ m ∷ span (m +ℤ pos 1) h
unfolding span_from
span-cons m h le =
    ap (λ n. span_from n m) {y = suc (width (m +ℤ pos 1) h)} (omega (arith, +ℤ_parts m (pos 1)))

pub span-nil : (m h : ℤ) → ¬ (m ≤ℤ h) → span m h ≡ []
unfolding span_from
span-nil m h gt = ap (λ n. span_from n m) {y = 0} (omega arith)

module _ (x h : ℤ) (pts : List Coords) where
  pub prefix-span :
      x ≤ℤ h → prefix (span x h) pts ≡ map (◌∷◌ x) pts ++ prefix (span (x +ℤ pos 1) h) pts
  unfolding prefix
  prefix-span le = ap (λ xs. prefix xs pts) (span-cons x h le)

  pub prefix-span_nil : ¬ (x ≤ℤ h) → prefix (span x h) pts ≡ []
  unfolding prefix
  prefix-span_nil gt = ap (λ xs. prefix xs pts) (span-nil x h gt)
