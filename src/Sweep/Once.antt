-- ===== src/Sweep/Once.antt =====
-- How often a point stands in the list of the points between two bounds.
use ndmspc.Base.Int.{ℤ, pos, ◌+ℤ◌, ◌≤ℤ◌, leb_ℤ, +ℤ_parts, eq_of_parts}
use ndmspc.Base.{
  ℕ, zero, suc, ◌+◌, ◌*◌, ◌≡◌, refl, Bool, true, false, ◌&&◌, List, [], ◌∷◌, ◌++◌, map, arith,
  if◌then◌else◌, ite, ℕ_discrete,
}
use ndmspc.Sweep.Box.{box, prefix, span, span_from, width, IsBounds}
use ndmspc.Sweep.Defs.{Coords}

int_dec : Discrete ℤ
unfolding ℕ_discrete
int_dec = hlevel ℕ_discrete

pub coords_dec : Discrete Coords
unfolding int_dec
coords_dec = hlevel int_dec

-- How often a value stands in a list.
unfoldable pub count {ℓ} : {A : Type ℓ} → Discrete A → A → List A → ℕ
count dec a [] = 0
count dec a (x ∷ xs) = ite (dec a x) 1 0 + count dec a xs

pub is_within : Coords → Coords → Coords → Bool
is_within [] [] [] = true
is_within (m ∷ ms) (h ∷ hs) (c ∷ cs) = leb_ℤ m c && leb_ℤ c h && is_within ms hs cs
is_within _ _ _ = false

pub count-append {ℓ} :
    {A : Type ℓ} (dec : Discrete A) (a : A) (xs ys : List A)
    → count dec a (xs ++ ys) ≡ count dec a xs + count dec a ys
unfolding count
count-append dec a [] ys = omega arith
count-append dec a (x ∷ xs) ys = omega (arith, count-append dec a xs ys)

count-map_cons :
    (c x : ℤ) (cs : Coords) (pts : List Coords)
    → count coords_dec (c ∷ cs) (map (◌∷◌ x) pts) ≡ ite (int_dec c x) (count coords_dec cs pts) 0
unfolding count
count-map_cons c x cs [] = ground arith
count-map_cons c x cs (p ∷ pts) = ground (arith, count-map_cons c x cs pts)

count-map_nil : (x : ℤ) (pts : List Coords) → count coords_dec [] (map (◌∷◌ x) pts) ≡ 0
unfolding count
count-map_nil x [] = refl
count-map_nil x (p ∷ pts) = ground (arith, count-map_nil x pts)

count-prefix :
    (c : ℤ) (cs : Coords) (xs : List ℤ) (pts : List Coords)
    → count coords_dec (c ∷ cs) (prefix xs pts) ≡ count int_dec c xs * count coords_dec cs pts
unfolding count prefix
count-prefix c cs [] pts = omega arith
count-prefix c cs (x ∷ xs) pts = ground (
  arith,
  count-append coords_dec (c ∷ cs) (map (◌∷◌ x) pts) (prefix xs pts),
  count-map_cons c x cs pts,
  count-prefix c cs xs pts,
)

count-prefix_nil : (xs : List ℤ) (pts : List Coords) → count coords_dec [] (prefix xs pts) ≡ 0
unfolding count prefix
count-prefix_nil [] pts = refl
count-prefix_nil (x ∷ xs) pts = ground (
  arith,
  count-append coords_dec [] (map (◌∷◌ x) pts) (prefix xs pts),
  count-map_nil x pts,
  count-prefix_nil xs pts,
)

count-span_from :
    (n : ℕ) (m c : ℤ)
    → count int_dec c (span_from n m)
      ≡ (if leb_ℤ m c && leb_ℤ (c +ℤ pos 1) (m +ℤ pos n) then 1 else 0)
unfolding count span_from
count-span_from zero m c = ground (arith, +ℤ_parts c (pos 1), +ℤ_parts m (pos 0))
count-span_from (suc n) m c = ground (
  arith,
  count-span_from n (m +ℤ pos 1) c,
  +ℤ_parts c (pos 1),
  +ℤ_parts m (pos 1),
  +ℤ_parts m (pos (suc n)),
  +ℤ_parts (m +ℤ pos 1) (pos n),
  eq_of_parts c m,
)

count-span :
    (m h c : ℤ) → m ≤ℤ h → count int_dec c (span m h) ≡ (if leb_ℤ m c && leb_ℤ c h then 1 else 0)
count-span m h c le =
    ground
      (arith, count-span_from (width m h) m c, +ℤ_parts c (pos 1), +ℤ_parts m (pos (width m h)))

-- A point stands once in the list if it lies between the bounds in every dimension, else not at all.
pub count-box :
    (mins maxs cs : Coords)
    → IsBounds mins maxs
    → count coords_dec cs (box mins maxs) ≡ (if is_within mins maxs cs then 1 else 0)
unfolding box is_within
count-box [] [] [] b = unfold count coords_dec int_dec ℕ_discrete in refl
count-box [] [] (c ∷ cs) b = unfold count in ground arith
count-box (m ∷ ms) (h ∷ hs) [] b = count-prefix_nil (span m h) (box ms hs)
count-box (m ∷ ms) (h ∷ hs) (c ∷ cs) b =
    ground (arith, count-prefix c cs (span m h) (box ms hs), count-span m h c, count-box ms hs cs)
count-box [] (h ∷ hs) cs b = elim b [ ]
count-box (m ∷ ms) [] cs b = elim b [ ]
