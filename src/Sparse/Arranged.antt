-- ===== src/Sparse/Arranged.antt =====
-- base/NUtils.cxx: an order that passes the checks of `ReshapeSparseAxes` has every axis.
use ndmspc.Base.Int.{ℤ, pos, eqb_ℤ, eq_of_parts}
use ndmspc.Base.{
  ℕ, zero, suc, ◌≤◌, ◌<◌, ◌≡◌, refl, ap, sym, ◌∙◌, if◌then◌else◌, Bool, true, false, ◌||◌, List, [],
  ◌∷◌, length, arith, Bool-cases, inl, inr,
}
use ndmspc.Sparse.Defs.{are_axes, is_unique, are_unique}

-- Whether the axis is in the order.
abbrev pub has_axis : ℕ → List ℤ → Bool
has_axis k [] = false
has_axis k (id ∷ ids) = eqb_ℤ id (pos k) || has_axis k ids

-- The order less its first such axis.
abbrev pub without : ℕ → List ℤ → List ℤ
without k [] = []
without k (id ∷ ids) = if eqb_ℤ id (pos k) then ids else id ∷ without k ids

length-without : (k : ℕ) (ids : List ℤ) → length ids ≤ suc (length (without k ids))
length-without k [] = omega arith
length-without k (id ∷ ids) = ground (arith, length-without k ids)

is_unique-without :
    (id : ℤ) (k : ℕ) (ids : List ℤ) → is_unique id ids ≡ true → is_unique id (without k ids) ≡ true
is_unique-without id k [] h = refl
is_unique-without id k (x ∷ ids) h =
    let ih = is_unique-without id k ids (ground arith) in ground arith

are_unique-without :
    (k : ℕ) (ids : List ℤ) → are_unique ids ≡ true → are_unique (without k ids) ≡ true
are_unique-without k [] h = refl
are_unique-without k (x ∷ ids) h =
    let ih = are_unique-without k ids (ground arith) in
    let one = is_unique-without x k ids (ground arith) in ground arith

are_axes_below :
    (n : ℕ) (ids : List ℤ)
    → are_axes (suc n) ids ≡ true
    → is_unique (pos n) ids ≡ true
    → are_axes n ids ≡ true
are_axes_below n [] h u = refl
are_axes_below n (id ∷ ids) h u =
    let ih = are_axes_below n ids (ground arith) (ground arith) in ground arith

are_axes-without :
    (n : ℕ) (ids : List ℤ)
    → are_axes (suc n) ids ≡ true
    → are_unique ids ≡ true
    → are_axes n (without n ids) ≡ true
are_axes-without n [] h u = refl
are_axes-without n (id ∷ ids) h u = elim (Bool-cases (eqb_ℤ id (pos n))) [
  | inl here ↦
      (let same = eq_of_parts id (pos n) (ground arith) in
        let below =
          are_axes_below n ids (ground arith)
            (ap (λ i. is_unique i ids) (sym same) ∙ (ground arith)) in
        ground arith)
  | inr other ↦ (let ih = are_axes-without n ids (ground arith) (ground arith) in ground arith)
]

length_bound :
    (n : ℕ) (ids : List ℤ) → are_axes n ids ≡ true → are_unique ids ≡ true → length ids ≤ n
length_bound zero [] h u = omega arith
length_bound zero (id ∷ ids) h u = absurd (ground arith)
length_bound (suc n) ids h u = omega (
  arith,
  length-without n ids,
  length_bound n (without n ids) (are_axes-without n ids h u) (are_unique-without n ids u),
)

is_unique_absent : (k : ℕ) (ids : List ℤ) → has_axis k ids ≡ false → is_unique (pos k) ids ≡ true
is_unique_absent k [] h = refl
is_unique_absent k (id ∷ ids) h = let ih = is_unique_absent k ids (ground arith) in ground arith

-- An order of `n` different axes below `n` has each of them.
pub has_axis_all :
    (n : ℕ) (ids : List ℤ) (k : ℕ)
    → are_axes n ids ≡ true
    → are_unique ids ≡ true
    → length ids ≡ n
    → k < n
    → has_axis k ids ≡ true
has_axis_all n ids k axes unique full below = elim (Bool-cases (has_axis k ids)) [
  | inl here ↦ here
  | inr gone ↦
      (let u = is_unique_absent k ids gone in
        let b = length_bound n (pos k ∷ ids) (ground arith) (ground arith) in absurd (omega arith))
]
