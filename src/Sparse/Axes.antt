-- ===== src/Sparse/Axes.antt =====
-- base/NUtils.cxx: the axes that `ReshapeSparseAxes` gives to the new histogram, and the
-- coordinates.
use ndmspc.Base.Int.{ℤ, pos, pos_part, ltb_ℤ}
use ndmspc.Base.{
  ℕ, zero, suc, ◌+◌, ◌-◌, ◌≤◌, ◌<◌, ◌≡◌, refl, ap, ◌∙◌, true, List, [], ◌∷◌, ◌++◌, map, Option,
  some, length, length-append, get_elem?, get_or, arith, if_cases,
}
use ndmspc.Sparse.Defs.{is_axis, are_axes, axis_at, put, ordered, coordinate, moved}

module _ {A : Type 0} where
  get_elem?-below :
      (xs ys : List A) (i : ℕ) → i < length xs → get_elem? xs i ≡ get_elem? (xs ++ ys) i
  get_elem?-below [] ys i h = absurd (omega arith)
  get_elem?-below (x ∷ xs) ys zero h = refl
  get_elem?-below (x ∷ xs) ys (suc i) h = get_elem?-below xs ys i (omega arith)

  get_elem?-above :
      (xs ys : List A) (i : ℕ)
      → length xs ≤ i
      → get_elem? ys (i - length xs) ≡ get_elem? (xs ++ ys) i
  get_elem?-above [] ys i h = ap (get_elem? ys) (omega arith)
  get_elem?-above (x ∷ xs) ys zero h = absurd (omega arith)
  get_elem?-above (x ∷ xs) ys (suc i) h =
      ap (get_elem? ys) (omega arith) ∙ get_elem?-above xs ys i (omega arith)

  get_or-below :
      (xs ys : List A) (i : ℕ) (d : A) → i < length xs → get_or xs i d ≡ get_or (xs ++ ys) i d
  get_or-below [] ys i d h = absurd (omega arith)
  get_or-below (x ∷ xs) ys zero d h = refl
  get_or-below (x ∷ xs) ys (suc i) d h = get_or-below xs ys i d (omega arith)

  get_or-above :
      (xs ys : List A) (i : ℕ) (d : A)
      → length xs ≤ i
      → get_or ys (i - length xs) d ≡ get_or (xs ++ ys) i d
  get_or-above [] ys i d h = ap (λ j. get_or ys j d) (omega arith)
  get_or-above (x ∷ xs) ys zero d h = absurd (omega arith)
  get_or-above (x ∷ xs) ys (suc i) d h =
      ap (λ j. get_or ys j d) (omega arith) ∙ get_or-above xs ys i d (omega arith)

  get_elem?-some : (xs : List A) (i : ℕ) → i < length xs → (x : A) × (get_elem? xs i ≡ some x)
  get_elem?-some [] i h = absurd (omega arith)
  get_elem?-some (x ∷ xs) zero h = (x, refl)
  get_elem?-some (x ∷ xs) (suc i) h = get_elem?-some xs i (omega arith)

  -- The element of these axes, the old ones and then the new ones, on each place of the order.
  abbrev pub at_all : List A → List ℤ → List (Option A)
  at_all axes ids = map (λ id. get_elem? axes (pos_part id)) ids

  axis_at-append :
      (axes new_axes : List A) (id : ℤ) (n : ℕ)
      → is_axis n id ≡ true
      → axis_at axes new_axes id ≡ get_elem? (axes ++ new_axes) (pos_part id)
  axis_at-append axes new_axes id n h =
      if_cases (λ o. o ≡ get_elem? (axes ++ new_axes) (pos_part id)) (ltb_ℤ id (pos (length axes)))
        (λ y. get_elem?-below axes new_axes (pos_part id) (ground arith))
        (λ n'. get_elem?-above axes new_axes (pos_part id) (ground arith))

  pub ordered-at_all :
      (axes new_axes : List A) (ids : List ℤ)
      → are_axes (length axes + length new_axes) ids ≡ true
      → map some (ordered axes new_axes ids) ≡ at_all (axes ++ new_axes) ids
  unfolding ordered
  ordered-at_all axes new_axes [] h = refl
  ordered-at_all axes new_axes (id ∷ ids) h =
      let n = length axes + length new_axes in
      let own : is_axis n id ≡ true = ground arith in
      let all = axes ++ new_axes in
      let found = get_elem?-some all (pos_part id) (ground (arith, length-append axes new_axes)) in
      let here = axis_at-append axes new_axes id n own in
      let ih = ordered-at_all axes new_axes ids (ground arith) in
      ap (λ o. map some (put o (ordered axes new_axes ids))) (here ∙ found.1)
      ∙ rw (found.1, ih) refl

-- The coordinates of a point, and then those of the new point, on each place of the order.
abbrev pub coordinates_at : List ℤ → List ℤ → List ℤ
coordinates_at p ids = map (λ id. get_or p (pos_part id) (pos 0)) ids

pub moved-coordinates_at :
    (n : ℕ) (p new_point ids : List ℤ)
    → are_axes n ids ≡ true
    → moved (length p) ids new_point p ≡ coordinates_at (p ++ new_point) ids
unfolding moved
moved-coordinates_at n p new_point [] h = refl
moved-coordinates_at n p new_point (id ∷ ids) h =
    let own : is_axis n id ≡ true = ground arith in
    let here : coordinate (length p) p new_point id
        ≡ get_or (p ++ new_point) (pos_part id) (pos 0) =
      if_cases (λ c. c ≡ get_or (p ++ new_point) (pos_part id) (pos 0)) (ltb_ℤ id (pos (length p)))
        (λ y. get_or-below p new_point (pos_part id) (pos 0) (ground arith))
        (λ n'. get_or-above p new_point (pos_part id) (pos 0) (ground arith)) in
    rw (here, moved-coordinates_at n p new_point ids (ground arith)) refl
