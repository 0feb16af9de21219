-- ===== src/Sparse/Orders.antt =====
-- base/NUtils.cxx: the orders that `ReshapeSparseAxes` takes.
use ndmspc.Base.Int.{ℤ, pos, eqb_ℤ}
use ndmspc.Base.{
  ℕ, zero, suc, ◌+◌, ◌==◌, ◌≤◌, ◌<◌, ◌≡◌, refl, ap, sym, ◌∙◌, Bool, true, false, ◌&&◌, ◌||◌, List,
  [], ◌∷◌, is_some, length, arith, Bool-cases, inl, inr, ◌⊎◌, ◌↔◌,
}
use ndmspc.Sparse.Arranged.{has_axis, has_axis_all, without}
use ndmspc.Sparse.Defs.{
  Sparse, is_empty, count_up, are_axes, is_unique, are_unique, checked, reshape_sparse_axes,
}

-- As many as there are axes, and each of them.
abbrev pub IsArrangement : ℕ → List ℤ → Type 0
IsArrangement n order = (length order ≡ n) × ((k : ℕ) → k < n → has_axis k order ≡ true)

length-without_has :
    (k : ℕ) (ids : List ℤ) → has_axis k ids ≡ true → suc (length (without k ids)) ≡ length ids
length-without_has k [] h = absurd (ground arith)
length-without_has k (id ∷ ids) h = elim (Bool-cases (eqb_ℤ id (pos k))) [
  | inl here ↦ rw here refl
  | inr other ↦ rw other (ap suc (length-without_has k ids (ground arith)))
]

has_axis-without :
    (k n : ℕ) (ids : List ℤ) → k < n → has_axis k ids ≡ true → has_axis k (without n ids) ≡ true
has_axis-without k n [] b h = h
has_axis-without k n (id ∷ ids) b h = elim (Bool-cases (has_axis k ids)) [
  | inl later ↦ (let ih = has_axis-without k n ids b later in ground arith)
  | inr gone ↦ ground arith
]

is_unique_below :
    (n : ℕ) (id : ℤ) (ids : List ℤ)
    → eqb_ℤ id (pos n) ≡ true
    → are_axes n ids ≡ true
    → is_unique id ids ≡ true
is_unique_below n id [] e h = refl
is_unique_below n id (x ∷ ids) e h =
    let ih = is_unique_below n id ids e (ground arith) in ground arith

is_unique_restored :
    (id : ℤ) (n : ℕ) (ids : List ℤ)
    → eqb_ℤ id (pos n) ≡ false
    → is_unique id (without n ids) ≡ true
    → is_unique id ids ≡ true
is_unique_restored id n [] e h = refl
is_unique_restored id n (x ∷ ids) e h = elim (Bool-cases (eqb_ℤ x (pos n))) [
  | inl here ↦ ground arith
  | inr other ↦ (let ih = is_unique_restored id n ids e (ground arith) in ground arith)
]

are_axes_above : (n : ℕ) (ids : List ℤ) → are_axes n ids ≡ true → are_axes (suc n) ids ≡ true
are_axes_above n [] h = refl
are_axes_above n (id ∷ ids) h = let ih = are_axes_above n ids (ground arith) in ground arith

restored :
    (n : ℕ) (ids : List ℤ)
    → are_axes n (without n ids) ≡ true
    → are_unique (without n ids) ≡ true
    → has_axis n ids ≡ true
    → (are_axes (suc n) ids ≡ true) × (are_unique ids ≡ true)
restored n [] axes unique h = (refl, refl)
restored n (id ∷ ids) axes unique h = elim (Bool-cases (eqb_ℤ id (pos n))) [
  | inl here ↦
      (let below : are_axes n ids ≡ true = ground arith in
        let above = are_axes_above n ids below in
        let one = is_unique_below n id ids here below in (ground arith, ground arith))
  | inr other ↦
      (let ih = restored n ids (ground arith) (ground arith) (ground arith) in
        let one = is_unique_restored id n ids other (ground arith) in (ground arith, ground arith))
]

pub arrangement_passes :
    (n : ℕ) (ids : List ℤ) → IsArrangement n ids → (are_axes n ids ≡ true) × (are_unique ids ≡ true)
arrangement_passes zero [] (full, all) = (refl, refl)
arrangement_passes zero (id ∷ ids) (full, all) = absurd (omega arith)
arrangement_passes (suc n) ids (full, all) =
    let here = all n (omega arith) in
    let rest = arrangement_passes n (without n ids) (
      omega (arith, length-without_has n ids here),
      λ k b. has_axis-without k n ids b (all k (omega arith)),
    ) in
    restored n ids rest.0 rest.1 here

length-count_up : (i n : ℕ) → length (count_up i n) ≡ n
length-count_up i zero = refl
length-count_up i (suc n) = ap suc (length-count_up (suc i) n)

has_axis-count_up : (i n k : ℕ) → i ≤ k → k < i + n → has_axis k (count_up i n) ≡ true
has_axis-count_up i zero k low high = absurd (omega arith)
has_axis-count_up i (suc n) k low high = elim (Bool-cases (i == k)) [
  | inl here ↦ ground arith
  | inr other ↦
      (let ih = has_axis-count_up (suc i) n k (ground arith) (omega arith) in ground arith)
]

module _ {A : Type 0} where
  -- The new point is empty, or has a coordinate for each new axis.
  abbrev pub IsFitting : List A → List ℤ → Type 0
  IsFitting new_axes new_point = (is_empty new_point ≡ true) ⊎ (length new_axes ≡ length new_point)

  abbrev is_fitting : List A → List ℤ → Bool
  is_fitting new_axes new_point = is_empty new_point || length new_axes == length new_point

  fitting :
      (new_axes : List A) (new_point : List ℤ)
      → IsFitting new_axes new_point ↔ (is_fitting new_axes new_point ≡ true)
  fitting new_axes new_point = (
    λ e. elim e [ inl none' ↦ ground arith | inr fits ↦ ground arith ],
    λ e. elim (Bool-cases (is_empty new_point)) [
      | inl none' ↦ inl none'
      | inr some' ↦ inr (ground arith)
    ],
  )

module _ {A V : Type 0} where
  checked-is_some :
      (h : Sparse A V) (ids : List ℤ) (new_axes : List A) (new_point : List ℤ)
      → is_some (checked h ids new_axes new_point) ≡ (
          (length ids == length h.axes + length new_axes)
          && is_fitting new_axes new_point
          && are_axes (length h.axes + length new_axes) ids
          && are_unique ids)
  unfolding checked
  checked-is_some h ids new_axes new_point = ground arith

  pub checked-accepts :
      (h : Sparse A V) (ids : List ℤ) (new_axes : List A) (new_point : List ℤ)
      → (is_some (checked h ids new_axes new_point) ≡ true)
        ↔ (IsFitting new_axes new_point × IsArrangement (length h.axes + length new_axes) ids)
  checked-accepts h ids new_axes new_point = (
    λ e.
        let n = length h.axes + length new_axes in
        let c = sym (checked-is_some h ids new_axes new_point) ∙ e in
        (
          (fitting new_axes new_point).1 (ground arith),
          (
            ground arith,
            λ k b. has_axis_all n ids k (ground arith) (ground arith) (ground arith) b,
          ),
        ),
    λ a.
        let p = arrangement_passes (length h.axes + length new_axes) ids a.1 in
        let f = (fitting new_axes new_point).0 a.0 in
        let full = a.1.0 in checked-is_some h ids new_axes new_point ∙ (ground (arith, a.1.0)),
  )

  -- `ReshapeSparseAxes` returns a histogram if and only if the new point is empty or has a
  -- coordinate for each new axis, and the order is empty or has as many elements as there are axes,
  -- old and new, and each of the axes among them.
  pub reshape_sparse_axes-accepts :
      (h : Sparse A V) (order : List ℤ) (new_axes : List A) (new_point : List ℤ)
      → (is_some (reshape_sparse_axes h order new_axes new_point) ≡ true) ↔ (
          IsFitting new_axes new_point
          × ((is_empty order ≡ true) ⊎ IsArrangement (length h.axes + length new_axes) order))
  unfolding reshape_sparse_axes
  reshape_sparse_axes-accepts h [] new_axes new_point =
      let n = length h.axes + length new_axes in
      let c = checked-accepts h (count_up 0 n) new_axes new_point in
      (
        λ e. ((c.0 e).0, inl refl),
        λ a. c.1 (
          a.0,
          (length-count_up 0 n, λ k b. has_axis-count_up 0 n k (omega arith) (omega arith)),
        ),
      )
  reshape_sparse_axes-accepts h (id ∷ ids) new_axes new_point =
      let c = checked-accepts h (id ∷ ids) new_axes new_point in
      (
        λ e. ((c.0 e).0, inr (c.0 e).1),
        λ a. c.1 (a.0, elim a.1 [ inl e ↦ absurd (ground arith) | inr r ↦ r ]),
      )
