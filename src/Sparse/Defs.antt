-- ===== src/Sparse/Defs.antt =====
-- base/NUtils.cxx: `ReshapeSparseAxes`. A histogram of ROOT is its axes, its filled bins, each with
-- a coordinate for every axis and its content, and its number of entries. What the code copies of
-- an axis is one value.
use ndmspc.Base.Int.{ℤ, pos, pos_part, ltb_ℤ, leb_ℤ, eqb_ℤ}
use ndmspc.Base.{
  ℕ, zero, suc, ◌+◌, ◌-◌, ◌==◌, if◌then◌else◌, Bool, true, false, ◌&&◌, ◌||◌, not, List, [], ◌∷◌,
  map, Option, none, some, length, get_elem?, get_or,
}

pub record Sparse (A V : Type 0) : Type 0 where
  pub axes : List A
  pub bins : List (List ℤ × V)
  pub entries : ℕ

module _ {A : Type 0} where
  abbrev pub is_empty : List A → Bool
  is_empty [] = true
  is_empty (x ∷ xs) = false

-- The numbers from `i` on, `n` of them.
abbrev pub count_up : ℕ → ℕ → List ℤ
count_up i zero = []
count_up i (suc n) = pos i ∷ count_up (suc i) n

abbrev pub used_order : List ℤ → ℕ → List ℤ
used_order order n = if is_empty order then count_up 0 n else order

abbrev pub is_axis : ℕ → ℤ → Bool
is_axis n id = not (ltb_ℤ id (pos 0) || leb_ℤ (pos n) id)

abbrev pub are_axes : ℕ → List ℤ → Bool
are_axes n [] = true
are_axes n (id ∷ ids) = is_axis n id && are_axes n ids

-- The inner loop over `j`.
abbrev pub is_unique : ℤ → List ℤ → Bool
is_unique id [] = true
is_unique id (other ∷ ids) = not (eqb_ℤ id other) && is_unique id ids

abbrev pub are_unique : List ℤ → Bool
are_unique [] = true
are_unique (id ∷ ids) = is_unique id ids && are_unique ids

-- The coordinate of a bin on the axis `id`, of `dims` axes before the new ones.
abbrev pub coordinate : ℕ → List ℤ → List ℤ → ℤ → ℤ
coordinate dims p new_point id =
    if ltb_ℤ id (pos dims)
    then get_or p (pos_part id) (pos 0)
    else get_or new_point (pos_part id - dims) (pos 0)

-- `pNew`
unfoldable pub moved : ℕ → List ℤ → List ℤ → List ℤ → List ℤ
moved dims order new_point p = map (λ id. coordinate dims p new_point id) order

module _ {A : Type 0} where
  abbrev pub axis_at : List A → List A → ℤ → Option A
  axis_at axes new_axes id =
      if ltb_ℤ id (pos (length axes))
      then get_elem? axes (pos_part id)
      else get_elem? new_axes (pos_part id - length axes)

  abbrev pub put : Option A → List A → List A
  put none rest = rest
  put (some a) rest = a ∷ rest

  -- The axes in this order.
  unfoldable pub ordered : List A → List A → List ℤ → List A
  ordered axes new_axes [] = []
  ordered axes new_axes (id ∷ ids) = put (axis_at axes new_axes id) (ordered axes new_axes ids)

module _ {A V : Type 0} where
  -- The histogram behind the checks.
  unfoldable pub reshaped : Sparse A V → List ℤ → List A → List ℤ → Sparse A V
  reshaped h order new_axes new_point = record {
    axes = ordered h.axes new_axes order;
    bins =
        if is_empty new_point
        then []
        else map (λ b. (moved (length h.axes) order new_point b.0, b.1)) h.bins;
    entries = if is_empty new_point || is_empty h.bins then 0 else h.entries;
  }

  unfoldable pub checked : Sparse A V → List ℤ → List A → List ℤ → Option (Sparse A V)
  checked h order new_axes new_point =
      let n = length h.axes + length new_axes in
      if not (length order == n)
      then none
      else if not (is_empty new_point) && not (length new_axes == length new_point)
      then none
      else if not (are_axes n order)
      then none
      else if not (are_unique order)
      then none
      else some (reshaped h order new_axes new_point)

  -- `ReshapeSparseAxes` of a histogram that is there.
  unfoldable pub reshape_sparse_axes : Sparse A V → List ℤ → List A → List ℤ → Option (Sparse A V)
  reshape_sparse_axes h order new_axes new_point =
      checked h (used_order order (length h.axes + length new_axes)) new_axes new_point
