-- ===== src/Tests/Reshaping.antt =====
-- base/NUtils.cxx: a histogram with two axes and two filled bins, which gets a new axis in front.
use ndmspc.Base.Int.{ℤ, pos}
use ndmspc.Base.{ℕ, ◌≡◌, refl, ap, true, List, [], ◌∷◌, is_some, some, arith, ◌⊎◌, ◌↔◌}
use ndmspc.Sparse.Defs.{Sparse, checked, is_empty, reshape_sparse_axes}
use ndmspc.Sparse.Orders.{IsArrangement, IsFitting, reshape_sparse_axes-accepts}
use ndmspc.Sparse.Points.{AreApart, IsReshaped, points, reshape_sparse_axes-IsReshaped}

-- An axis is its number of bins, a content a number.
abbrev hns : Sparse ℕ ℕ
hns = record {
  axes = 4 ∷ 5 ∷ [];
  bins = (pos 1 ∷ pos 2 ∷ [], 8) ∷ (pos 2 ∷ pos 2 ∷ [], 9) ∷ [];
  entries = 17;
}

abbrev order : List ℤ
order = pos 2 ∷ pos 1 ∷ pos 0 ∷ []

abbrev new_axes : List ℕ
new_axes = 6 ∷ []

abbrev new_point : List ℤ
new_point = pos 3 ∷ []

taken : is_some (reshape_sparse_axes hns order new_axes new_point) ≡ true
unfolding reshape_sparse_axes checked
taken = refl

hns-AreApart : AreApart (points hns)
hns-AreApart = ((λ e. absurd (ground (arith, ap second e)), tt), (tt, tt))
  where
    second : List ℤ → ℤ
    second [] = pos 0
    second (x ∷ xs) = x

reshape_sparse_axes-accepts_example :
    (is_some (reshape_sparse_axes hns order new_axes new_point) ≡ true)
    ↔ (IsFitting new_axes new_point × ((is_empty order ≡ true) ⊎ IsArrangement 3 order))
reshape_sparse_axes-accepts_example = reshape_sparse_axes-accepts hns order new_axes new_point

reshape_sparse_axes-IsReshaped_example :
    (t : Sparse ℕ ℕ) × (reshape_sparse_axes hns order new_axes new_point ≡ some t)
    × IsReshaped hns order new_axes new_point t
reshape_sparse_axes-IsReshaped_example =
    reshape_sparse_axes-IsReshaped hns order new_axes new_point taken (refl, (refl, tt))
      hns-AreApart
