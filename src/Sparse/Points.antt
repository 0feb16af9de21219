-- ===== src/Sparse/Points.antt =====
-- base/NUtils.cxx: where `ReshapeSparseAxes` puts the bins.
use mathlib.Core.List.{head-eq_of_cons-eq, tail-eq_of_cons-eq}
use ndmspc.Base.Int.{ℤ, pos, eqb_ℤ, eq_of_parts}
use ndmspc.Base.{
  ℕ, suc, ◌+◌, ◌≤◌, ◌<◌, ◌≡◌, refl, ap, sym, ◌∙◌, subst, if◌then◌else◌, true, List, [], ◌∷◌, map,
  some, is_some, length, get_or, arith, All, Bool-cases, inl, inr, ◌++◌,
}
use ndmspc.Sparse.Arranged.{has_axis}
use ndmspc.Sparse.Orders.{IsArrangement, arrangement_passes, checked-accepts}
use ndmspc.Sparse.Axes.{at_all, ordered-at_all, coordinates_at, moved-coordinates_at}
use ndmspc.Sparse.Defs.{
  Sparse, is_empty, used_order, coordinate, moved, reshaped, checked, reshape_sparse_axes, are_axes,
}

map-has_axis :
    (f g : ℤ → ℤ) (ids : List ℤ) (k : ℕ)
    → map f ids ≡ map g ids
    → has_axis k ids ≡ true
    → f (pos k) ≡ g (pos k)
map-has_axis f g [] k same h = absurd (ground arith)
map-has_axis f g (id ∷ ids) k same h = elim (Bool-cases (eqb_ℤ id (pos k))) [
  | inl here ↦
      subst (λ i. f i ≡ g i) (eq_of_parts id (pos k) (ground arith)) (head-eq_of_cons-eq same)
  | inr other ↦ map-has_axis f g ids k (tail-eq_of_cons-eq same) (ground arith)
]

coordinates_same :
    (p q : List ℤ)
    → length p ≡ length q
    → ((k : ℕ) → k < length p → get_or p k (pos 0) ≡ get_or q k (pos 0))
    → p ≡ q
coordinates_same [] [] e h = refl
coordinates_same [] (y ∷ q) e h = absurd (omega arith)
coordinates_same (x ∷ p) [] e h = absurd (omega arith)
coordinates_same (x ∷ p) (y ∷ q) e h =
    let head = h 0 (omega arith) in
    let rest = coordinates_same p q (omega arith) (λ k b. h (suc k) (omega arith)) in
    rw (head, rest) refl

coordinate_own :
    (dims k : ℕ) (p new_point : List ℤ)
    → k < dims
    → coordinate dims p new_point (pos k) ≡ get_or p k (pos 0)
coordinate_own dims k p new_point b = ground arith

-- With an order that has every axis, different points go to different points.
moved_apart :
    (dims n : ℕ) (order new_point : List ℤ)
    → dims ≤ n
    → IsArrangement n order
    → (p q : List ℤ) → length p ≡ dims
    → length q ≡ dims
    → moved dims order new_point p ≡ moved dims order new_point q
    → p ≡ q
unfolding moved
moved_apart dims n order new_point fits arranged p q hp hq same =
    coordinates_same p q (omega arith) (λ k b.
      sym (coordinate_own dims k p new_point (omega arith))
      ∙ map-has_axis (coordinate dims p new_point) (coordinate dims q new_point) order k same
          (arranged.1 k (omega arith))
      ∙ coordinate_own dims k q new_point (omega arith))

module _ {A : Type 0} where
  -- No element is there twice.
  abbrev pub AreApart : List A → Type 0
  AreApart [] = Unit
  AreApart (x ∷ xs) = All (λ y. ¬ (x ≡ y)) xs × AreApart xs

module _ {V : Type 0} where
  abbrev point_of : List ℤ × V → List ℤ
  point_of (p, v) = p

  abbrev content_of : List ℤ × V → V
  content_of (p, v) = v

  abbrev sent : (List ℤ → List ℤ) → List ℤ × V → List ℤ × V
  sent f b = (f b.0, b.1)

module _ {V : Type 0} (f : List ℤ → List ℤ) (d : ℕ)
    (apart : (p q : List ℤ) → length p ≡ d → length q ≡ d → f p ≡ f q → p ≡ q) where
  map-apart_from :
      (p : List ℤ) (bins : List (List ℤ × V))
      → length p ≡ d
      → All (λ b. length b.0 ≡ d) bins
      → All (λ q. ¬ (p ≡ q)) (map point_of bins)
      → All (λ q. ¬ (f p ≡ q)) (map point_of (map (sent f) bins))
  map-apart_from p [] hp hb h = tt
  map-apart_from p (b ∷ bins) hp hb h =
      (λ e. h.0 (apart p b.0 hp hb.0 e), map-apart_from p bins hp hb.1 h.1)

  map-AreApart :
      (bins : List (List ℤ × V))
      → All (λ b. length b.0 ≡ d) bins
      → AreApart (map point_of bins)
      → AreApart (map point_of (map (sent f) bins))
  map-AreApart [] hb h = tt
  map-AreApart (b ∷ bins) hb h = (map-apart_from b.0 bins hb.0 hb.1 h.0, map-AreApart bins hb.1 h.1)

module _ {V : Type 0} where
  -- A bin at the coordinates that the order takes from its own and then from the new point.
  abbrev pub placed : List ℤ → List ℤ → List ℤ × V → List ℤ × V
  placed new_point ids b = (coordinates_at (b.0 ++ new_point) ids, b.1)

  sent-placed :
      (dims n : ℕ) (ids new_point : List ℤ) (bins : List (List ℤ × V))
      → are_axes n ids ≡ true
      → All (λ b. length b.0 ≡ dims) bins
      → map (sent (moved dims ids new_point)) bins ≡ map (placed new_point ids) bins
  sent-placed dims n ids new_point [] axes sized = refl
  sent-placed dims n ids new_point (b ∷ bins) axes sized =
      let here =
        ap (λ d. moved d ids new_point b.0) (sym sized.0)
        ∙ moved-coordinates_at n b.0 new_point ids axes in
      ap (λ p. (p, b.1) ∷ map (sent (moved dims ids new_point)) bins) here
      ∙ ap (◌∷◌ (placed new_point ids b)) (sent-placed dims n ids new_point bins axes sized.1)

module _ {A V : Type 0} where
  abbrev pub points : Sparse A V → List (List ℤ)
  points h = map point_of h.bins

  checked-reshaped :
      (h : Sparse A V) (ids : List ℤ) (new_axes : List A) (new_point : List ℤ)
      → is_some (checked h ids new_axes new_point) ≡ true
      → checked h ids new_axes new_point ≡ some (reshaped h ids new_axes new_point)
  unfolding checked
  checked-reshaped h ids new_axes new_point e = ground arith

  -- The histogram that an order makes of the axes, the old ones and then the new ones, and of the
  -- bins.
  abbrev pub IsReshaped : Sparse A V → List ℤ → List A → List ℤ → Sparse A V → Type 0
  IsReshaped h ids new_axes new_point t =
      AreApart (points t)
      × (t.bins ≡ (if is_empty new_point then [] else map (placed new_point ids) h.bins))
      × (map some t.axes ≡ at_all (h.axes ++ new_axes) ids)

  reshaped-IsReshaped :
      (h : Sparse A V) (ids : List ℤ) (new_axes : List A) (new_point : List ℤ)
      → IsArrangement (length h.axes + length new_axes) ids
      → All (λ b. length b.0 ≡ length h.axes) h.bins
      → AreApart (points h)
      → IsReshaped h ids new_axes new_point (reshaped h ids new_axes new_point)
  unfolding reshaped
  reshaped-IsReshaped h ids new_axes [] arranged sized apart =
      let n = length h.axes + length new_axes in
      (tt, refl, ordered-at_all h.axes new_axes ids (arrangement_passes n ids arranged).0)
  reshaped-IsReshaped h ids new_axes (x ∷ new_point) arranged sized apart =
      let n = length h.axes + length new_axes in
      let axes = (arrangement_passes n ids arranged).0 in
      let f = moved (length h.axes) ids (x ∷ new_point) in
      let inj : (p q : List ℤ)
          → length p ≡ length h.axes
          → length q ≡ length h.axes
          → f p ≡ f q
          → p ≡ q =
        moved_apart (length h.axes) n ids (x ∷ new_point) (omega arith) arranged in
      (
        map-AreApart f (length h.axes) inj h.bins sized apart,
        sent-placed (length h.axes) n ids (x ∷ new_point) h.bins axes sized,
        ordered-at_all h.axes new_axes ids axes,
      )

  -- If `ReshapeSparseAxes` returns a histogram, and the bins of the one that it was given have a
  -- coordinate for each axis and are at different points, then the new one has as its axes those of
  -- the order, out of the old ones and then the new ones. Its bins are the old ones in the same
  -- order with the same contents, each at the coordinates of the order, out of its own and then
  -- those of the new point, and are at different points, too, but with an empty new point there are
  -- no bins.
  pub reshape_sparse_axes-IsReshaped :
      (h : Sparse A V) (order : List ℤ) (new_axes : List A) (new_point : List ℤ)
      → is_some (reshape_sparse_axes h order new_axes new_point) ≡ true
      → All (λ b. length b.0 ≡ length h.axes) h.bins
      → AreApart (points h)
      → (t : Sparse A V) × (reshape_sparse_axes h order new_axes new_point ≡ some t)
        × IsReshaped h (used_order order (length h.axes + length new_axes)) new_axes new_point t
  unfolding reshape_sparse_axes
  reshape_sparse_axes-IsReshaped h order new_axes new_point accepted sized apart =
      let ids = used_order order (length h.axes + length new_axes) in
      let arranged = ((checked-accepts h ids new_axes new_point).0 accepted).1 in
      (
        reshaped h ids new_axes new_point,
        checked-reshaped h ids new_axes new_point accepted,
        reshaped-IsReshaped h ids new_axes new_point arranged sized apart,
      )
