-- ===== src/Binning/Tiling.antt =====
-- core/NBinning.cxx: what the bins of `AddBinningVariable` cover of the axis, read by
-- `GetAxisRangeInBase` of base/NUtils.cxx.
use native.Mathlib.Nat.{div-eq-sub-div, div-add-mod}
use ndmspc.Base.Int.{ℤ, pos, negsuc, ltb_ℤ, ◌-ℤ◌, ◌/ℤ◌, ◌%ℤ◌, pos-add, pos-sub, pos-mul}
use ndmspc.Base.{
  ℕ, ◌+◌, ◌*◌, ◌-◌, ◌/◌, ◌%◌, ◌<◌, ◌≤◌, ◌≡◌, refl, Option, some, List, [], ◌∷◌, arith, ap, ◌∙◌,
  Bool-cases, inl, inr, ◌==◌, true, false, ==_iff, ◌||◌, subst, map, if_cases,
}
use ndmspc.Binning.Defs.{
  Bin, variable_binning, first_point, add_binning, add_points, consecutive, add_segments,
  add_binning_variable, Added, join_added, is_valid_id,
}
use ndmspc.Binning.Ranges.{range_in_base}

add-sub : (a b : ℕ) → a + b - b ≡ a
add-sub a b = omega arith

add-sub_left : (a b : ℕ) → a + b - a ≡ b
add-sub_left a b = omega arith

add-sub_of_le : (a b : ℕ) → a ≤ b → a + (b - a) ≡ b
add-sub_of_le a b h = omega arith

div-add_self : (a r : ℕ) → 0 < r → (a + r) / r ≡ a / r + 1
div-add_self a r h =
    div-eq-sub-div {m = r} {n = a + r} h (omega arith) ∙ ap (λ n. n / r + 1) (add-sub a r)

-- The range of a bin whose numbers are natural.
pub range-pos :
    (nbins rebin start bin : ℕ)
    → 1 ≤ rebin
    → 1 ≤ rebin * bin + start
    → rebin * bin + start + rebin ≤ nbins + 1
    → range_in_base nbins (pos rebin) (pos start) (pos (bin + 1))
      ≡ some (pos (rebin * bin + start), pos (rebin * bin + start + rebin - 1))
unfolding range_in_base
range-pos nbins rebin start bin h l u =
    rw
      (
        pos-sub (bin + 1) 1 (omega arith),
        add-sub bin 1,
        pos-mul rebin bin,
        pos-add (rebin * bin) start,
        pos-add (rebin * bin + start) rebin,
        pos-sub (rebin * bin + start + rebin) 1 (omega arith),
      )
      (ground arith)

-- The three numbers of the binning of the bins from `a` up to and without `a + r`.
pub variable_binning_parts :
    (a r : ℕ)
    → 1 ≤ a
    → 1 ≤ r
    → (s : ℕ) × (q : ℕ) × (variable_binning (pos a) (pos (a + r))
        ≡ pos r ∷ pos s ∷ pos (q + 1) ∷ [])
      × (r * q + s ≡ a)
unfolding variable_binning ◌/ℤ◌ ◌%ℤ◌
variable_binning_parts a r h1 h2 =
    rw (pos-sub (a + r) a (omega arith), add-sub_left a r, div-add_self a r h2)
      (elim (Bool-cases (r == 1)) [
        | inl one ↦ (1, a - 1, ground arith, rw ((==_iff r 1).0 one) (omega arith))
        | inr more ↦ (a % r, a / r, ground arith, div-add-mod a r)
      ])

abbrev pub range_of : ℕ → Bin → Option (ℤ × ℤ)
range_of nbins b = range_in_base nbins b.rebin b.start b.bin

-- The bins are of the axis `id` and cover, one after the other and with no gap, what is from `low`
-- on.
abbrev pub IsTiling : ℕ → ℕ → ℕ → List Bin → Type 0
IsTiling nbins id low [] = Unit
IsTiling nbins id low (b ∷ bs) =
    (high : ℕ) × (b.dim ≡ id)
    × (range_of nbins b ≡ some (pos low, pos high))
    × (low ≤ high)
    × (high ≤ nbins)
    × IsTiling nbins id (high + 1) bs

add_segment_by :
    (axes nbins id a r : ℕ)
    → is_valid_id axes id ≡ true
    → 1 ≤ a
    → 1 ≤ r
    → a + r ≤ nbins + 1
    → (b : Bin) × (add_binning axes id (variable_binning (pos a) (pos (a + r))) 1
        ≡ some (true, b ∷ []))
      × (b.dim ≡ id)
      × (range_of nbins b ≡ some (pos a, pos (a + r - 1)))
unfolding add_binning add_points first_point consecutive
add_segment_by axes nbins id a r v h1 h2 h3 =
    let (s, q, e, p) = variable_binning_parts a r h1 h2 in
    (
      record { dim = id; rebin = pos r; start = pos s; bin = pos (q + 1) },
      rw e (ground arith),
      refl,
      range-pos nbins r s q h2 (omega (arith, p)) (omega (arith, p))
          ∙ ap (λ n. some (pos n, pos (n + r - 1))) p,
    )

-- What is asked of the next bound.
abbrev pub IsNextBound : ℕ → ℕ → ℕ → Type 0
IsNextBound nbins low high = (1 ≤ low) × (low < high) × (high ≤ nbins + 1)

-- One segment adds one bin.
pub add_segment :
    (axes nbins id low high : ℕ)
    → is_valid_id axes id ≡ true
    → IsNextBound nbins low high
    → (b : Bin) × (add_binning axes id (variable_binning (pos low) (pos high)) 1
        ≡ some (true, b ∷ []))
      × (b.dim ≡ id)
      × (range_of nbins b ≡ some (pos low, pos (high - 1)))
add_segment axes nbins id low high v (h, b, u) =
    subst
      (λ n.
        (b : Bin) × (add_binning axes id (variable_binning (pos low) (pos n)) 1
          ≡ some (true, b ∷ []))
        × (b.dim ≡ id)
        × (range_of nbins b ≡ some (pos low, pos (n - 1))))
      (add-sub_of_le low high (omega arith))
      (add_segment_by axes nbins id low (high - low) v h (omega arith) (omega arith))

-- The loop on a bound behind `low` that is on the axis or next to it.
pub add_segments_step :
    (axes nbins id low high : ℕ) (mins : List ℤ)
    → IsNextBound nbins low high
    → add_segments axes nbins id (pos low) (pos high ∷ mins)
      ≡ join_added
          (add_binning axes id (variable_binning (pos low) (pos high)) 1)
          (add_segments axes nbins id (pos high) mins)
unfolding add_segments
add_segments_step axes nbins id low high mins (h, b, u) =
    rw (pos-sub high low (omega arith)) (ground arith)

-- The result of the loop, if it ends with one, and the ranges of the bins.
abbrev Tiles : ℕ → ℕ → ℕ → Option Added → Type 0
Tiles nbins id low o = (r : Added) × (o ≡ some r) × IsTiling nbins id low r.1

join-Tiles :
    (axes nbins id low high : ℕ)
    → is_valid_id axes id ≡ true
    → IsNextBound nbins low high
    → (o : Option Added) → Tiles nbins id high o
    → Tiles nbins id low
        (join_added (add_binning axes id (variable_binning (pos low) (pos high)) 1) o)
join-Tiles axes nbins id low high v (h, b, u) o (q, e, t) =
    let (bin, f, d, g) = add_segment axes nbins id low high v (h, b, u) in
    rw (f, e)
      (
        (q.0, bin ∷ q.1),
        refl,
        (
          high - 1,
          d,
          g,
          omega arith,
          omega arith,
          subst (λ n. IsTiling nbins id n q.1) (omega arith) t,
        ),
      )

add_segments-Tiles :
    (axes nbins id low : ℕ) (mins : List ℤ)
    → is_valid_id axes id ≡ true
    → 1 ≤ low
    → Tiles nbins id low (add_segments axes nbins id (pos low) mins)
unfolding add_segments ◌-ℤ◌
add_segments-Tiles axes nbins id low [] v h = ((true, []), refl, tt)
add_segments-Tiles axes nbins id low (negsuc n ∷ mins) v h = ((true, []), ground arith, tt)
add_segments-Tiles axes nbins id low (pos high ∷ mins) v h =
    if_cases (Tiles nbins id low) (ltb_ℤ (pos high) (pos 1) || ltb_ℤ (pos (nbins + 1)) (pos high))
      (λ e. ((true, []), refl, tt))
      (λ inside.
        if_cases (Tiles nbins id low) (ltb_ℤ (pos high -ℤ pos low) (pos 1))
          (λ e. ((false, []), refl, tt))
          (λ behind.
            join-Tiles axes nbins id low high v (h, ground arith, ground arith) _
              (add_segments-Tiles axes nbins id high mins v (ground arith))))

-- With a first bound of at least 1, `AddBinningVariable` returns whatever the other bounds are, and
-- what it adds are bins of the axis `id` that cover the bins of the axis from the first bound on
-- one after the other, each from a bin of the axis to one not before it, with no gap and no
-- overlap.
pub add_binning_variable-IsTiling :
    (axes nbins id low : ℕ) (mins : List ℤ)
    → 1 ≤ low
    → (r : Added) × (add_binning_variable axes nbins id (pos low ∷ mins) ≡ some r)
      × IsTiling nbins id low r.1
unfolding add_binning_variable
add_binning_variable-IsTiling axes nbins id low mins h = elim (Bool-cases (is_valid_id axes id)) [
  | inl v ↦ rw v (add_segments-Tiles axes nbins id low mins v h)
  | inr v ↦ rw v ((false, []), refl, tt)
]

-- The bounds increase from `low` on and end on the axis or next to it.
abbrev pub IsIncreasing : ℕ → ℕ → List ℕ → Type 0
IsIncreasing nbins low [] = Unit
IsIncreasing nbins low (high ∷ mins) =
    (low < high) × (high ≤ nbins + 1) × IsIncreasing nbins high mins

-- From each bound up to and without the next one.
abbrev pub segments : ℕ → List ℕ → List (Option (ℤ × ℤ))
segments low [] = []
segments low (high ∷ mins) = some (pos low, pos (high - 1)) ∷ segments high mins

-- The loop ends with true, and the bins have these ranges.
abbrev pub Covers : ℕ → List (Option (ℤ × ℤ)) → Option Added → Type 0
Covers nbins ranges o =
    (bins : List Bin) × (o ≡ some (true, bins)) × (map (range_of nbins) bins ≡ ranges)

pub add_segments-Covers :
    (axes nbins id low high : ℕ) (mins : List ℤ) (ranges : List (Option (ℤ × ℤ)))
    → is_valid_id axes id ≡ true
    → IsNextBound nbins low high
    → Covers nbins ranges (add_segments axes nbins id (pos high) mins)
    → Covers nbins
        (some (pos low, pos (high - 1)) ∷ ranges)
        (add_segments axes nbins id (pos low) (pos high ∷ mins))
add_segments-Covers axes nbins id low high mins ranges v n (bins, e, c) =
    let (bin, f, d, g) = add_segment axes nbins id low high v n in
    (bin ∷ bins, add_segments_step axes nbins id low high mins n ∙ rw (f, e) refl, rw (g, c) refl)

add_segments-segments :
    (axes nbins id low : ℕ) (mins : List ℕ)
    → is_valid_id axes id ≡ true
    → 1 ≤ low
    → IsIncreasing nbins low mins
    → Covers nbins (segments low mins) (add_segments axes nbins id (pos low) (map pos mins))
add_segments-segments axes nbins id low [] v h i = ([], unfold add_segments in refl, refl)
add_segments-segments axes nbins id low (high ∷ mins) v h (b, u, i) =
    add_segments-Covers axes nbins id low high (map pos mins) (segments high mins) v (h, b, u)
      (add_segments-segments axes nbins id high mins v (omega arith) i)

-- If the axis has the id, the bounds increase from 1 or more on and the last one is at most one
-- behind the axis, `AddBinningVariable` returns true, and the bins that it adds are, in this order,
-- from each bound up to and without the next one.
pub add_binning_variable-segments :
    (axes nbins id low : ℕ) (mins : List ℕ)
    → is_valid_id axes id ≡ true
    → 1 ≤ low
    → IsIncreasing nbins low mins
    → (bins : List Bin) × (add_binning_variable axes nbins id (map pos (low ∷ mins))
        ≡ some (true, bins))
      × (map (range_of nbins) bins ≡ segments low mins)
unfolding add_binning_variable
add_binning_variable-segments axes nbins id low mins v h i =
    rw v (add_segments-segments axes nbins id low mins v h i)
