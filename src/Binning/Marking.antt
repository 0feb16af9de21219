-- ===== src/Binning/Marking.antt =====
-- core/NBinning.cxx: the variable axes and `nTotalBins` of `FillAll`.
use native.Mathlib.Nat.{mul_assoc}
use ndmspc.Base.{
  ℕ, zero, suc, ◌+◌, ◌*◌, ◌<◌, ◌≤◌, ◌==◌, ◌||◌, ◌≡◌, refl, ap, ◌∙◌, Bool, true, false, List, [],
  sym, ◌∷◌, ◌++◌, if◌then◌else◌, length, arith, if_cases, subst, ℕ_discrete,
}
use ndmspc.Binning.Fill.{Content, holds, mark_axes}
use ndmspc.Binning.Product.{product}

-- Every axis has content.
abbrev pub is_full : Content → Bool
is_full [] = true
is_full ([] ∷ content) = false
is_full ((e ∷ es) ∷ content) = is_full content

holds-append : (axes : List ℕ) (i j : ℕ) → holds (axes ++ i ∷ []) j ≡ holds axes j || (i == j)
holds-append [] i j = ground arith
holds-append (k ∷ axes) i j = ground (arith, holds-append axes i j)

-- The axes after one with content.
abbrev mark : List ℕ → ℕ → List ℕ
mark axes i = if holds axes i then axes else axes ++ i ∷ []

mark_kept : (axes : List ℕ) (i j : ℕ) → holds axes j ≡ true → holds (mark axes i) j ≡ true
mark_kept axes i j h =
    if_cases (λ l. holds l j ≡ true) (holds axes i) (λ e. h)
      (λ e. ground (arith, holds-append axes i j, h))

mark_itself : (axes : List ℕ) (i : ℕ) → holds (mark axes i) i ≡ true
mark_itself axes i =
    if_cases (λ l. holds l i ≡ true) (holds axes i) (λ e. e)
      (λ e. ground (arith, holds-append axes i i, e))

-- The axes that were marked before stay marked, and those with content get marked.
mark_axes_kept :
    (i j : ℕ) (content : Content) (axes : List ℕ) (total : ℕ)
    → holds axes j ≡ true
    → holds (mark_axes i content axes total).0 j ≡ true
unfolding mark_axes
mark_axes_kept i j [] axes total h = h
mark_axes_kept i j ([] ∷ content) axes total h = mark_axes_kept (i + 1) j content axes total h
mark_axes_kept i j ((e ∷ es) ∷ content) axes total h =
    mark_axes_kept (i + 1) j content (mark axes i) _ (mark_kept axes i j h)

pub mark_axes_all :
    (i j : ℕ) (content : Content) (axes : List ℕ) (total : ℕ)
    → is_full content ≡ true
    → i ≤ j
    → j < i + length content
    → holds (mark_axes i content axes total).0 j ≡ true
unfolding mark_axes
mark_axes_all i j [] axes total f a b = absurd (omega (arith, a, b))
mark_axes_all i j ([] ∷ content) axes total f a b = absurd (ground (arith, f))
mark_axes_all i j ((e ∷ es) ∷ content) axes total f a b = elim (ℕ_discrete i j) [
  | yes here ↦
      subst
        (λ k. holds (mark_axes (i + 1) content (mark axes i) (total * length (e ∷ es))).0 k ≡ true)
        here (mark_axes_kept (i + 1) i content (mark axes i) _ (mark_itself axes i))
  | no later ↦ mark_axes_all (i + 1) j content (mark axes i) _ f (ground arith) (omega (arith, b))
]

pub mark_axes-product :
    (i : ℕ) (content : Content) (axes : List ℕ) (total : ℕ)
    → is_full content ≡ true
    → (mark_axes i content axes total).1 ≡ total * product content
unfolding mark_axes
mark_axes-product i [] axes total f = omega arith
mark_axes-product i ([] ∷ content) axes total f = absurd (ground (arith, f))
mark_axes-product i ((e ∷ es) ∷ content) axes total f =
    mark_axes-product (i + 1) content (mark axes i) (total * length (e ∷ es)) f
    ∙ mul_assoc total (length (e ∷ es)) (product content)

-- Whether this axis has entries.
abbrev pub is_filled : Content → ℕ → Bool
is_filled [] j = false
is_filled ([] ∷ content) zero = false
is_filled ((e ∷ es) ∷ content) zero = true
is_filled (es ∷ content) (suc j) = is_filled content j

holds-mark : (axes : List ℕ) (i j : ℕ) → holds (mark axes i) j ≡ holds axes j || (i == j)
holds-mark axes i j =
    if_cases (λ l. holds l j ≡ holds axes j || (i == j)) (holds axes i)
      (λ e. elim (ℕ_discrete i j) [
        | yes same ↦
            (let here : holds axes j ≡ true = ap (holds axes) (sym same) ∙ e in ground arith)
        | no other ↦ ground arith
      ])
      (λ e. holds-append axes i j)

-- The loop leaves the axes before its first one as they are.
mark_axes_before :
    (i j : ℕ) (content : Content) (axes : List ℕ) (total : ℕ)
    → j < i
    → holds (mark_axes i content axes total).0 j ≡ holds axes j
unfolding mark_axes
mark_axes_before i j [] axes total b = refl
mark_axes_before i j ([] ∷ content) axes total b =
    mark_axes_before (i + 1) j content axes total (omega arith)
mark_axes_before i j ((e ∷ es) ∷ content) axes total b =
    mark_axes_before (i + 1) j content (mark axes i) (total * length (e ∷ es)) (omega arith)
    ∙ holds-mark axes i j
    ∙ ground arith

pub mark_axes-is_filled :
    (i j k : ℕ) (content : Content) (axes : List ℕ) (total : ℕ)
    → j ≡ i + k
    → holds (mark_axes i content axes total).0 j ≡ holds axes j || is_filled content k
unfolding mark_axes
mark_axes-is_filled i j k [] axes total at = ground arith
mark_axes-is_filled i j zero ([] ∷ content) axes total at =
    mark_axes_before (i + 1) j content axes total (omega arith) ∙ ground arith
mark_axes-is_filled i j zero ((e ∷ es) ∷ content) axes total at =
    mark_axes_before (i + 1) j content (mark axes i) (total * length (e ∷ es)) (omega arith)
    ∙ holds-mark axes i j
    ∙ ground arith
mark_axes-is_filled i j (suc k) ([] ∷ content) axes total at =
    mark_axes-is_filled (i + 1) j k content axes total (omega arith)
mark_axes-is_filled i j (suc k) ((e ∷ es) ∷ content) axes total at =
    mark_axes-is_filled (i + 1) j k content (mark axes i) (total * length (e ∷ es)) (omega arith)
    ∙ ap (λ b. b || is_filled content k) (holds-mark axes i j ∙ ground arith)
