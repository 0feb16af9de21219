-- ===== src/Sweep/Advance.antt =====
-- core/NDimensionalExecutor.cxx: `Increment` against the step to the next point.
use ndmspc.Base.Int.{ℤ, pos, ◌+ℤ◌, ◌≤ℤ◌, leb_ℤ, +ℤ_parts}
use ndmspc.Base.{
  ℕ, zero, suc, ◌≡◌, refl, ap, ◌∙◌, Bool, true, false, List, [], ◌∷◌, ◌++◌, map, arith,
  if◌then◌else◌, length, get_or, set, Bool-cases, inl, inr,
}
use ndmspc.Sweep.Box.{box, prefix, span, IsBounds, IsWithin, prefix-span, prefix-span_nil}
use ndmspc.Sweep.Defs.{Coords, increment_loop}

-- One dimension, given what the step did in the dimensions after it.
pub carry : ℤ → ℤ → ℤ → Coords × Bool → Coords × Bool
carry m h c (cs, true) = (c ∷ cs, true)
carry m h c (cs, false) =
    if leb_ℤ (c +ℤ pos 1) h then ((c +ℤ pos 1) ∷ cs, true) else (m ∷ cs, false)

-- The step to the next point, by recursion on the dimensions.
pub advance : Coords → Coords → Coords → Coords × Bool
advance (m ∷ ms) (h ∷ hs) (c ∷ cs) = carry m h c (advance ms hs cs)
advance [] _ cs = (cs, false)
advance _ _ cs = (cs, false)

increment_loop-cons :
    (k : ℕ) (m h c : ℤ) (ms hs cs : Coords)
    → increment_loop (suc k) (m ∷ ms) (h ∷ hs) (c ∷ cs) ≡ carry m h c (increment_loop k ms hs cs)
unfolding increment_loop carry
increment_loop-cons zero m h c ms hs cs = refl
increment_loop-cons (suc k) m h c ms hs cs =
    let raised = set cs k (get_or cs k (pos 0) +ℤ pos 1) in
    elim (Bool-cases (leb_ℤ (get_or raised k (pos 0)) (get_or hs k (pos 0)))) [
      | inl fits ↦ rw (fits, increment_loop) refl
      | inr over ↦ rw over (increment_loop-cons k m h c ms hs (set raised k (get_or ms k (pos 0))))
    ]

-- The loop over the dimensions from the last to the first is that step.
pub increment_loop-advance :
    (mins maxs cs : Coords)
    → length mins ≡ length cs
    → length maxs ≡ length cs
    → increment_loop (length cs) mins maxs cs ≡ advance mins maxs cs
unfolding increment_loop advance
increment_loop-advance (m ∷ ms) (h ∷ hs) (c ∷ cs) p q =
    increment_loop-cons (length cs) m h c ms hs cs
    ∙ ap (carry m h c) (increment_loop-advance ms hs cs (omega arith) (omega arith))
increment_loop-advance [] [] [] p q = refl
increment_loop-advance mins maxs cs p q = absurd (omega arith)

-- The points behind a point, in order.
pub after : Coords → Coords → Coords → List Coords
after (m ∷ ms) (h ∷ hs) (c ∷ cs) =
    map (◌∷◌ c) (after ms hs cs) ++ prefix (span (c +ℤ pos 1) h) (box ms hs)
after [] _ _ = []
after _ _ _ = []

-- What a step has to do: go to the first of the points behind, or say that there is none and go back
-- to the first point of all.
abbrev pub IsNext : Coords → Coords → Coords → Coords × Bool → Type 0
IsNext mins maxs cs (next, true) =
    (after mins maxs cs ≡ next ∷ after mins maxs next) × IsWithin mins maxs next
IsNext mins maxs cs (next, false) = (after mins maxs cs ≡ []) × (next ≡ mins)

pub box-after :
    (mins maxs : Coords) → IsBounds mins maxs → box mins maxs ≡ mins ∷ after mins maxs mins
unfolding box after
box-after [] [] b = refl
box-after (m ∷ ms) (h ∷ hs) b =
    prefix-span m h (box ms hs) b.0
    ∙ ap (λ pts. map (◌∷◌ m) pts ++ prefix (span (m +ℤ pos 1) h) (box ms hs)) (box-after ms hs b.1)
box-after [] (h ∷ hs) b = elim b [ ]
box-after (m ∷ ms) [] b = elim b [ ]

pub IsWithin-mins : (mins maxs : Coords) → IsBounds mins maxs → IsWithin mins maxs mins
IsWithin-mins [] [] b = tt
IsWithin-mins (m ∷ ms) (h ∷ hs) b = (omega arith, b.0, IsWithin-mins ms hs b.1)
IsWithin-mins [] (h ∷ hs) b = elim b [ ]
IsWithin-mins (m ∷ ms) [] b = elim b [ ]

carry-IsNext :
    (m h c : ℤ) (ms hs cs : Coords) (r : Coords × Bool)
    → m ≤ℤ h
    → IsBounds ms hs
    → m ≤ℤ c
    → c ≤ℤ h
    → IsNext ms hs cs r
    → IsNext (m ∷ ms) (h ∷ hs) (c ∷ cs) (carry m h c r)
unfolding carry after
carry-IsNext m h c ms hs cs (next, true) b bs lo hi n =
    (ap (λ pts. map (◌∷◌ c) pts ++ prefix (span (c +ℤ pos 1) h) (box ms hs)) n.0, (lo, hi, n.1))
carry-IsNext m h c ms hs cs (next, false) b bs lo hi n = elim (Bool-cases (leb_ℤ (c +ℤ pos 1) h)) [
  | inl fits ↦
      rw (fits, n.0, n.1)
        (
          prefix-span (c +ℤ pos 1) h (box ms hs) (ground arith)
              ∙ ap
                  (λ pts.
                    map (◌∷◌ (c +ℤ pos 1)) pts ++ prefix (span (c +ℤ pos 1 +ℤ pos 1) h) (box ms hs))
                  (box-after ms hs bs),
          (omega (arith, +ℤ_parts c (pos 1)), ground arith, IsWithin-mins ms hs bs),
        )
  | inr over ↦ rw (over, n.0, n.1) (prefix-span_nil (c +ℤ pos 1) h (box ms hs) (ground arith), refl)
]

-- From a point between the bounds the step goes to the next point, and after the last one back to
-- the first.
pub advance-IsNext :
    (mins maxs cs : Coords)
    → IsBounds mins maxs
    → IsWithin mins maxs cs
    → IsNext mins maxs cs (advance mins maxs cs)
unfolding advance after
advance-IsNext [] [] [] b w = (refl, refl)
advance-IsNext (m ∷ ms) (h ∷ hs) (c ∷ cs) b w =
    carry-IsNext m h c ms hs cs (advance ms hs cs) b.0 b.1 w.0 w.1 (advance-IsNext ms hs cs b.1 w.2)
advance-IsNext [] [] (c ∷ cs) b w = elim w [ ]
advance-IsNext [] (h ∷ hs) cs b w = elim b [ ]
advance-IsNext (m ∷ ms) [] cs b w = elim b [ ]
advance-IsNext (m ∷ ms) (h ∷ hs) [] b w = elim w [ ]
