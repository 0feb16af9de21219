-- ===== src/Binning/Product.antt =====
-- core/NBinning.cxx: the points that `FillAll` fills, against the choices of one entry for each
-- axis.
use mathlib.Core.Option
use ndmspc.Base.Int.{ℤ, pos, pos_part, pos-add}
use ndmspc.Base.{
  ℕ, zero, suc, ◌+◌, ◌-◌, ◌*◌, ◌<◌, ◌≡◌, refl, ap, ◌∙◌, List, [], ◌∷◌, ◌++◌, Option, none, some,
  length, length-append, length-map, get_elem?, map, append_assoc, arith, All,
}
use ndmspc.Binning.Fill.{
  Entries, Content, sizes, ones, numbers, point_content, add_point, all_points,
}
use ndmspc.Sweep.Box.{box, prefix, span_from, width, volume}
use ndmspc.Sweep.Defs.{Coords}

-- An entry without its first number.
abbrev pub numbers_of : List ℤ → List ℤ
numbers_of [] = []
numbers_of (d ∷ bs) = bs

-- Each entry before each list of numbers.
abbrev pub choose : Entries → List (List ℤ) → List (List ℤ)
choose [] rest = []
choose (e ∷ es) rest = map (◌++◌ (numbers_of e)) rest ++ choose es rest

-- One entry for each axis, in all ways, the last axis first.
abbrev pub choices : Content → List (List ℤ)
choices [] = [] ∷ []
choices (es ∷ content) = choose es (choices content)

abbrev pub IsEntry : List ℤ → Type 0
IsEntry e = numbers (some e) ≡ some (numbers_of e)

abbrev pub product : Content → ℕ
product [] = 1
product (es ∷ content) = length es * product content

abbrev pub IsFull : Content → Type 0
IsFull content = All (λ es. 0 < length es) content

add_point-some :
    (a : Option (List ℤ)) (b : Option (List (List ℤ))) {ps : List (List ℤ)}
    → add_point a b ≡ some ps
    → (p : List ℤ) × (qs : List (List ℤ)) × (a ≡ some p) × (b ≡ some qs) × (p ∷ qs ≡ ps)
add_point-some (some p) (some qs) h = (p, qs, refl, refl, ground (arith, h))
add_point-some (some p) none h = absurd (ground (arith, h))
add_point-some none b h = absurd (ground (arith, h))

all_points-append :
    (content : Content) (cs ds : List Coords) {ps qs : List (List ℤ)}
    → all_points content cs ≡ some ps
    → all_points content ds ≡ some qs
    → all_points content (cs ++ ds) ≡ some (ps ++ qs)
all_points-append content [] ds h k = ground (arith, h, k)
all_points-append content (c ∷ cs) ds {ps} {qs} h k =
    let (p, rest, a, b, e) = add_point-some (point_content content c) (all_points content cs) h in
    rw (a, all_points-append content cs ds b k) (ap (λ x. some (x ++ qs)) e)

-- One entry of the first axis.
all_points-one :
    (es : Entries) (content : Content) (c : ℤ) (e : List ℤ) (cs : List Coords) {qs : List (List ℤ)}
    → get_elem? es (pos_part c - 1) ≡ some e
    → IsEntry e
    → all_points content cs ≡ some qs
    → all_points (es ∷ content) (map (◌∷◌ c) cs) ≡ some (map (◌++◌ (numbers_of e)) qs)
unfolding point_content
all_points-one es content c e [] h w k = ap (λ o. Option.map (map (◌++◌ (numbers_of e))) o) k
all_points-one es content c e (d ∷ cs) {qs} h w k =
    let (p, rest, a, b, same) =
      add_point-some (point_content content d) (all_points content cs) k in
    rw (h, w, a, all_points-one es content c e cs h w b)
      (ap (λ x. some (map (◌++◌ (numbers_of e)) x)) same)

get_elem?-append :
    (pre : Entries) (e : List ℤ) (es : Entries) (i : ℕ)
    → i ≡ length pre
    → get_elem? (pre ++ e ∷ es) i ≡ some e
get_elem?-append [] e es zero h = refl
get_elem?-append [] e es (suc i) h = absurd (omega (arith, h))
get_elem?-append (p ∷ pre) e es zero h = absurd (omega (arith, h))
get_elem?-append (p ∷ pre) e es (suc i) h = get_elem?-append pre e es i (omega (arith, h))

-- The entries of the first axis from `pre` on.
all_points-choose :
    (pre es : Entries) (content : Content) (cs : List Coords) {qs : List (List ℤ)}
    → All IsEntry es
    → all_points content cs ≡ some qs
    → all_points ((pre ++ es) ∷ content) (prefix (span_from (length es) (pos (length pre + 1))) cs)
      ≡ some (choose es qs)
unfolding prefix span_from
all_points-choose pre [] content cs w k = refl
all_points-choose pre (e ∷ es) content cs {qs} w k =
    all_points-append ((pre ++ e ∷ es) ∷ content) (map (◌∷◌ (pos (length pre + 1))) cs) _
      (all_points-one (pre ++ e ∷ es) content (pos (length pre + 1)) e cs
        (get_elem?-append pre e es (length pre + 1 - 1) (omega arith)) w.0 k)
      (rw (pos-add (length pre + 1) 1, ← longer, ← append_assoc pre (e ∷ []) es)
        (all_points-choose (pre ++ e ∷ []) es content cs w.1 k))
  where
    longer : length (pre ++ e ∷ []) ≡ length pre + 1
    longer = length-append pre (e ∷ [])

width_ones : (n : ℕ) → width (pos 1) (pos n) ≡ n
width_ones n = omega arith

-- All entries of all axes.
abbrev pub AreEntries : Content → Type 0
AreEntries content = All (λ es. All IsEntry es) content

pub all_points-choices :
    (content : Content)
    → AreEntries content
    → all_points content (box (ones (length content)) (sizes content)) ≡ some (choices content)
unfolding box
all_points-choices [] w = unfold point_content in refl
all_points-choices (es ∷ content) w = rw (width_ones (length es)) (
    all_points-choose [] es content (box (ones (length content)) (sizes content)) w.0
      (all_points-choices content w.1))

pub volume-ones :
    (content : Content) → volume (ones (length content)) (sizes content) ≡ product content
unfolding volume
volume-ones [] = refl
volume-ones (es ∷ content) = rw (volume-ones content, width_ones (length es)) refl

length-choose :
    (es : Entries) (rest : List (List ℤ)) → length (choose es rest) ≡ length es * length rest
length-choose [] rest = omega arith
length-choose (e ∷ es) rest = omega (
  arith,
  length-append (map (◌++◌ (numbers_of e)) rest) (choose es rest),
  length-map rest (◌++◌ (numbers_of e)),
  length-choose es rest,
)

pub length-choices : (content : Content) → length (choices content) ≡ product content
length-choices [] = refl
length-choices (es ∷ content) =
    length-choose es (choices content) ∙ ap (◌*◌ (length es)) (length-choices content)
