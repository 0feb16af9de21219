-- ===== src/Binning/Widths.antt =====
-- core/NBinning.cxx: the bins of `AddBinningViaBinWidths`.
use ndmspc.Base.Int.{ℤ, pos, negsuc, ◌-ℤ◌, ◌/ℤ◌, ltb_ℤ, pos-add, pos-mul}
use ndmspc.Base.{
  ℕ, suc, zero, ◌+◌, ◌*◌, ◌/◌, ◌<◌, ◌≤◌, ◌≡◌, refl, sym, ap, ◌∙◌, Option, none, some, Bool, true,
  false, List, [], ◌∷◌, ◌++◌, map, append-nil, append_assoc, arith, ltb, leb, if◌then◌else◌,
  Bool-cases, inl, inr, All,
}
use ndmspc.Binning.Defs.{
  Bin, is_valid_id, last, extend, rounds, collect_mins, add_segments, add_binning_variable,
  add_binning_via_bin_widths,
}
use ndmspc.Binning.Tiling.{Covers, segments, range_of, add_segments-Covers}

-- A width and how often it is asked for; with no number, as often as it fits on the whole axis.
abbrev pub Width : Type 0
Width = ℕ × Option ℕ

abbrev pub entry : Width → List ℤ
entry (w, none) = pos w ∷ []
entry (w, some count) = pos w ∷ pos count ∷ []

abbrev pub repeated : ℕ → ℕ → List ℕ
repeated zero w = []
repeated (suc n) w = w ∷ repeated n w

abbrev pub times : ℕ → Width → ℕ
times nbins (w, none) = nbins / w
times nbins (w, some count) = count

-- Every width as often as it is asked for.
abbrev pub all_widths : ℕ → List Width → List ℕ
all_widths nbins [] = []
all_widths nbins (w ∷ ws) = repeated (times nbins w) w.0 ++ all_widths nbins ws

-- The bounds behind `low` for these widths, as long as they are on the axis or next to it.
abbrev pub bounds : ℕ → ℕ → List ℕ → List ℕ
bounds nbins low [] = []
bounds nbins low (w ∷ ws) =
    if leb (low + w) (nbins + 1) then (low + w) ∷ bounds nbins (low + w) ws else []

-- The bounds that the code collects.
abbrev pushed : ℕ → ℕ → List ℕ → List ℕ
pushed nbins low [] = []
pushed nbins low (w ∷ ws) = if ltb nbins low then [] else (low + w) ∷ pushed nbins (low + w) ws

abbrev end : ℕ → List ℕ → ℕ
end low [] = low
end low (m ∷ ms) = end m ms

last-append : (first : ℤ) (ms : List ℤ) (m : ℤ) → last first (ms ++ m ∷ []) ≡ m
last-append first [] m = refl
last-append first (n ∷ ns) m = last-append n ns m

last_ext :
    (first : ℤ) (ms : List ℤ) (low : ℕ) (ns : List ℕ)
    → last first ms ≡ pos low
    → last first (ms ++ map pos ns) ≡ pos (end low ns)
last_ext first [] low [] h = h
last_ext first [] low (n ∷ ns) h = last_ext (pos n) [] n ns refl
last_ext first (m ∷ ms) low ns h = last_ext m ms low ns h

pushed-append :
    (nbins low : ℕ) (xs ys : List ℕ)
    → pushed nbins low (xs ++ ys)
      ≡ pushed nbins low xs ++ pushed nbins (end low (pushed nbins low xs)) ys
pushed-append nbins low [] ys = refl
pushed-append nbins low (x ∷ xs) ys = elim (Bool-cases (ltb nbins low)) [
  | inl b ↦ rw (b, nothing_behind ys b) refl
  | inr b ↦ rw b (ap (◌∷◌ (low + x)) (pushed-append nbins (low + x) xs ys))
]
  where
    nothing_behind : (ys : List ℕ) → ltb nbins low ≡ true → pushed nbins low ys ≡ []
    nothing_behind [] b = refl
    nothing_behind (y ∷ ys) b = rw b refl

extend-pushed :
    (k nbins w low : ℕ) (first : ℤ) (mins : List ℤ)
    → last first mins ≡ pos low
    → extend k nbins (pos w) first mins ≡ mins ++ map pos (pushed nbins low (repeated k w))
unfolding extend
extend-pushed zero nbins w low first mins h = sym (append-nil mins)
extend-pushed (suc k) nbins w low first mins h =
    let pushed_all =
      extend-pushed k nbins w (low + w) first (mins ++ pos (low + w) ∷ [])
        (last-append first mins (pos (low + w)))
      ∙ append_assoc mins (pos (low + w) ∷ []) (map pos (pushed nbins (low + w) (repeated k w))) in
    elim (Bool-cases (ltb nbins low)) [
      | inl b ↦ rw (h, b) (ground (arith, append-nil mins))
      | inr b ↦ rw (h, b, pos-add low w) (ground (arith, pushed_all))
    ]

rounds_pos : (n : ℕ) → rounds (pos n) (pos 0) ≡ n
unfolding ◌-ℤ◌
rounds_pos n = ground arith

not_negative : (n : ℕ) → ltb_ℤ (pos n) (pos 0) ≡ false
not_negative n = ground arith

-- What the entry of one width does.
entry-pushed :
    (nbins low : ℕ) (applied : Bool) (first : ℤ) (mins : List ℤ) (w : Width) (ws : List (List ℤ))
    → last first mins ≡ pos low
    → 1 ≤ w.0
    → collect_mins nbins applied first mins (entry w ∷ ws)
      ≡ collect_mins nbins applied first
          (mins ++ map pos (pushed nbins low (repeated (times nbins w) w.0)))
          ws
unfolding collect_mins ◌/ℤ◌
entry-pushed nbins low applied first mins (w, none) ws h one =
    rw (rounds_pos (nbins / w), extend-pushed (nbins / w) nbins w low first mins h) (ground arith)
entry-pushed nbins low true first mins (w, some count) ws h one =
    rw (rounds_pos count, extend-pushed count nbins w low first mins h) refl
entry-pushed nbins low false first mins (w, some count) ws h one =
    rw (not_negative count, rounds_pos count, extend-pushed count nbins w low first mins h) refl

map-append : (xs ys : List ℕ) → map pos (xs ++ ys) ≡ map pos xs ++ map pos ys
map-append [] ys = refl
map-append (x ∷ xs) ys = ap (◌∷◌ (pos x)) (map-append xs ys)

collect-pushed :
    (nbins low : ℕ) (applied : Bool) (first : ℤ) (mins : List ℤ) (ws : List Width)
    → last first mins ≡ pos low
    → All (λ w. 1 ≤ w.0) ws
    → collect_mins nbins applied first mins (map entry ws)
      ≡ some (first, mins ++ map pos (pushed nbins low (all_widths nbins ws)))
collect-pushed nbins low applied first mins [] h p =
    unfold collect_mins in ap (λ m. some (first, m)) (sym (append-nil mins))
collect-pushed nbins low applied first mins (w ∷ ws) h p =
    let now = repeated (times nbins w) w.0 in
    let then_low = end low (pushed nbins low now) in
    entry-pushed nbins low applied first mins w (map entry ws) h p.0
    ∙ collect-pushed nbins then_low applied first (mins ++ map pos (pushed nbins low now)) ws
        (last_ext first mins low (pushed nbins low now) h) p.1
    ∙ ap (λ m. some (first, m))
        (append_assoc mins (map pos (pushed nbins low now))
            (map pos (pushed nbins then_low (all_widths nbins ws)))
          ∙ ap (◌++◌ mins) (
              sym (map-append (pushed nbins low now) (pushed nbins then_low (all_widths nbins ws)))
              ∙ ap (map pos) (sym (pushed-append nbins low now (all_widths nbins ws)))))

-- What lies behind the axis is dropped by the loop of `AddBinningVariable`.
pushed-Covers :
    (axes nbins id low : ℕ) (ws : List ℕ)
    → is_valid_id axes id ≡ true
    → 1 ≤ low
    → All (λ w. 1 ≤ w) ws
    → Covers nbins
        (segments low (bounds nbins low ws))
        (add_segments axes nbins id (pos low) (map pos (pushed nbins low ws)))
pushed-Covers axes nbins id low [] v h p = ([], unfold add_segments in refl, refl)
pushed-Covers axes nbins id low (w ∷ ws) v h p = elim (Bool-cases (ltb nbins low)) [
  | inl b ↦ rw (b, behind (ground arith)) ([], unfold add_segments in refl, refl)
  | inr b ↦ elim (Bool-cases (leb (low + w) (nbins + 1))) [
    | inl u ↦
        rw (b, u)
          (add_segments-Covers axes nbins id low (low + w) (map pos (pushed nbins (low + w) ws)) _ v
            (h, ground arith, ground arith)
            (pushed-Covers axes nbins id (low + w) ws v (omega arith) p.1))
    | inr u ↦ rw (b, u) ([], unfold add_segments in ground arith, refl)
  ]
]
  where
    behind : nbins < low → leb (low + w) (nbins + 1) ≡ false
    behind b = ground (arith, p.0)

-- The skip at the start, `{width, -(k + 1)}`, as the pair of the width and k.
abbrev pub Skip : Type 0
Skip = Option (ℕ × ℕ)

abbrev pub skip_entry : Skip → List (List ℤ)
skip_entry none = []
skip_entry (some (w, k)) = (pos w ∷ negsuc k ∷ []) ∷ []

abbrev pub IsPositiveSkip : Skip → Type 0
IsPositiveSkip none = Unit
IsPositiveSkip (some (w, k)) = 1 ≤ w

abbrev pub first_bound : Skip → ℕ
first_bound none = 1
first_bound (some (w, k)) = 1 + suc k * w

negative : (k : ℕ) → ltb_ℤ (negsuc k) (pos 0) ≡ true
negative k = ground arith

opposite : (k : ℕ) → pos 0 -ℤ negsuc k ≡ pos (suc k)
unfolding ◌-ℤ◌
opposite k = ground arith

rounds_negative : (k n : ℕ) → rounds (negsuc k) (pos n) ≡ 0
unfolding ◌-ℤ◌
rounds_negative k n = ground arith

skip-collect :
    (nbins : ℕ) (skip : Skip) (ws : List (List ℤ))
    → IsPositiveSkip skip
    → (applied : Bool) × (collect_mins nbins false (pos 1) [] (skip_entry skip ++ ws)
        ≡ collect_mins nbins applied (pos (first_bound skip)) [] ws)
unfolding collect_mins extend ◌/ℤ◌
skip-collect nbins none ws h = (false, refl)
skip-collect nbins (some (w, k)) ws h = (
  true,
  rw
      (
        negative k,
        opposite k,
        pos-mul (suc k) w,
        pos-add 1 (suc k * w),
        rounds_negative k (suc k * w / w),
      )
      (ground arith),
)

All-repeated :
    (n w : ℕ) (ws : List ℕ) → 1 ≤ w → All (λ w. 1 ≤ w) ws → All (λ w. 1 ≤ w) (repeated n w ++ ws)
All-repeated zero w ws h p = p
All-repeated (suc n) w ws h p = (h, All-repeated n w ws h p)

pub All-all_widths :
    (nbins : ℕ) (ws : List Width) → All (λ w. 1 ≤ w.0) ws → All (λ w. 1 ≤ w) (all_widths nbins ws)
All-all_widths nbins [] p = tt
All-all_widths nbins (w ∷ ws) p =
    All-repeated (times nbins w) w.0 _ p.0 (All-all_widths nbins ws p.1)

-- For positive widths, with or without a skip at the start, `AddBinningViaBinWidths` returns true,
-- and the bins that it adds are, in this order, one of each width as often as the width is asked
-- for, one after the other from the first bin behind the skip, up to the first that does not fit on
-- the axis.
pub add_binning_via_bin_widths-segments :
    (axes nbins id : ℕ) (skip : Skip) (ws : List Width)
    → is_valid_id axes id ≡ true
    → IsPositiveSkip skip
    → All (λ w. 1 ≤ w.0) ws
    → (bins : List Bin) × (add_binning_via_bin_widths axes nbins id
          (skip_entry skip ++ map entry ws)
        ≡ some (true, bins))
      × (map (range_of nbins) bins
          ≡ segments (first_bound skip) (bounds nbins (first_bound skip) (all_widths nbins ws)))
unfolding add_binning_via_bin_widths add_binning_variable
add_binning_via_bin_widths-segments axes nbins id skip ws v s p =
    let (applied, e) = skip-collect nbins skip (map entry ws) s in
    rw (e, collect-pushed nbins (first_bound skip) applied (pos (first_bound skip)) [] ws refl p, v)
      (pushed-Covers axes nbins id (first_bound skip) (all_widths nbins ws) v (first skip)
        (All-all_widths nbins ws p))
  where
    first : (skip : Skip) → 1 ≤ first_bound skip
    first none = omega arith
    first (some (w, k)) = omega arith
