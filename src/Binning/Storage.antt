-- ===== src/Binning/Storage.antt =====
-- core/NBinningDef.cxx: the bins that the constructor gives the axis of `fContent`, against those
-- that `AddBinningViaBinWidths` of core/NBinning.cxx adds for the same widths. An edge is the
-- number of the bin that ends there; the array `bins` begins with the lower edge of bin 1.
use mathlib.Core.Option
use ndmspc.Base.Int.{ℤ, pos, ◌+ℤ◌, ◌/ℤ◌, ltb_ℤ, eqb_ℤ, pos_part, pos-add}
use ndmspc.Base.{
  ℕ, zero, suc, ◌+◌, ◌≤◌, ◌≡◌, refl, sym, ap, ◌∙◌, Option, none, some, List, [], ◌∷◌, ◌++◌, map,
  arith, ltb, leb, if◌then◌else◌, Bool-cases, inl, inr, All, length, length-map, true,
}
use ndmspc.Binning.Defs.{Bin, is_valid_id, add_binning_via_bin_widths}
use ndmspc.Binning.Tiling.{segments, range_of}
use ndmspc.Binning.Widths.{
  Width, Skip, entry, All-all_widths, repeated, times, all_widths, bounds, skip_entry,
  add_binning_via_bin_widths-segments,
}

-- The inner loop, with the rounds left: `iBin` and the edges.
unfoldable pub edge_rounds : ℕ → ℕ → ℤ → ℤ → ℤ × List ℤ
edge_rounds zero nbins width i_bin = (i_bin, [])
edge_rounds (suc k) nbins width i_bin =
    let next = i_bin +ℤ width in
    let rest = edge_rounds k nbins width next in
    if ltb_ℤ (pos nbins) next then (next, []) else (rest.0, next ∷ rest.1)

-- The loop over the widths of the axis, from `iBin` on.
unfoldable pub edges_from : ℕ → ℤ → List (List ℤ) → Option (List ℤ)
edges_from nbins i_bin [] = some []
edges_from nbins i_bin ([] ∷ vs) = none
edges_from nbins i_bin ((width ∷ []) ∷ vs) =
    let r = edge_rounds (pos_part (pos nbins /ℤ width)) nbins width i_bin in
    let rest = Option.map (◌++◌ r.1) (edges_from nbins r.0 vs) in
    if eqb_ℤ width (pos 0) then none else rest
edges_from nbins i_bin ((width ∷ count ∷ _) ∷ vs) =
    let r = edge_rounds (pos_part count) nbins width i_bin in
    Option.map (◌++◌ r.1) (edges_from nbins r.0 vs)

-- The edges behind the first for the widths of an axis.
unfoldable pub storage_edges : ℕ → List (List ℤ) → Option (List ℤ)
storage_edges nbins widths = edges_from nbins (pos 0) widths

-- The ends of bins of these widths from the end `i` on, as long as they are on the axis.
abbrev pub kept : ℕ → ℕ → List ℕ → List ℕ
kept nbins i [] = []
kept nbins i (w ∷ ws) = if leb (i + w) nbins then (i + w) ∷ kept nbins (i + w) ws else []

kept_end : (nbins i : ℕ) (ws : List ℕ) → ltb nbins i ≡ true → kept nbins i ws ≡ []
kept_end nbins i [] h = refl
kept_end nbins i (w ∷ ws) h = ground arith

rounds-kept :
    (k nbins w i : ℕ) (ws : List ℕ)
    → (j : ℕ) × (es : List ℕ) × (edge_rounds k nbins (pos w) (pos i) ≡ (pos j, map pos es))
      × (kept nbins i (repeated k w ++ ws) ≡ es ++ kept nbins j ws)
unfolding edge_rounds
rounds-kept zero nbins w i ws = (i, [], refl, refl)
rounds-kept (suc k) nbins w i ws =
    let (j, es, e, s) = rounds-kept k nbins w (i + w) ws in
    elim (Bool-cases (ltb nbins (i + w))) [
      | inl b ↦
          (i + w, [], rw (pos-add i w) (ground arith), ground (arith, kept_end nbins (i + w) ws b))
      | inr b ↦ (j, (i + w) ∷ es, rw (pos-add i w, e) (ground arith), ground (arith, s))
    ]

-- The entry of one width.
edges_entry :
    (nbins i : ℕ) (w : Width) (vs : List (List ℤ))
    → 1 ≤ w.0
    → edges_from nbins (pos i) (entry w ∷ vs) ≡ (
        let r = edge_rounds (times nbins w) nbins (pos w.0) (pos i) in
        Option.map (◌++◌ r.1) (edges_from nbins r.0 vs))
unfolding edges_from ◌/ℤ◌
edges_entry nbins i (w, none) vs h = ground arith
edges_entry nbins i (w, some count) vs h = refl

map-append : (xs ys : List ℕ) → map pos (xs ++ ys) ≡ map pos xs ++ map pos ys
map-append [] ys = refl
map-append (x ∷ xs) ys = ap (◌∷◌ (pos x)) (map-append xs ys)

edges-kept :
    (nbins i : ℕ) (ws : List Width)
    → All (λ w. 1 ≤ w.0) ws
    → edges_from nbins (pos i) (map entry ws) ≡ some (map pos (kept nbins i (all_widths nbins ws)))
edges-kept nbins i [] p = unfold edges_from in refl
edges-kept nbins i (w ∷ ws) p =
    let (j, es, e, s) = rounds-kept (times nbins w) nbins w.0 i (all_widths nbins ws) in
    edges_entry nbins i w (map entry ws) p.0
    ∙ rw (e, edges-kept nbins j ws p.1)
        (ap some (sym (map-append es (kept nbins j (all_widths nbins ws))) ∙ ap (map pos) (sym s)))

skip_nothing :
    (nbins : ℕ) (skip : Skip) (vs : List (List ℤ))
    → storage_edges nbins (skip_entry skip ++ vs) ≡ storage_edges nbins vs
unfolding storage_edges edges_from edge_rounds
skip_nothing nbins none vs = refl
skip_nothing nbins (some (w, k)) vs =
    elim (edges_from nbins (pos 0) vs) as (λ o. Option.map (◌++◌ []) o ≡ o) [
      | none ↦ refl
      | some es ↦ refl
    ]

-- From behind each end up to the next one.
abbrev pub ranges_to : ℕ → List ℕ → List (Option (ℤ × ℤ))
ranges_to i [] = []
ranges_to i (e ∷ es) = some (pos (i + 1), pos e) ∷ ranges_to e es

segments-kept :
    (nbins i low : ℕ) (ws : List ℕ)
    → i + 1 ≡ low
    → segments low (bounds nbins low ws) ≡ ranges_to i (kept nbins i ws)
segments-kept nbins i low [] h = refl
segments-kept nbins i low (w ∷ ws) h =
    let rest = segments-kept nbins (i + w) (low + w) ws (omega (arith, h)) in
    ground (arith, rest, h)

-- For positive widths with no skip, the bins that `AddBinningViaBinWidths` adds cover, one for one,
-- the bins of the axis that the constructor of `NBinningDef` makes for the same widths.
pub storage_edges-add_binning_via_bin_widths :
    (axes nbins id : ℕ) (ws : List Width)
    → is_valid_id axes id ≡ true
    → All (λ w. 1 ≤ w.0) ws
    → (bins : List Bin) × (edges : List ℕ) × (add_binning_via_bin_widths axes nbins id
          (map entry ws)
        ≡ some (true, bins))
      × (storage_edges nbins (map entry ws) ≡ some (map pos edges))
      × (map (range_of nbins) bins ≡ ranges_to 0 edges)
unfolding storage_edges
storage_edges-add_binning_via_bin_widths axes nbins id ws v p =
    let (bins, e, c) = add_binning_via_bin_widths-segments axes nbins id none ws v tt p in
    let all = all_widths nbins ws in
    (bins, kept nbins 0 all, e, edges-kept nbins 0 ws p, c ∙ segments-kept nbins 0 1 all refl)

-- The ends increase from `i` on and are on the axis, which leaves at most `room` of them.
kept-room :
    (nbins i : ℕ) (ws : List ℕ)
    → All (λ w. 1 ≤ w) ws
    → i ≤ nbins
    → length (kept nbins i ws) + i ≤ nbins
kept-room nbins i [] p h = omega arith
kept-room nbins i (w ∷ ws) p h = elim (Bool-cases (leb (i + w) nbins)) [
  | inl b ↦ rw b (omega (arith, kept-room nbins (i + w) ws p.1 (ground arith), p.0))
  | inr b ↦ rw b (omega arith)
]

-- For positive widths, with or without a skip at the start, the constructor of `NBinningDef`
-- ignores the skip, and writes at most as many edges behind the first as the axis has bins, for
-- which its array has room.
pub storage_edges_room :
    (nbins : ℕ) (skip : Skip) (ws : List Width)
    → All (λ w. 1 ≤ w.0) ws
    → (edges : List ℤ) × (storage_edges nbins (skip_entry skip ++ map entry ws) ≡ some edges)
      × (storage_edges nbins (map entry ws) ≡ some edges)
      × (length edges ≤ nbins)
storage_edges_room nbins skip ws p =
    let all = all_widths nbins ws in
    let made : storage_edges nbins (map entry ws) ≡ some (map pos (kept nbins 0 all)) =
      unfold storage_edges in edges-kept nbins 0 ws p in
    (
      map pos (kept nbins 0 all),
      skip_nothing nbins skip (map entry ws) ∙ made,
      made,
      omega (
        arith,
        length-map (kept nbins 0 all) pos,
        kept-room nbins 0 all (All-all_widths nbins ws p) (omega arith),
      ),
    )
