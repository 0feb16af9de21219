-- ===== src/Binning/AxisBinning.antt =====
-- core/NBinning.cxx: the binning that `GetAxisBinning` reads for one axis.
use ndmspc.Base.Int.{ℤ, pos}
use ndmspc.Base.{
  ℕ, zero, suc, ◌+◌, ◌<◌, ◌≡◌, refl, ◌∙◌, List, [], ◌∷◌, ◌++◌, append_assoc, map, Option, none,
  some, length, get_elem?, arith,
}
use ndmspc.Binning.Defs.{BinningType}
use ndmspc.Binning.Coordinates.{
  Place, type_of, coords_of, flatten, get_elem?-append, length-coords_of,
}
use ndmspc.Binning.Walk.{width, binning_at, binning_from, get_axis_binning}

-- The three numbers of a place.
abbrev pub binning_of : Place → List ℤ
binning_of (Place.at bin) = pos 1 ∷ pos 1 ∷ bin ∷ []
binning_of (Place.grouped rebin start bin) = rebin ∷ start ∷ bin ∷ []
binning_of (Place.by_user bin) = bin ∷ pos 1 ∷ pos 1 ∷ []

abbrev pub binning_or_empty : Option Place → List ℤ
binning_or_empty none = []
binning_or_empty (some p) = binning_of p

binning_at-flatten :
    (p : Place) (pre rest : List ℤ)
    → binning_at (type_of p) (pre ++ (coords_of p ++ rest)) (length pre) ≡ some (binning_of p)
unfolding binning_at
binning_at-flatten (Place.at bin) pre rest =
    rw (get_elem?-append pre (bin ∷ rest) (length pre) 0 (omega arith)) refl
binning_at-flatten (Place.grouped rebin start bin) pre rest =
    rw
      (
        get_elem?-append pre (rebin ∷ start ∷ bin ∷ rest) (length pre) 0 (omega arith),
        get_elem?-append pre (rebin ∷ start ∷ bin ∷ rest) (length pre + 1) 1 refl,
        get_elem?-append pre (rebin ∷ start ∷ bin ∷ rest) (length pre + 2) 2 refl,
      )
      refl
binning_at-flatten (Place.by_user bin) pre rest =
    rw (get_elem?-append pre (bin ∷ rest) (length pre) 0 (omega arith)) refl

-- The loop at the axis that is asked for, and at one before it.
binning_here :
    (id i axes : ℕ) (p : Place) (types : List BinningType) (c : List ℤ) (index : ℕ)
    → i ≡ id
    → binning_from id i (suc axes) (type_of p ∷ types) c index ≡ binning_at (type_of p) c index
unfolding binning_from
binning_here id i axes (Place.at bin) types c index e = ground arith
binning_here id i axes (Place.grouped rebin start bin) types c index e = ground arith
binning_here id i axes (Place.by_user bin) types c index e = ground arith

binning_before :
    (id i axes : ℕ) (p : Place) (types : List BinningType) (c : List ℤ) (index : ℕ)
    → i < id
    → binning_from id i (suc axes) (type_of p ∷ types) c index
      ≡ binning_from id (i + 1) axes types c (index + width (type_of p))
unfolding binning_from
binning_before id i axes (Place.at bin) types c index e = ground arith
binning_before id i axes (Place.grouped rebin start bin) types c index e = ground arith
binning_before id i axes (Place.by_user bin) types c index e = ground arith

walk-binning :
    (n id i : ℕ) (ps : List Place) (pre : List ℤ)
    → i + n ≡ id
    → binning_from id i (length ps) (map type_of ps) (pre ++ flatten ps) (length pre)
      ≡ some (binning_or_empty (get_elem? ps n))
walk-binning n id i [] pre h = unfold binning_from in refl
walk-binning zero id i (p ∷ ps) pre h =
    binning_here id i (length ps) p (map type_of ps) (pre ++ flatten (p ∷ ps)) (length pre)
      (omega (arith, h))
    ∙ binning_at-flatten p pre (flatten ps)
walk-binning (suc n) id i (p ∷ ps) pre h =
    binning_before id i (length ps) p (map type_of ps) (pre ++ flatten (p ∷ ps)) (length pre)
      (omega (arith, h))
    ∙ rw (length-coords_of pre p, ← append_assoc pre (coords_of p) (flatten ps))
        (walk-binning n id (i + 1) ps (pre ++ coords_of p) (omega (arith, h)))

-- At a point that is given by the place of every axis, `GetAxisBinning` returns the numbers of the
-- place of the axis that it is asked for: those of a group as they are, the bin of a single axis
-- with the numbers 1 and 1 before it and that of a user axis with 1 and 1 behind it. For an axis
-- that there is not it returns nothing.
pub get_axis_binning-flatten :
    (axis_id : ℕ) (ps : List Place)
    → get_axis_binning (length ps) axis_id (map type_of ps) (flatten ps)
      ≡ some (binning_or_empty (get_elem? ps axis_id))
unfolding get_axis_binning
get_axis_binning-flatten axis_id ps = walk-binning axis_id axis_id 0 ps [] (omega arith)
