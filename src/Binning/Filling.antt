-- ===== src/Binning/Filling.antt =====
-- core/NBinning.cxx: what `FillAll` collects for each axis, and how it ends.
use ndmspc.Base.Int.{ℤ}
use ndmspc.Base.{
  ℕ, zero, suc, ◌+◌, ◌-◌, ◌<◌, ◌==◌, ◌≡◌, ◌⊎◌, refl, sym, ap, ◌∙◌, List, [], ◌∷◌, ◌++◌, Option,
  none, some, if◌then◌else◌, length, append_assoc, append-nil, arith, All, All-append, if_cases,
  Option-cases, inl, inr,
}
use ndmspc.Binning.Defs.{Bin, BinningType}
use ndmspc.Binning.Fill.{Entries, Content, stored, push_at, collect_one, collect, no_content}
use ndmspc.Binning.Product.{IsEntry, AreEntries}
use ndmspc.Binning.Walk.{get_binning_type}

abbrev pub listed : Option (List ℤ) → Entries
listed none = []
listed (some e) = e ∷ []

-- What the axis `i`, from 0 on, gets of one point of the map, and of all of them in order.
abbrev pub pick : ℕ → List BinningType → Bin → Entries
pick i types p =
    if p.dim - 1 == i then listed (stored (get_binning_type types (p.dim - 1)) p) else []

abbrev pub picked : ℕ → List BinningType → List Bin → Entries
picked i types [] = []
picked i types (p ∷ ps) = pick i types p ++ picked i types ps

-- What each of `n` axes from `i` on gets.
abbrev pub picks : ℕ → ℕ → List BinningType → List Bin → Content
picks i zero types ps = []
picks i (suc n) types ps = picked i types ps ∷ picks (i + 1) n types ps

added : ℕ → List BinningType → List Bin → Content → Content
added i types ps [] = []
added i types ps (es ∷ content) = (es ++ picked i types ps) ∷ added (i + 1) types ps content

added_nothing :
    (i : ℕ) (types : List BinningType) (content : Content) → added i types [] content ≡ content
unfolding added
added_nothing i types [] = refl
added_nothing i types (es ∷ content) = rw (append-nil es, added_nothing (i + 1) types content) refl

-- A point of none of the axes from `i` on.
added_other :
    (i : ℕ) (types : List BinningType) (p : Bin) (ps : List Bin) (content : Content)
    → p.dim - 1 < i ⊎ (stored (get_binning_type types (p.dim - 1)) p ≡ none)
    → added i types (p ∷ ps) content ≡ added i types ps content
unfolding added
added_other i types p ps [] h = refl
added_other i types p ps (es ∷ content) h =
    rw (nothing h, added_other (i + 1) types p ps content (later h)) refl
  where
    nothing :
        p.dim - 1 < i ⊎ (stored (get_binning_type types (p.dim - 1)) p ≡ none) → pick i types p ≡ []
    nothing (inl b) = ground arith
    nothing (inr e) = rw e (ground arith)

    later :
        p.dim - 1 < i ⊎ (stored (get_binning_type types (p.dim - 1)) p ≡ none)
        → p.dim - 1 < i + 1 ⊎ (stored (get_binning_type types (p.dim - 1)) p ≡ none)
    later (inl b) = inl (omega arith)
    later (inr e) = inr e

pick_here :
    (i : ℕ) (types : List BinningType) (p : Bin) (e : List ℤ)
    → p.dim - 1 ≡ i
    → stored (get_binning_type types (p.dim - 1)) p ≡ some e
    → pick i types p ≡ e ∷ []
pick_here i types p e h s = rw s (ground (arith, h))

added-push_at :
    (i k : ℕ) (types : List BinningType) (p : Bin) (ps : List Bin) (e : List ℤ) (content : Content)
    → p.dim - 1 ≡ i + k
    → stored (get_binning_type types (p.dim - 1)) p ≡ some e
    → added i types ps (push_at k e content) ≡ added i types (p ∷ ps) content
unfolding added
added-push_at i k types p ps e [] h s = refl
added-push_at i zero types p ps e (es ∷ content) h s =
    rw
      (
        pick_here i types p e (omega (arith, h)) s,
        append_assoc es (e ∷ []) (picked i types ps),
        added_other (i + 1) types p ps content (inl (omega (arith, h))),
      )
      refl
added-push_at i (suc k) types p ps e (es ∷ content) h s =
    rw
      (
        pick_above i types p (omega (arith, h)),
        added-push_at (i + 1) k types p ps e content (omega (arith, h)) s,
      )
      refl
  where
    pick_above : (i : ℕ) (types : List BinningType) (p : Bin) → i < p.dim - 1 → pick i types p ≡ []
    pick_above i types p h = ground (arith, h)

collect-added :
    (types : List BinningType) (ps : List Bin) (content : Content)
    → collect types ps content ≡ added 0 types ps content
unfolding collect
collect-added types [] content = sym (added_nothing 0 types content)
collect-added types (p ∷ ps) content =
    collect-added types ps (collect_one types p content)
    ∙ elim (Option-cases (stored (get_binning_type types (p.dim - 1)) p)) [
      | inl e ↦ rw (e, collect_one) (sym (added_other 0 types p ps content (inr e)))
      | inr (n, e) ↦
          rw (e, collect_one) (added-push_at 0 (p.dim - 1) types p ps n content (omega arith) e)
    ]

added-picks :
    (i n : ℕ) (types : List BinningType) (ps : List Bin)
    → added i types ps (no_content n) ≡ picks i n types ps
unfolding added
added-picks i zero types ps = refl
added-picks i (suc n) types ps = rw (added-picks (i + 1) n types ps) refl

pub length-picks :
    (i n : ℕ) (types : List BinningType) (ps : List Bin) → length (picks i n types ps) ≡ n
length-picks i zero types ps = refl
length-picks i (suc n) types ps = ap suc (length-picks (i + 1) n types ps)

stored-IsEntry : (t : BinningType) (p : Bin) → All IsEntry (listed (stored t p))
stored-IsEntry BinningType.single p = (refl, tt)
stored-IsEntry BinningType.multiple p = (refl, tt)
stored-IsEntry BinningType.user p = (refl, tt)
stored-IsEntry BinningType.undefined p = tt

picked-IsEntry :
    (i : ℕ) (types : List BinningType) (ps : List Bin) → All IsEntry (picked i types ps)
picked-IsEntry i types [] = tt
picked-IsEntry i types (p ∷ ps) =
    All-append IsEntry (pick i types p) (picked i types ps) one (picked-IsEntry i types ps)
  where
    one : All IsEntry (pick i types p)
    one =
        if_cases (All IsEntry) (p.dim - 1 == i)
          (λ h. stored-IsEntry (get_binning_type types (p.dim - 1)) p) (λ h. tt)

pub picks-AreEntries :
    (i n : ℕ) (types : List BinningType) (ps : List Bin) → AreEntries (picks i n types ps)
picks-AreEntries i zero types ps = tt
picks-AreEntries i (suc n) types ps =
    (picked-IsEntry i types ps, picks-AreEntries (i + 1) n types ps)

-- The contents that `FillAll` collects.
pub collect-picks :
    (types : List BinningType) (ps : List Bin)
    → collect types ps (no_content (length types)) ≡ picks 0 (length types) types ps
collect-picks types ps =
    collect-added types ps (no_content (length types)) ∙ added-picks 0 (length types) types ps
