-- ===== src/Binning/Ending.antt =====
-- core/NBinning.cxx: calls on the definitions that end.
use ndmspc.Base.Dict
use ndmspc.Base.{
  Bool, false, ◌≡◌, ◌⊎◌, inl, inr, refl, sym, true, List, [], ◌∷◌, ◌++◌, map, Option, some, Bytes,
  bytes_dec, is_some, arith, Option-cases, length, subst, if_cases,
}
use ndmspc.Binning.Defs.{Bin}
use ndmspc.Binning.Definitions.{
  Definition, Store, Widths, Bins, Call, after_fill, get_definition, set_current, fill_definition,
  add_definition, unless_exited, step, with_defaults, all_bins, is_empty,
}
use ndmspc.Binning.Fill.{Filled}
use ndmspc.Binning.Outcome.{fill_all_returns}

abbrev pub is_added : Bins → Bool
is_added (Bins.adds bins) = true
is_added bins = false

-- A new definition is for bins that can be added.
abbrev pub IsFillable : Store → Call → Type 0
IsFillable s (Call.adds_definition name widths) =
    (is_some (Dict.find bytes_dec name s.definitions) ≡ true)
    ⊎ (is_added (all_bins (length s.axes) 1 s.axes widths) ≡ true)
IsFillable s (Call.gets name) = Unit
IsFillable s (Call.sets name) = Unit

module _ (iterate : List Bin → List Bin) where
  -- What is left of the store when the call does not exit and is defined.
  abbrev pub Returns : Store → Option Store → Type 0
  Returns s o = (t : Store) × (o ≡ some t) × (t.axes ≡ s.axes)

  after_fill-Returns :
      (name : Bytes) (def : Definition) (s : Store) (f : Filled)
      → Returns s (unless_exited (after_fill name def s (some f)))
  after_fill-Returns name def s (Filled.throws axes) =
      ((after_fill name def s (some (Filled.throws axes))).1, refl, refl)
  after_fill-Returns name def s (Filled.fills axes total points) =
      ((after_fill name def s (some (Filled.fills axes total points))).1, refl, refl)

  fill_definition-Returns :
      (name : Bytes) (def : Definition) (s : Store) (bins : Bins)
      → is_added bins ≡ true
      → Returns s (unless_exited (fill_definition iterate name def s bins))
  fill_definition-Returns name def s Bins.exits h = absurd (ground (arith, h))
  fill_definition-Returns name def s Bins.undefined h = absurd (ground (arith, h))
  fill_definition-Returns name def s (Bins.adds bins) h =
      let (f, ran) = fill_all_returns (map (λ a. a.1) s.axes) (iterate bins) def.variable_axes in
      subst (λ o. Returns s (unless_exited (after_fill name def s o))) (sym ran)
        (after_fill-Returns name def s f)

  add_definition-Returns :
      (name : Bytes) (widths : Widths) (s : Store)
      → IsFillable s (Call.adds_definition name widths)
      → Returns s (unless_exited (add_definition iterate name widths s))
  unfolding add_definition
  add_definition-Returns name widths s h =
      elim (Option-cases (Dict.find bytes_dec name s.definitions)) [
        | inr (d, e) ↦ rw (e, add_definition) (s, refl, refl)
        | inl e ↦
            (let added : is_added (all_bins (length s.axes) 1 s.axes widths) ≡ true = elim h [
              | inl there ↦ absurd (ground (arith, e))
              | inr a ↦ a
            ] in
              let def : Definition = record {
                widths = with_defaults s.axes widths;
                variable_axes = [];
                points = [];
              } in
              let listed : Store = record s {
                definition_names = s.definition_names ++ name ∷ [];
                definitions = Dict.put bytes_dec name def s.definitions;
                current = name;
              } in
              rw (e, add_definition)
                (fill_definition-Returns name def listed (all_bins (length s.axes) 1 s.axes widths)
                  added))
      ]

  axes-get_definition : (name : Bytes) (s : Store) → (get_definition name s).1.axes ≡ s.axes
  unfolding get_definition
  axes-get_definition [] s =
      if_cases {A = Option Definition × Store} (λ r. r.1.axes ≡ s.axes) (is_empty s.current)
        (λ e. refl) (λ e. refl)
  axes-get_definition (x ∷ xs) s =
      elim (Option-cases (Dict.find bytes_dec (x ∷ xs) s.definitions)) [
        | inl e ↦ rw (e, get_definition) refl
        | inr (d, e) ↦ rw (e, get_definition) refl
      ]

  axes-set_current : (name : Bytes) (s : Store) → (set_current name s).axes ≡ s.axes
  unfolding set_current
  axes-set_current [] s = refl
  axes-set_current (x ∷ xs) s = elim (Option-cases (Dict.find bytes_dec (x ∷ xs) s.definitions)) [
    | inl e ↦ rw (e, set_current) refl
    | inr (d, e) ↦ rw (e, set_current) refl
  ]

  pub step-Returns : (call : Call) (s : Store) → IsFillable s call → Returns s (step iterate call s)
  unfolding step
  step-Returns (Call.adds_definition name widths) s h = add_definition-Returns name widths s h
  step-Returns (Call.gets name) s h = ((get_definition name s).1, refl, axes-get_definition name s)
  step-Returns (Call.sets name) s h = (set_current name s, refl, axes-set_current name s)
