-- ===== src/Server/Removing.antt =====
-- http/NGnWorkspace.cxx: what `RemoveEntry` and `AddEntry` leave of the history.
use ndmspc.Base.Dict
use ndmspc.Base.{
  ℕ, zero, suc, ◌+◌, ◌≡◌, refl, sym, ap, ◌∙◌, if◌then◌else◌, Bool, true, false, ◌&&◌, ◌||◌, not,
  List, [], ◌∷◌, ◌++◌, map, append-nil, append_assoc, Option, none, some, Bytes, bytes_dec, length,
  get_elem?, arith, All, All-append, if_cases, length-append, Bool-cases, inl, inr,
}
use ndmspc.Server.Defs.{
  Entry, Method, deletes, removed, Reply, Server, call, call_found, erase_at, find_down, is_named,
  matches, remove_at, remove_down, remove_found,
}

module _ {A : Type 0} where
  get_elem?-last : (xs : List A) (x : A) → get_elem? (xs ++ x ∷ []) (length xs) ≡ some x
  get_elem?-last [] x = refl
  get_elem?-last (y ∷ xs) x = get_elem?-last xs x

  erase_at-last : (xs : List A) (x : A) → erase_at (length xs) (xs ++ x ∷ []) ≡ xs
  erase_at-last [] x = refl
  erase_at-last (y ∷ xs) x = ap (◌∷◌ y) (erase_at-last xs x)

  -- A list with these elements behind it, the last one first.
  abbrev onto : List A → List A → List A
  onto xs [] = xs
  onto xs (r ∷ rs) = onto xs rs ++ r ∷ []

  length-onto : (xs rs : List A) → length (onto xs rs) ≡ length xs + length rs
  length-onto xs [] = omega arith
  length-onto xs (r ∷ rs) = omega (arith, length-append (onto xs rs) (r ∷ []), length-onto xs rs)

  abbrev back : List A → List A
  back [] = []
  back (x ∷ xs) = back xs ++ x ∷ []

  onto-snoc : (xs rs : List A) (x : A) → onto xs (rs ++ x ∷ []) ≡ onto (xs ++ x ∷ []) rs
  onto-snoc xs [] x = refl
  onto-snoc xs (r ∷ rs) x = ap (λ ys. ys ++ r ∷ []) (onto-snoc xs rs x)

  onto-back : (xs ys : List A) → onto xs (back ys) ≡ xs ++ ys
  onto-back xs [] = sym (append-nil xs)
  onto-back xs (y ∷ ys) =
      onto-snoc xs (back ys) y ∙ onto-back (xs ++ y ∷ []) ys ∙ append_assoc xs (y ∷ []) ys

  length-back : (xs : List A) → length (back xs) ≡ length xs
  length-back [] = refl
  length-back (x ∷ xs) = omega (arith, length-append (back xs) (x ∷ []), length-back xs)

module _ {P : Type 0} where
  -- Whether there is an entry of this name.
  abbrev pub has : Bytes → List (Entry P) → Bool
  has name [] = false
  has name (e ∷ es) = is_named name e || has name es

  -- The entries before the last one of this name, all if there is none, and the rest of them.
  abbrev pub before : Bytes → List (Entry P) → List (Entry P)
  before name [] = []
  before name (e ∷ es) = if is_named name e && not (has name es) then [] else e ∷ before name es

  abbrev pub from : Bytes → List (Entry P) → List (Entry P)
  from name [] = []
  from name (e ∷ es) = if is_named name e && not (has name es) then e ∷ es else from name es

  pub before-from : (name : Bytes) (es : List (Entry P)) → before name es ++ from name es ≡ es
  before-from name [] = refl
  before-from name (e ∷ es) = ground (arith, before-from name es)

  find_down-cons :
      (name : Bytes) (e : Entry P) (es : List (Entry P)) (n : ℕ)
      → find_down name (e ∷ es) (suc n) ≡ elim (find_down name es n) as (λ _. Option ℕ) [
        | some k ↦ some (suc k)
        | none ↦ if is_named name e then some 0 else none
      ]
  unfolding find_down
  find_down-cons name e es zero = refl
  find_down-cons name e es (suc n) = elim (Bool-cases (matches name (get_elem? es n))) [
    | inl here ↦ rw here refl
    | inr other ↦ rw other (find_down-cons name e es n)
  ]

  pub find_down-before :
      (name : Bytes) (es : List (Entry P))
      → find_down name es (length es)
        ≡ (if has name es then some (length (before name es)) else none)
  find_down-before name [] = unfold find_down in refl
  find_down-before name (e ∷ es) =
      find_down-cons name e es (length es) ∙ rw (find_down-before name es) (ground arith)

  -- The calls for the removal of these entries, behind which the given calls were made.
  abbrev undone : List (Entry P) → List (Method × Bytes) → List (Method × Bytes)
  undone [] calls = calls
  undone (r ∷ rs) calls = undone rs ((deletes, r.name) ∷ calls)

  abbrev pub deletion : Entry P → Method × Bytes
  deletion e = (deletes, e.name)

  undone-snoc :
      (rs : List (Entry P)) (e : Entry P) (calls : List (Method × Bytes))
      → undone (rs ++ e ∷ []) calls ≡ deletion e ∷ undone rs calls
  undone-snoc [] e calls = refl
  undone-snoc (r ∷ rs) e calls = undone-snoc rs e ((deletes, r.name) ∷ calls)

  undone-back :
      (es : List (Entry P)) (calls : List (Method × Bytes))
      → undone (back es) calls ≡ map deletion es ++ calls
  undone-back [] calls = refl
  undone-back (e ∷ es) calls =
      undone-snoc (back es) e calls ∙ ap (◌∷◌ (deletion e)) (undone-back es calls)

  -- The handlers of these entries are functions.
  abbrev pub AreSet : Dict.Dict Bytes Bool → List (Entry P) → Type 0
  AreSet handlers es = All (λ e. Dict.find bytes_dec e.name handlers ≡ some true) es

module _ {P : Type 0} (answer : List (Method × Bytes) → Method → Bytes → P → Reply P) where
  pub remove_at-last :
      (es : List (Entry P)) (e : Entry P) (s : Server P)
      → Dict.find bytes_dec e.name s.handlers ≡ some true
      → remove_at answer (length es) (record s { entries = es ++ e ∷ [] })
        ≡ (record s { entries = es; calls = deletion e ∷ s.calls }, removed)
  unfolding remove_at remove_found call call_found
  remove_at-last es e s h = rw (get_elem?-last es e, h, erase_at-last es e) refl

  remove_down-onto :
      (es rs : List (Entry P)) (s : Server P)
      → AreSet s.handlers rs
      → remove_down answer (length es) (length rs) (record s { entries = onto es rs })
        ≡ (record s { entries = es; calls = undone rs s.calls }, removed)
  unfolding remove_down
  remove_down-onto es [] s h = refl
  remove_down-onto es (r ∷ rs) s h =
      rw (sym (length-onto es rs), remove_at-last (onto es rs) r s h.0)
        (remove_down-onto es rs (record s { calls = deletion r ∷ s.calls }) h.1)

  AreSet-back : (m : Dict.Dict Bytes Bool) (es : List (Entry P)) → AreSet m es → AreSet m (back es)
  AreSet-back m [] h = tt
  AreSet-back m (e ∷ es) h =
      All-append (λ e. Dict.find bytes_dec e.name m ≡ some true) (back es) (e ∷ [])
        (AreSet-back m es h.1) (h.0, tt)

  pub AreSet-from :
      (m : Dict.Dict Bytes Bool) (name : Bytes) (es : List (Entry P))
      → AreSet m es
      → AreSet m (from name es)
  AreSet-from m name [] h = tt
  AreSet-from m name (e ∷ es) h =
      if_cases (AreSet m) (is_named name e && not (has name es)) (λ y. h)
        (λ n. AreSet-from m name es h.1)

  -- The removal of the entries behind some.
  pub remove_down-append :
      (es gone : List (Entry P)) (s : Server P)
      → s.entries ≡ es ++ gone
      → AreSet s.handlers gone
      → remove_down answer (length es) (length gone) s
        ≡ (record s { entries = es; calls = map deletion gone ++ s.calls }, removed)
  remove_down-append es gone s e h =
      ap (λ xs. remove_down answer (length es) (length gone) (record s { entries = xs }))
        (e ∙ sym (onto-back es gone))
      ∙ ap (λ n. remove_down answer (length es) n (record s { entries = onto es (back gone) }))
          (sym (length-back gone))
      ∙ remove_down-onto es (back gone) s (AreSet-back s.handlers gone h)
      ∙ ap (λ calls. (record s { entries = es; calls = calls }, removed)) (undone-back gone s.calls)
