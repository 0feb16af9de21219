-- ===== src/Server/Names.antt =====
-- http/NGnHttpServer.cxx: the names in the history over any number of requests.
use ndmspc.Base.Dict
use ndmspc.Base.{
  subst, ◌⊎◌, ◌≡◌, refl, sym, ap, ◌∙◌, Bool, true, false, ◌&&◌, ◌||◌, not, List, [], ◌∷◌, ◌++◌,
  none, some, Bytes, bytes_dec, is_some, arith, All, All-append, if_cases, ite, inl, inr,
  Bool-cases,
}
use ndmspc.Server.Defs.{
  Entry, Method, post, deletes, gets, Reply, success, failure, unreadable, Server, is_named,
}
use ndmspc.Server.History.{calls_before, process_request-handled}
use ndmspc.Server.Table.{handled, rolled_back, fresh}
use ndmspc.Server.Removing.{AreSet, before, has}
use ndmspc.Server.Requests.{Outcome, down, Request, is_schema, process_request, serve}

abbrev pub is_down : Outcome → Bool
is_down down = true
is_down o = false

module _ {P : Type 0} where
  -- No name is there twice.
  abbrev pub AreOnce : List (Entry P) → Type 0
  AreOnce [] = Unit
  AreOnce (e ∷ es) = (has e.name es ≡ false) × AreOnce es

  is_named_same : (name : Bytes) (e : Entry P) → is_named name e ≡ true → name ≡ e.name
  is_named_same name e h =
      elim (bytes_dec name e.name) as (λ d. ite d true false ≡ true → name ≡ e.name) [
        | yes same ↦ λ h. same
        | no differ ↦ λ h. absurd (ground arith)
      ]
        h

  is_named_refl : (name : Bytes) (e : Entry P) → name ≡ e.name → is_named name e ≡ true
  is_named_refl name e same = elim (bytes_dec name e.name) as (λ d. ite d true false ≡ true) [
    | yes h ↦ refl
    | no differ ↦ absurd (differ same)
  ]

  is_named_sym : (e f : Entry P) → is_named e.name f ≡ false → is_named f.name e ≡ false
  is_named_sym e f h = elim (Bool-cases (is_named f.name e)) [
    | inl here ↦
        (let k = is_named_refl e.name f (sym (is_named_same f.name e here)) in
          absurd (ground arith))
    | inr other ↦ other
  ]

  has-before :
      (x name : Bytes) (es : List (Entry P)) → has x es ≡ false → has x (before name es) ≡ false
  has-before x name [] h = refl
  has-before x name (e ∷ es) h = let ih = has-before x name es (ground arith) in ground arith

  has-before_self :
      (name : Bytes) (es : List (Entry P)) → AreOnce es → has name (before name es) ≡ false
  has-before_self name [] once = refl
  has-before_self name (e ∷ es) once =
      let ih = has-before_self name es once.1 in
      elim (Bool-cases (is_named name e)) [
        | inl here ↦
            (let k : has name es ≡ false =
                ap (λ x. has x es) (is_named_same name e here) ∙ once.0 in
              ground arith)
        | inr other ↦ ground arith
      ]

  before-AreOnce : (name : Bytes) (es : List (Entry P)) → AreOnce es → AreOnce (before name es)
  before-AreOnce name [] once = once
  before-AreOnce name (e ∷ es) once =
      if_cases AreOnce (is_named name e && not (has name es)) (λ y. tt)
        (λ n. (has-before e.name name es once.0, before-AreOnce name es once.1))

  has-append :
      (x : Bytes) (es : List (Entry P)) (e : Entry P)
      → has x es ≡ false
      → is_named x e ≡ false
      → has x (es ++ e ∷ []) ≡ false
  has-append x [] e h k = ground arith
  has-append x (f ∷ es) e h k = let ih = has-append x es e (ground arith) k in ground arith

  append-AreOnce :
      (es : List (Entry P)) (e : Entry P)
      → has e.name es ≡ false
      → AreOnce es
      → AreOnce (es ++ e ∷ [])
  append-AreOnce [] e h once = (refl, tt)
  append-AreOnce (x ∷ es) e h once = (
    has-append x.name es e once.0 (is_named_sym e x (ground arith)),
    append-AreOnce es e (ground arith) once.1,
  )

  AreSet-before :
      (handlers : Dict.Dict Bytes Bool) (name : Bytes) (es : List (Entry P))
      → AreSet handlers es
      → AreSet handlers (before name es)
  AreSet-before handlers name [] h = h
  AreSet-before handlers name (e ∷ es) h =
      if_cases (AreSet handlers) (is_named name e && not (has name es)) (λ y. tt)
        (λ n. (h.0, AreSet-before handlers name es h.1))

  -- A server with a history, in which no name is twice, and handlers for all that is in it.
  abbrev pub IsKept : Server P → Type 0
  IsKept s = (s.use_history ≡ true) × AreSet s.handlers s.entries × AreOnce s.entries

  -- The path of the request has a handler, or no entry among the handlers and is not that of the
  -- schema.
  abbrev pub IsServed : Dict.Dict Bytes Bool → Request P → Type 0
  IsServed handlers q =
      (Dict.find bytes_dec q.path handlers ≡ some true)
      ⊎ ((is_schema q.path ≡ false) × (Dict.find bytes_dec q.path handlers ≡ none))

  -- What a request keeps.
  abbrev Keeps : Server P → Server P × Outcome → Type 0
  Keeps s r = IsKept r.0 × (r.0.handlers ≡ s.handlers) × (is_down r.1 ≡ false)

  rolled_back-IsKept : (name : Bytes) (s : Server P) → IsKept s → IsKept (rolled_back name s)
  rolled_back-IsKept name s (history, set, once) =
      (history, AreSet-before s.handlers name s.entries set, before-AreOnce name s.entries once)

  with_last :
      (name : Bytes) (s : Server P) (e : Entry P)
      → name ≡ e.name
      → Dict.find bytes_dec e.name s.handlers ≡ some true
      → IsKept s
      → IsKept (record s { entries = before name s.entries ++ e ∷ [] })
  with_last name s e same known (history, set, once) = (
    history,
    All-append (λ e. Dict.find bytes_dec e.name s.handlers ≡ some true) (before name s.entries)
        (e ∷ []) (AreSet-before s.handlers name s.entries set) (known, tt),
    append-AreOnce (before name s.entries) e
        (ap (λ x. has x (before name s.entries)) (sym same) ∙ has-before_self name s.entries once)
        (before-AreOnce name s.entries once),
  )

  handled-IsKept :
      (m : Method) (path : Bytes) (p : P) (r : Reply P) (s : Server P)
      → Dict.find bytes_dec path s.handlers ≡ some true
      → IsKept s
      → Keeps s (handled m path p r s)
  handled-IsKept post path p (success out) s known kept =
      let e : Entry P = record { name = path; payload_in = p; payload_out = some out } in
      (with_last path s e refl known kept, refl, refl)
  handled-IsKept post path p (failure out) s known kept =
      (rolled_back-IsKept path s kept, refl, refl)
  handled-IsKept post path p unreadable s known kept =
      (with_last path s (fresh path p) refl known kept, refl, refl)
  handled-IsKept deletes path p (success out) s known kept =
      (rolled_back-IsKept path s kept, refl, refl)
  handled-IsKept deletes path p (failure out) s known kept = (kept, refl, refl)
  handled-IsKept deletes path p unreadable s known kept = (kept, refl, refl)
  handled-IsKept gets path p (success out) s known kept = (kept, refl, refl)
  handled-IsKept gets path p (failure out) s known kept = (kept, refl, refl)
  handled-IsKept gets path p unreadable s known kept = (kept, refl, refl)

module _ {P : Type 0} (answer : List (Method × Bytes) → Method → Bytes → P → Reply P) where
  process_request-IsKept :
      (q : Request P) (s : Server P)
      → IsServed s.handlers q
      → IsKept s
      → Keeps s (process_request answer q s)
  unfolding process_request
  process_request-IsKept q s (inl known) kept =
      subst (Keeps s)
        (sym (process_request-handled answer q.method q.path q.payload s kept.0 known kept.1))
        (handled-IsKept q.method q.path q.payload
          (answer (calls_before answer q.method q.path s) q.method q.path q.payload) s known kept)
  process_request-IsKept q s (inr (plain, unset)) kept =
      if_cases (Keeps s) (is_schema q.path || is_some (Dict.find bytes_dec q.path s.handlers))
        (λ y. absurd (ground arith)) (λ n. (kept, refl, refl))

  -- Requests, each with a handler for its path or refused as unsupported, on a server with a
  -- history in which no name is twice and with handlers for all entries: no request calls a null
  -- pointer, and behind them all no name is twice and all entries have handlers again.
  pub serve-IsKept :
      (qs : List (Request P)) (s : Server P)
      → All (IsServed s.handlers) qs
      → IsKept s
      → IsKept (serve answer qs s).0 × All (λ o. is_down o ≡ false) (serve answer qs s).1
  unfolding serve
  serve-IsKept [] s h kept = (kept, tt)
  serve-IsKept (q ∷ qs) s h kept =
      let k = process_request-IsKept q s h.0 kept in
      let t = (process_request answer q s).0 in
      let rest = serve-IsKept qs t (subst (λ hs. All (IsServed hs) qs) (sym k.1) h.1) k.0 in
      (rest.0, (k.2, rest.1))
