-- ===== src/Server/Table.antt =====
-- http/NGnHttpServer.cxx: the table of what a request makes of the history, and lemmas on its entries.
use ndmspc.Base.{
  ◌-◌, ◌≡◌, refl, ap, false, ◌&&◌, not, List, [], ◌∷◌, ◌++◌, map, none, some, Bytes, length, arith,
  length-append,
}
use ndmspc.Server.Defs.{
  Entry, Method, post, deletes, gets, Reply, success, failure, unreadable, Server, is_named,
}
use ndmspc.Server.Removing.{before, before-from, deletion, from, has}
use ndmspc.Server.Requests.{Outcome, answered, exception, set_last_out}

module _ {P : Type 0} where
  pub has-before :
      (name : Bytes) (es : List (Entry P))
      → has name es ≡ false
      → (before name es ≡ es) × (from name es ≡ [])
  has-before name [] h = (refl, refl)
  has-before name (e ∷ es) h =
      let k = has-before name es (ground arith) in rw (h_named, k.0, k.1) (refl, refl)
    where
      h_named : (is_named name e && not (has name es)) ≡ false
      h_named = ground arith

  pub length-from :
      (name : Bytes) (es : List (Entry P))
      → length es - length (before name es) ≡ length (from name es)
  length-from name es =
      omega (arith, length-append (before name es) (from name es), ap length (before-from name es))

  pub set_last_out-append :
      (p : P) (es : List (Entry P)) (e : Entry P)
      → set_last_out p (es ++ e ∷ []) ≡ es ++ record e { payload_out = some p } ∷ []
  unfolding set_last_out
  set_last_out-append p [] e = refl
  set_last_out-append p (x ∷ []) e = refl
  set_last_out-append p (x ∷ y ∷ es) e = ap (◌∷◌ x) (set_last_out-append p (y ∷ es) e)

  -- The server behind the removal of the last entry of this name and of all that follow it.
  abbrev pub rolled_back : Bytes → Server P → Server P
  rolled_back name s = record s {
    entries = before name s.entries;
    calls = map deletion (from name s.entries) ++ s.calls;
  }

  -- The entry of a request whose handler has not answered.
  abbrev pub fresh : Bytes → P → Entry P
  fresh path p = record { name = path; payload_in = p; payload_out = none }

  -- What a request makes of a server, by the reply of its handler.
  abbrev pub handled : Method → Bytes → P → Reply P → Server P → Server P × Outcome
  handled post path p (success out) s =
      let t = rolled_back path s in
      (
        record t {
          entries =
              t.entries ++ record { name = path; payload_in = p; payload_out = some out } ∷ [];
          calls = (post, path) ∷ t.calls;
        },
        answered,
      )
  handled post path p (failure out) s =
      let t = rolled_back path s in
      (record t { calls = (deletes, path) ∷ (post, path) ∷ t.calls }, answered)
  handled post path p unreadable s =
      let t = rolled_back path s in
      (
        record t { entries = t.entries ++ fresh path p ∷ []; calls = (post, path) ∷ t.calls },
        exception,
      )
  handled deletes path p (success out) s =
      (rolled_back path (record s { calls = (deletes, path) ∷ s.calls }), answered)
  handled deletes path p (failure out) s =
      (record s { calls = (deletes, path) ∷ s.calls }, answered)
  handled deletes path p unreadable s = (record s { calls = (deletes, path) ∷ s.calls }, exception)
  handled gets path p (success out) s = (record s { calls = (gets, path) ∷ s.calls }, answered)
  handled gets path p (failure out) s = (record s { calls = (gets, path) ∷ s.calls }, answered)
  handled gets path p unreadable s = (record s { calls = (gets, path) ∷ s.calls }, exception)
