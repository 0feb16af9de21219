-- ===== src/Server/History.antt =====
-- http/NGnHttpServer.cxx and http/NGnWorkspace.cxx: what requests make of the history.
use ndmspc.Base.Dict
use ndmspc.Base.Int.{pos, sub_ℕ}
use ndmspc.Base.{
  ◌≡◌, refl, sym, ap, ◌∙◌, if◌then◌else◌, true, false, ◌&&◌, ◌||◌, List, [], ◌∷◌, ◌++◌, map, some,
  Bytes, bytes_dec, length, is_some, arith, length-append, Bool-cases, inl, inr, if_cases,
}
use ndmspc.Server.Defs.{
  Entry, Method, post, deletes, gets, removed, refused, Reply, success, failure, unreadable, Server,
  add_entry, call, call_found, clear_entries, remove_entry, remove_from, remove_index,
}
use ndmspc.Server.Removing.{
  AreSet, AreSet-from, before, before-from, deletion, find_down-before, from, has, remove_at-last,
  remove_down-append,
}
use ndmspc.Server.Requests.{
  Request, after_add, after_call, finish, is_schema, process_request, respond, start,
}
use ndmspc.Server.Table.{has-before, length-from, set_last_out-append, rolled_back, fresh, handled}

module _ {P : Type 0} (answer : List (Method × Bytes) → Method → Bytes → P → Reply P) where
  remove_entry-rolled_back :
      (name : Bytes) (s : Server P)
      → AreSet s.handlers s.entries
      → remove_entry answer name s
        ≡ (rolled_back name s, if has name s.entries then removed else refused)
  unfolding remove_entry remove_from
  remove_entry-rolled_back name s h = elim (Bool-cases (has name s.entries)) [
    | inl here ↦
        rw (find_down-before name s.entries, here, length-from name s.entries)
          (remove_down-append answer (before name s.entries) (from name s.entries) s
            (sym (before-from name s.entries)) (AreSet-from answer s.handlers name s.entries h))
    | inr gone ↦
        (let k = has-before name s.entries gone in
          rw (find_down-before name s.entries, gone, k.0, k.1) refl)
  ]

  -- With handlers for all entries, `AddEntry` removes the last entry of the same name and all that
  -- follow it, the last one first, with a call of the DELETE handler of each, and puts the new one
  -- behind the rest.
  pub add_entry-rolled_back :
      (e : Entry P) (s : Server P)
      → AreSet s.handlers s.entries
      → let t = rolled_back e.name s in
        add_entry answer e s ≡ (record t { entries = t.entries ++ e ∷ [] }, removed)
  unfolding add_entry
  add_entry-rolled_back e s h = rw (remove_entry-rolled_back e.name s h) (ground arith)

  -- `Clear` calls the DELETE handler of each entry, the last one first, and leaves none.
  pub clear_entries_all :
      (s : Server P)
      → AreSet s.handlers s.entries
      → clear_entries answer s
        ≡ (record s { entries = []; calls = map deletion s.entries ++ s.calls }, removed)
  unfolding clear_entries
  clear_entries_all s h = remove_down-append answer [] s.entries s refl h

  last_index :
      (es : List (Entry P)) (e : Entry P) → sub_ℕ (length (es ++ e ∷ [])) 1 ≡ pos (length es)
  last_index es e = ground (arith, length-append es (e ∷ []))

  -- The end of a POST whose entry has been put behind the others.
  finish_post :
      (path : Bytes) (p : P) (reply : Reply P) (s : Server P)
      → Dict.find bytes_dec path s.handlers ≡ some true
      → let t = rolled_back path s in
        let e = fresh path p in
        finish answer post path reply
          (record t { entries = t.entries ++ e ∷ []; calls = (post, path) ∷ t.calls })
        ≡ handled post path p reply s
  unfolding finish remove_index
  finish_post path p (success out) s h =
      rw (set_last_out-append out (before path s.entries) (fresh path p)) refl
  finish_post path p (failure out) s h =
      let t = rolled_back path s in
      let e = fresh path p in
      rw
        (
          last_index t.entries e,
          remove_at-last answer t.entries e (record t { calls = (post, path) ∷ t.calls }) h,
        )
        refl
  finish_post path p unreadable s h = refl

  finish_delete :
      (path : Bytes) (p : P) (reply : Reply P) (s : Server P)
      → AreSet s.handlers s.entries
      → finish answer deletes path reply (record s { calls = (deletes, path) ∷ s.calls })
        ≡ handled deletes path p reply s
  unfolding finish
  finish_delete path p (success out) s h =
      rw (remove_entry-rolled_back path (record s { calls = (deletes, path) ∷ s.calls }) h)
        (ground arith)
  finish_delete path p (failure out) s h = refl
  finish_delete path p unreadable s h = refl

  finish_get :
      (path : Bytes) (p : P) (reply : Reply P) (s : Server P)
      → finish answer gets path reply (record s { calls = (gets, path) ∷ s.calls })
        ≡ handled gets path p reply s
  unfolding finish
  finish_get path p (success out) s = refl
  finish_get path p (failure out) s = refl
  finish_get path p unreadable s = refl

  -- The calls before that of the handler.
  abbrev pub calls_before : Method → Bytes → Server P → List (Method × Bytes)
  calls_before post path s = (rolled_back path s).calls
  calls_before m path s = s.calls

  start_known :
      (q : Request P) (s : Server P)
      → Dict.find bytes_dec q.path s.handlers ≡ some true
      → process_request answer q s ≡ start answer q s
  unfolding process_request
  start_known q s known =
      if_cases (λ r. r ≡ start answer q s)
        (is_schema q.path || is_some (Dict.find bytes_dec q.path s.handlers)) (λ y. refl)
        (λ n. absurd (ground arith))

  -- The call of a handler that is a function, with a history.
  respond_known :
      (q : Request P) (s : Server P)
      → s.use_history ≡ true
      → Dict.find bytes_dec q.path s.handlers ≡ some true
      → respond answer q s
        ≡ finish answer q.method q.path
            (answer s.calls q.method q.path q.payload)
            (record s { calls = (q.method, q.path) ∷ s.calls })
  unfolding respond call call_found after_call
  respond_known q s history known =
      ap (λ o. after_call answer q (call_found answer o q.method q.path q.payload s)) known
      ∙ if_cases
          (λ r.
            r
            ≡ finish answer q.method q.path (answer s.calls q.method q.path q.payload)
                (record s { calls = (q.method, q.path) ∷ s.calls }))
          s.use_history (λ y. refl) (λ n. absurd (cc))

  -- With a history, and with handlers that are functions for the path and for all entries, a
  -- request is handled as the table says: POST rolls the history back to before the last entry of
  -- its path and puts a new entry behind, which goes again if the handler reports no success, but
  -- stays if the result of the handler cannot be read. DELETE rolls it back if the handler reports
  -- success. Each entry that goes is told to its DELETE handler, the last one first.
  pub process_request-handled :
      (m : Method) (path : Bytes) (p : P) (s : Server P)
      → s.use_history ≡ true
      → Dict.find bytes_dec path s.handlers ≡ some true
      → AreSet s.handlers s.entries
      → process_request answer (record { method = m; path = path; payload = p }) s
        ≡ handled m path p (answer (calls_before m path s) m path p) s
  unfolding start after_add
  process_request-handled post path p s history known h =
      let q : Request P = record { method = post; path = path; payload = p } in
      let t = rolled_back path s in
      let u = record t { entries = t.entries ++ fresh path p ∷ [] } in
      start_known q s known
      ∙ if_cases (λ r. r ≡ respond answer q u) (s.use_history && true)
          (λ y. ap (after_add answer q) (add_entry-rolled_back (fresh path p) s h))
          (λ n. absurd (ground arith))
      ∙ respond_known q u history known
      ∙ finish_post path p (answer t.calls post path p) s known
  process_request-handled deletes path p s history known h =
      let q : Request P = record { method = deletes; path = path; payload = p } in
      start_known q s known
      ∙ if_cases (λ r. r ≡ respond answer q s) (s.use_history && false) (λ y. absurd (ground arith))
          (λ n. refl)
      ∙ respond_known q s history known
      ∙ finish_delete path p (answer s.calls deletes path p) s h
  process_request-handled gets path p s history known h =
      let q : Request P = record { method = gets; path = path; payload = p } in
      start_known q s known
      ∙ if_cases (λ r. r ≡ respond answer q s) (s.use_history && false) (λ y. absurd (ground arith))
          (λ n. refl)
      ∙ respond_known q s history known
      ∙ finish_get path p (answer s.calls gets path p) s
