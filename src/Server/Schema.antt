-- ===== src/Server/Schema.antt =====
-- http/NGnHttpServer.cxx: the request for the schema of the inspector.
use ndmspc.Base.Dict
use ndmspc.Base.{
  ◌≡◌, ap, ◌∙◌, true, ◌&&◌, ◌||◌, List, [], ◌∷◌, ◌++◌, none, Bytes, bytes_dec, is_some, arith,
  if_cases,
}
use ndmspc.Server.Defs.{Method, Reply, Server, call, call_found}
use ndmspc.Server.History.{add_entry-rolled_back}
use ndmspc.Server.Table.{rolled_back}
use ndmspc.Server.Removing.{AreSet}
use ndmspc.Server.Requests.{
  Outcome, down, Request, after_add, after_call, is_post, is_schema, new_entry, process_request,
  respond, start,
}

module _ {P : Type 0} (answer : List (Method × Bytes) → Method → Bytes → P → Reply P) where
  abbrev IsDown : Server P × Outcome → Type 0
  IsDown r = r.1 ≡ down

  respond_unset :
      (q : Request P) (s : Server P)
      → Dict.find bytes_dec q.path s.handlers ≡ none
      → IsDown (respond answer q s)
  unfolding respond call call_found after_call
  respond_unset q s unset =
      ap (λ o. (after_call answer q (call_found answer o q.method q.path q.payload s)).1) unset

  -- With handlers for all entries but none for the path, a request for the schema of the inspector
  -- ends in the call of a null pointer, whatever its method is, with a history or without.
  pub process_request-down :
      (q : Request P) (s : Server P)
      → is_schema q.path ≡ true
      → Dict.find bytes_dec q.path s.handlers ≡ none
      → AreSet s.handlers s.entries
      → (process_request answer q s).1 ≡ down
  unfolding process_request start after_add
  process_request-down q s schema unset h =
      let u = record (rolled_back q.path s) {
        entries = (rolled_back q.path s).entries ++ new_entry q ∷ [];
      } in
      if_cases IsDown (is_schema q.path || is_some (Dict.find bytes_dec q.path s.handlers))
        (λ y.
          if_cases IsDown (s.use_history && is_post answer q.method)
            (λ post.
              ap (λ a. (after_add answer q a).1) (add_entry-rolled_back answer (new_entry q) s h)
              ∙ respond_unset q u unset)
            (λ n. respond_unset q s unset))
        (λ n. absurd (ground arith))
