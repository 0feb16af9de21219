-- ===== src/Server/Requests.antt =====
-- http/NGnHttpServer.cxx: what `ProcessRequest` does with the history, for a path below /api/ and a
-- body that is JSON.
use ndmspc.Base.Dict
use ndmspc.Base.Int.{sub_ℕ}
use ndmspc.Base.{
  ℕ, if◌then◌else◌, Bool, true, false, ◌&&◌, ◌||◌, List, [], ◌∷◌, ◌++◌, Option, none, some, Bytes,
  bytes_dec, length, is_some,
}
use ndmspc.Server.Defs.{
  Entry, Method, post, deletes, gets, Removal, crashed, Reply, success, failure, unreadable, Server,
  add_entry, call, remove_entry, remove_index,
}
use ndmspc.Supervisor.Loop.Defs.{is_bytes}

pub record Request (P : Type 0) : Type 0 where
  pub method : Method
  pub path : Bytes
  pub payload : P

-- How a request ends; `exception` is that of a result which is no text, and `down` the call of a
-- null pointer.
pub data Outcome : Type 0 where
  answered unsupported exception down : Outcome

abbrev slash : ℕ
slash = b'/'

abbrev openapi : Bytes
openapi = b'o' ∷ b'p' ∷ b'e' ∷ b'n' ∷ b'a' ∷ b'p' ∷ b'i' ∷ []

abbrev inspector : Bytes
inspector = b'i' ∷ b'n' ∷ b's' ∷ b'p' ∷ b'e' ∷ b'c' ∷ b't' ∷ b'o' ∷ b'r' ∷ []

-- "openapi/inspector" and "inspector/openapi"
abbrev pub openapi_inspector : Bytes
openapi_inspector = openapi ++ slash ∷ inspector

abbrev pub inspector_openapi : Bytes
inspector_openapi = inspector ++ slash ∷ openapi

abbrev pub is_schema : Bytes → Bool
is_schema path = is_bytes path openapi_inspector || is_bytes path inspector_openapi

module _ {P : Type 0} where
  -- `historyEntry->SetPayloadOut`, on the entry that was added last.
  unfoldable pub set_last_out : P → List (Entry P) → List (Entry P)
  set_last_out p [] = []
  set_last_out p (e ∷ []) = record e { payload_out = some p } ∷ []
  set_last_out p (e ∷ f ∷ es) = e ∷ set_last_out p (f ∷ es)

  abbrev pub ends_with : Server P × Removal → Server P × Outcome
  ends_with (s, crashed) = (s, down)
  ends_with (s, r) = (s, answered)

  abbrev pub new_entry : Request P → Entry P
  new_entry q = record { name = q.path; payload_in = q.payload; payload_out = none }

module _ {P : Type 0} (answer : List (Method × Bytes) → Method → Bytes → P → Reply P) where
  -- Behind the call of the handler, with a history.
  unfoldable pub finish : Method → Bytes → Reply P → Server P → Server P × Outcome
  finish post path (success p) s = (record s { entries = set_last_out p s.entries }, answered)
  finish deletes path (success p) s = ends_with (remove_entry answer path s)
  finish gets path (success p) s = (s, answered)
  finish post path (failure p) s = ends_with (remove_index answer (sub_ℕ (length s.entries) 1) s)
  finish deletes path (failure p) s = (s, answered)
  finish gets path (failure p) s = (s, answered)
  finish m path unreadable s = (s, exception)

  unfoldable pub after_call : Request P → Server P × Option (Reply P) → Server P × Outcome
  after_call q (s, none) = (s, down)
  after_call q (s, some reply) =
      if s.use_history then finish q.method q.path reply s else (s, answered)

  abbrev pub is_post : Method → Bool
  is_post post = true
  is_post m = false

  unfoldable pub respond : Request P → Server P → Server P × Outcome
  respond q s = after_call q (call answer q.method q.path q.payload s)

  unfoldable pub after_add : Request P → Server P × Removal → Server P × Outcome
  after_add q (s, crashed) = (s, down)
  after_add q (s, r) = respond q s

  unfoldable pub start : Request P → Server P → Server P × Outcome
  start q s =
      if s.use_history && is_post q.method
      then after_add q (add_entry answer (new_entry q) s)
      else respond q s

  -- `ProcessRequest`
  unfoldable pub process_request : Request P → Server P → Server P × Outcome
  process_request q s =
      if is_schema q.path || is_some (Dict.find bytes_dec q.path s.handlers)
      then start q s
      else (s, unsupported)

  -- Requests one after the other, each on the server that the one before it leaves.
  unfoldable pub serve : List (Request P) → Server P → Server P × List Outcome
  serve [] s = (s, [])
  serve (q ∷ qs) s =
      let r = process_request q s in let rest = serve qs r.0 in (rest.0, r.1 ∷ rest.1)
