-- ===== src/Tests/Requesting.antt =====
-- http/NGnHttpServer.cxx: requests on a server with handlers for the paths a and b.
use ndmspc.Base.Dict
use ndmspc.Base.{
  ℕ, zero, suc, ◌+◌, All, ◌≡◌, refl, Bool, true, false, List, [], ◌∷◌, none, some, Bytes, bytes_dec,
  inl, inr,
}
use ndmspc.Server.Defs.{Entry, Method, post, deletes, gets, Reply, success, failure, Server}
use ndmspc.Server.History.{process_request-handled}
use ndmspc.Server.Table.{handled}
use ndmspc.Server.Names.{serve-IsKept, AreOnce, IsKept, is_down}
use ndmspc.Server.Requests.{down, is_schema, openapi_inspector, process_request, serve, Request}
use ndmspc.Server.Schema.{process_request-down}

abbrev path_a : Bytes
path_a = b'a' ∷ []

abbrev path_b : Bytes
path_b = b'b' ∷ []

-- A handler that succeeds, but for the payload 0.
abbrev answer : List (Method × Bytes) → Method → Bytes → ℕ → Reply ℕ
answer calls m path zero = failure 1
answer calls m path (suc p) = success (suc p + 1)

abbrev handlers : Dict.Dict Bytes Bool
handlers = (path_a, true) ∷ (path_b, true) ∷ []

abbrev entry : Bytes → ℕ → Entry ℕ
entry path p = record { name = path; payload_in = p; payload_out = some (p + 1) }

-- The history has a call of a, then one of b.
abbrev server : Server ℕ
server = record {
  entries = entry path_a 3 ∷ entry path_b 5 ∷ [];
  handlers = handlers;
  use_history = true;
  calls = (post, path_b) ∷ (post, path_a) ∷ [];
}

abbrev schema_request : Request ℕ
schema_request = record { method = post; path = openapi_inspector; payload = 2 }

-- POST a again, of which the handler then reports a failure, DELETE b and GET c.
abbrev requests : List (Request ℕ)
requests =
    record { method = post; path = path_a; payload = 4 }
    ∷ record { method = post; path = path_a; payload = 0 }
    ∷ record { method = deletes; path = path_b; payload = 1 }
    ∷ record { method = gets; path = b'c' ∷ []; payload = 1 }
    ∷ []

find_a : Dict.find bytes_dec path_a handlers ≡ some true
find_a = unfold Dict.find bytes_dec in refl

find_b : Dict.find bytes_dec path_b handlers ≡ some true
find_b = unfold Dict.find bytes_dec in refl

find_c : Dict.find bytes_dec (b'c' ∷ []) handlers ≡ none
find_c = unfold Dict.find bytes_dec in refl

find_schema : Dict.find bytes_dec openapi_inspector handlers ≡ none
find_schema = unfold Dict.find bytes_dec in refl

is_schema_inspector : is_schema openapi_inspector ≡ true
is_schema_inspector = unfold bytes_dec in refl

is_schema_c : is_schema (b'c' ∷ []) ≡ false
is_schema_c = unfold bytes_dec in refl

process_request-handled_example :
    process_request answer (record { method = post; path = path_a; payload = 4 }) server
    ≡ handled post path_a 4 (success 5) server
process_request-handled_example =
    process_request-handled answer post path_a 4 server refl find_a (find_a, (find_b, tt))

process_request-down_example : (process_request answer schema_request server).1 ≡ down
process_request-down_example =
    process_request-down answer schema_request server is_schema_inspector find_schema
      (find_a, (find_b, tt))

once : AreOnce server.entries
once = unfold bytes_dec in (refl, (refl, tt))

serve-IsKept_example :
    IsKept (serve answer requests server).0
    × All (λ o. is_down o ≡ false) (serve answer requests server).1
serve-IsKept_example =
    serve-IsKept answer requests server
      (inl find_a, (inl find_a, (inl find_b, (inr (is_schema_c, find_c), tt))))
      (refl, (find_a, (find_b, tt)), once)
