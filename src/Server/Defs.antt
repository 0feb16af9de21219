-- ===== src/Server/Defs.antt =====
-- http/NGnWorkspace.cxx and the part of http/NGnHttpServer.cxx that keeps the history: the entries,
-- the handlers, and the calls of handlers. What a handler does is the parameter `answer`.
use ndmspc.Base.Dict
use ndmspc.Base.Int.{ℤ, pos, negsuc}
use ndmspc.Base.{
  ℕ, zero, suc, ◌+◌, ◌-◌, if◌then◌else◌, Bool, true, false, List, [], ◌∷◌, ◌++◌, Option, none, some,
  Bytes, bytes_dec, length, get_elem?, is_some, ite,
}

pub data Method : Type 0 where
  post deletes gets : Method

-- An entry of the history, with what was sent and what came out.
pub record Entry (P : Type 0) : Type 0 where
  pub name : Bytes
  pub payload_in : P
  pub payload_out : Option P

-- What a handler leaves in `out`: a result that is "success", another text or none, or a result
-- that is no text, which cannot be read.
pub data Reply (P : Type 0) : Type 0 where
  success failure : P → Reply P
  unreadable : Reply P

-- The server: a handler that is `false` is a null pointer, and the calls are kept newest first.
pub record Server (P : Type 0) : Type 0 where
  pub entries : List (Entry P)
  pub handlers : Dict.Dict Bytes Bool
  pub use_history : Bool
  pub calls : List (Method × Bytes)

-- How `RemoveEntry` ends; `crashed` is the call of a null pointer.
pub data Removal : Type 0 where
  removed refused crashed : Removal

abbrev pub is_crashed : Removal → Bool
is_crashed crashed = true
is_crashed r = false

module _ {A : Type 0} where
  -- `erase(begin() + i)`
  abbrev pub erase_at : ℕ → List A → List A
  erase_at i [] = []
  erase_at zero (x ∷ xs) = xs
  erase_at (suc i) (x ∷ xs) = x ∷ erase_at i xs

module _ {P : Type 0} where
  abbrev pub is_named : Bytes → Entry P → Bool
  is_named name e = ite (bytes_dec name e.name) true false

  -- The comparison with the entry at an index.
  abbrev pub matches : Bytes → Option (Entry P) → Bool
  matches name none = false
  matches name (some e) = is_named name e

  -- The loop of `RemoveEntry` over the indices below `n`, from the last one.
  unfoldable pub find_down : Bytes → List (Entry P) → ℕ → Option ℕ
  find_down name es zero = none
  find_down name es (suc i) =
      let rest = find_down name es i in if matches name (get_elem? es i) then some i else rest

module _ {P : Type 0} (answer : List (Method × Bytes) → Method → Bytes → P → Reply P) where
  unfoldable pub call_found :
      Option Bool → Method → Bytes → P → Server P → Server P × Option (Reply P)
  call_found (some true) m name p s =
      (record s { calls = (m, name) ∷ s.calls }, some (answer s.calls m name p))
  call_found o m name p s = (s, none)

  -- `fHttpHandlers[name](…)`; no reply is the call of a null pointer, behind which nothing is said
  -- of the server.
  unfoldable pub call : Method → Bytes → P → Server P → Server P × Option (Reply P)
  call m name p s = call_found (Dict.find bytes_dec name s.handlers) m name p s

  unfoldable pub remove_found : ℕ → Option (Entry P) → Server P → Server P × Removal
  remove_found i none s = (s, refused)
  remove_found i (some e) s =
      let called = call deletes e.name e.payload_in s in
      if is_some called.1
      then (record called.0 { entries = erase_at i called.0.entries }, removed)
      else (called.0, crashed)

  -- `RemoveEntry(int)` at an index that is not negative.
  unfoldable pub remove_at : ℕ → Server P → Server P × Removal
  remove_at i s = remove_found i (get_elem? s.entries i) s

  -- `RemoveEntry(int)`
  unfoldable pub remove_index : ℤ → Server P → Server P × Removal
  remove_index (pos i) s = remove_at i s
  remove_index (negsuc n) s = (s, refused)

  -- The entries at the indices from `i` on, `n` of them, the last one first.
  unfoldable pub remove_down : ℕ → ℕ → Server P → Server P × Removal
  remove_down i zero s = (s, removed)
  remove_down i (suc n) s =
      let r = remove_at (i + n) s in
      let rest = remove_down i n r.0 in if is_crashed r.1 then r else rest

  unfoldable pub remove_from : Option ℕ → Server P → Server P × Removal
  remove_from none s = (s, refused)
  remove_from (some i) s = remove_down i (length s.entries - i) s

  -- `RemoveEntry(const std::string &)`
  unfoldable pub remove_entry : Bytes → Server P → Server P × Removal
  remove_entry name s = remove_from (find_down name s.entries (length s.entries)) s

  -- `AddEntry`
  unfoldable pub add_entry : Entry P → Server P → Server P × Removal
  add_entry e s =
      let r = remove_entry e.name s in
      if is_crashed r.1 then r else (record r.0 { entries = r.0.entries ++ e ∷ [] }, removed)

  -- The loop of `Clear`.
  unfoldable pub clear_entries : Server P → Server P × Removal
  clear_entries s = remove_down 0 (length s.entries) s
