-- ===== src/Binning/Store.antt =====
-- core/NBinning.cxx: the store of the binning definitions over any calls.
use ndmspc.Base.Dict
use ndmspc.Base.{◌≡◌, ◌⊎◌, true, List, [], map, some, Bytes, bytes_dec, is_some}
use ndmspc.Binning.Definitions.{Definition, Store}

abbrev pub names_of : Dict.Dict Bytes Definition → List Bytes
names_of m = map (λ e. e.0) m

-- The names are those of the definitions, none twice, and the current one is empty or among them.
pub record IsConsistent (s : Store) : Type 0 where
  pub names : s.definition_names ≡ names_of s.definitions
  pub distinct : Dict.IsDistinct bytes_dec s.definitions
  pub known : (s.current ≡ []) ⊎ (is_some (Dict.find bytes_dec s.current s.definitions) ≡ true)

-- What is left of a definition that was there.
abbrev pub Keeps : Store → Store → Type 0
Keeps s t =
    (name : Bytes) (d : Definition)
    → Dict.find bytes_dec name s.definitions ≡ some d
    → Dict.find bytes_dec name t.definitions ≡ some d

-- The current definition is empty or there.
abbrev pub IsKnown : Bytes → Dict.Dict Bytes Definition → Type 0
IsKnown name m = (name ≡ []) ⊎ (is_some (Dict.find bytes_dec name m) ≡ true)
