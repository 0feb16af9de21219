-- ===== src/Wire/Defs.antt =====
-- core/NDimensionalIpcRunner.cxx: the texts in the frames, and the payload of TASKB in
-- core/NDimensionalExecutor.cxx. How a stream prints a number and how std::stoi reads one are
-- parameters; a reading that throws is `none`.
use ndmspc.Base.{ℕ, ◌==◌, true, false, List, [], ◌∷◌, ◌++◌, map, Option, none, some, Bytes}

abbrev pub token : Bytes → List Bytes
token [] = []
token (c ∷ cs) = (c ∷ cs) ∷ []

-- The texts between the separators, without the empty ones; `current` is the text read so far.
unfoldable pub split : ℕ → Bytes → Bytes → List Bytes
split separator current [] = token current
split separator current (c ∷ cs) = elim (c == separator) [
  | true ↦ token current ++ split separator [] cs
  | false ↦ split separator (current ++ c ∷ []) cs
]

-- The texts with a separator between them.
unfoldable pub join_with : ℕ → List Bytes → Bytes
join_with separator [] = []
join_with separator (t ∷ []) = t
join_with separator (t ∷ u ∷ ts) = t ++ separator ∷ join_with separator (u ∷ ts)

-- `SerializeTaskIds`
unfoldable pub serialize_task_ids : List Bytes → Bytes
serialize_task_ids ids = join_with b',' ids

abbrev pub prepend {ℓ} : {A : Type ℓ} → Option A → Option (List A) → Option (List A)
prepend (some a) (some rest) = some (a ∷ rest)
prepend _ _ = none

module _ {A : Type 0} where
  -- `SerializeCoords`, and `SerializeIds` for another type of numbers.
  unfoldable pub serialize_coords : (A → Bytes) → List A → Bytes
  serialize_coords print coords = join_with b',' (map print coords)

  unfoldable pub parse_all : (Bytes → Option A) → List Bytes → Option (List A)
  parse_all parse [] = some []
  parse_all parse (t ∷ ts) = prepend (parse t) (parse_all parse ts)

  -- `ParseCoords`, and `ParseIds` for another type of numbers.
  unfoldable pub parse_coords : (Bytes → Option A) → Bytes → Option (List A)
  parse_coords parse text = parse_all parse (split b',' [] text)

-- `find` of the first separator: the text before it and the text behind it.
unfoldable pub cut : ℕ → Bytes → Option (Bytes × Bytes)
cut separator [] = none
cut separator (c ∷ cs) = elim (c == separator) [
  | true ↦ some ([], cs)
  | false ↦ elim (cut separator cs) [ none ↦ none | some (a, b) ↦ some (c ∷ a, b) ]
]

-- The results of `ParseTaskBatchPayload`.
pub data Batch (A : Type 0) : Type 0 where
  threw malformed : Batch A
  tasks : List (Bytes × List A) → Batch A

module _ {A : Type 0} where
  -- A task of a batch, `id:coords`.
  unfoldable pub task_text : (A → Bytes) → Bytes × List A → Bytes
  task_text print (id, coords) = id ++ b':' ∷ serialize_coords print coords

  -- The payload of TASKB, from the printed ids and the coordinates.
  unfoldable pub batch_payload : (A → Bytes) → List (Bytes × List A) → Bytes
  batch_payload print ts = join_with b';' (map (task_text print) ts)

  unfoldable pub add_task : Bytes → Option (List A) → Batch A → Batch A
  add_task id none rest = threw
  add_task id (some coords) (tasks ts) = tasks ((id, coords) ∷ ts)
  add_task id (some coords) rest = rest

  -- A token of the payload, before the rest of them.
  unfoldable pub parse_task : (Bytes → Option A) → Option (Bytes × Bytes) → Batch A → Batch A
  parse_task parse none rest = malformed
  parse_task parse (some ([], text)) rest = malformed
  parse_task parse (some (c ∷ cs, [])) rest = malformed
  parse_task parse (some (c ∷ cs, d ∷ ds)) rest =
      add_task (c ∷ cs) (parse_coords parse (d ∷ ds)) rest

  unfoldable pub parse_tasks : (Bytes → Option A) → List Bytes → Batch A
  parse_tasks parse [] = tasks []
  parse_tasks parse (t ∷ ts) = parse_task parse (cut b':' t) (parse_tasks parse ts)

  abbrev pub refuse_empty : Batch A → Batch A
  refuse_empty (tasks []) = malformed
  refuse_empty b = b

  -- `ParseTaskBatchPayload`
  unfoldable pub parse_task_batch_payload : (Bytes → Option A) → Bytes → Batch A
  parse_task_batch_payload parse payload = refuse_empty (parse_tasks parse (split b';' [] payload))
