-- ===== src/Wire/Batches.antt =====
-- core/NDimensionalIpcRunner.cxx: the payload of TASKB, written and read.
use ndmspc.Base.{
  ℕ, ◌≡◌, ◌≢◌, refl, ap, ◌∙◌, ◌==◌, false, List, [], ◌∷◌, ◌++◌, map, Option, some, Bytes, All,
  All-append, arith,
}
use ndmspc.Wire.Defs.{
  join_with, serialize_coords, parse_coords, Batch, tasks, task_text, batch_payload, add_task,
  parse_task, parse_tasks, parse_task_batch_payload, refuse_empty,
}
use ndmspc.Wire.RoundTrip.{
  IsClear, IsToken, IsPrinted, split-join_with, parse_coords-serialize_coords, cut-append,
  join_with-IsClear,
}

append-ne-nil : (a : Bytes) (c : ℕ) (b : Bytes) → a ++ c ∷ b ≢ []
append-ne-nil [] c b e = absurd (ground arith)
append-ne-nil (x ∷ a) c b e = absurd (ground arith)

pub join_with-ne-nil : (s : ℕ) (t : Bytes) (ts : List Bytes) → t ≢ [] → join_with s (t ∷ ts) ≢ []
unfolding join_with
join_with-ne-nil s t [] h = h
join_with-ne-nil s t (u ∷ ts) h = append-ne-nil t s (join_with s (u ∷ ts))

module _ {A : Type 0} (print : A → Bytes) (parse : Bytes → Option A) where
  -- A task that a batch can hold: its printed id and its coordinates are not empty, the id has no colon
  -- and no semicolon, and each coordinate is read back and is printed with no comma and no semicolon.
  pub record IsSendable (t : Bytes × List A) : Type 0 where
    pub named : t.0 ≢ []
    pub id_clear : IsClear b':' t.0
    pub id_apart : IsClear b';' t.0
    pub located : t.1 ≢ []
    pub printed : All (IsPrinted print parse b',') t.1
    pub apart : All (λ n. IsClear b';' (print n)) t.1

  map_apart :
      (ns : List A) → All (λ n. IsClear b';' (print n)) ns → All (IsClear b';') (map print ns)
  map_apart [] h = tt
  map_apart (n ∷ ns) h = (h.0, map_apart ns h.1)

  serialize_coords-ne-nil :
      (ns : List A) → ns ≢ [] → All (IsPrinted print parse b',') ns → serialize_coords print ns ≢ []
  unfolding serialize_coords
  serialize_coords-ne-nil [] some_dim h = absurd (some_dim refl)
  serialize_coords-ne-nil (n ∷ ns) some_dim h =
      join_with-ne-nil b',' (print n) (map print ns) h.0.1.0

  task_text-IsToken : (t : Bytes × List A) → IsSendable t → IsToken b';' (task_text print t)
  unfolding task_text serialize_coords
  task_text-IsToken (id, coords) h = (
    append-ne-nil id b':' (serialize_coords print coords),
    All-append (λ c. (c == b';') ≡ false) id (b':' ∷ serialize_coords print coords) h.id_apart
        (refl, join_with-IsClear b';' b',' (map print coords) refl (map_apart coords h.apart)),
  )

  task_texts :
      (ts : List (Bytes × List A))
      → All IsSendable ts
      → All (IsToken b';') (map (task_text print) ts)
  task_texts [] h = tt
  task_texts (t ∷ ts) h = (task_text-IsToken t h.0, task_texts ts h.1)

  parse_task-some :
      (id text : Bytes) (rest : Batch A)
      → id ≢ []
      → text ≢ []
      → parse_task parse (some (id, text)) rest ≡ add_task id (parse_coords parse text) rest
  unfolding parse_task
  parse_task-some [] text rest h k = absurd (h refl)
  parse_task-some (c ∷ cs) [] rest h k = absurd (k refl)
  parse_task-some (c ∷ cs) (d ∷ ds) rest h k = refl

  parse_tasks-map :
      (ts : List (Bytes × List A))
      → All IsSendable ts
      → parse_tasks parse (map (task_text print) ts) ≡ tasks ts
  unfolding parse_tasks task_text add_task
  parse_tasks-map [] h = refl
  parse_tasks-map ((id, coords) ∷ ts) h =
      let text = serialize_coords print coords in
      ap (λ x. parse_task parse x (parse_tasks parse (map (task_text print) ts)))
        (cut-append b':' id text h.0.id_clear)
      ∙ parse_task-some id text (parse_tasks parse (map (task_text print) ts)) h.0.named
          (serialize_coords-ne-nil coords h.0.located h.0.printed)
      ∙ rw
          (
            parse_coords-serialize_coords print parse coords h.0.printed,
            parse_tasks-map ts h.1,
            add_task,
          )
          refl

  -- `ParseTaskBatchPayload` reads back the payload of TASKB: the tasks of a batch that is not empty, in
  -- order, each with its id and its coordinates, if every task is one that a batch can hold.
  pub parse_task_batch_payload-batch_payload :
      (t : Bytes × List A) (ts : List (Bytes × List A))
      → All IsSendable (t ∷ ts)
      → parse_task_batch_payload parse (batch_payload print (t ∷ ts)) ≡ tasks (t ∷ ts)
  unfolding parse_task_batch_payload batch_payload
  parse_task_batch_payload-batch_payload t ts h =
      ap (λ x. refuse_empty (parse_tasks parse x))
        (split-join_with b';' (map (task_text print) (t ∷ ts)) (task_texts (t ∷ ts) h))
      ∙ ap refuse_empty (parse_tasks-map (t ∷ ts) h)
