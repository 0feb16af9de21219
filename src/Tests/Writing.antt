-- ===== src/Tests/Writing.antt =====
-- core/NDimensionalIpcRunner.cxx: two tasks of a plane in one message, with coordinates of one digit.
use ndmspc.Base.{
  ℕ, ◌≡◌, ◌==◌, refl, List, [], ◌∷◌, Option, none, some, Bytes, All, arith, if◌then◌else◌, false,
  map,
}
use ndmspc.Supervisor.Loop.Messages.{batch_ids}
use ndmspc.Supervisor.Loop.Replies.{batch_ids-serialize_task_ids}
use ndmspc.Wire.Batches.{IsSendable, parse_task_batch_payload-batch_payload}
use ndmspc.Wire.Defs.{
  serialize_task_ids, join_with, serialize_coords, parse_coords, tasks, task_text, batch_payload,
  parse_task_batch_payload,
}
use ndmspc.Wire.RoundTrip.{IsPrinted, parse_coords-serialize_coords}

-- The coordinates 0 and 1.
print : ℕ → Bytes
print n = if n == 0 then b'0' ∷ [] else b'1' ∷ []

parse : Bytes → Option ℕ
parse (c ∷ []) = if c == b'0' then some 0 else if c == b'1' then some 1 else none
parse _ = none

abbrev corner : List ℕ
corner = 0 ∷ 1 ∷ []

abbrev two_tasks : List (Bytes × List ℕ)
two_tasks = (b'7' ∷ [], corner) ∷ (b'8' ∷ [], corner) ∷ []

-- The payload is `7:0,1;8:0,1`.
payload_text :
    batch_payload print two_tasks
    ≡ b'7' ∷ b':' ∷ b'0' ∷ b',' ∷ b'1' ∷ b';' ∷ b'8' ∷ b':' ∷ b'0' ∷ b',' ∷ b'1' ∷ []
unfolding batch_payload task_text serialize_coords join_with print
payload_text = refl

corner-IsPrinted : All (IsPrinted print parse b',') corner
unfolding print parse
corner-IsPrinted =
    ((refl, ((λ e. ground arith), (refl, tt))), ((refl, ((λ e. ground arith), (refl, tt))), tt))

sendable :
    (c : ℕ) → (c == b':') ≡ false → (c == b';') ≡ false → IsSendable print parse (c ∷ [], corner)
unfolding print
sendable c colon semicolon = record {
  named = λ e. ground arith;
  id_clear = (colon, tt);
  id_apart = (semicolon, tt);
  located = λ e. ground arith;
  printed = corner-IsPrinted;
  apart = ((refl, tt), ((refl, tt), tt));
}

parse_coords-serialize_coords_example :
    parse_coords parse (serialize_coords print corner) ≡ some corner
parse_coords-serialize_coords_example =
    parse_coords-serialize_coords print parse corner corner-IsPrinted

batch_ids-serialize_task_ids_example :
    batch_ids parse (serialize_task_ids ((b'0' ∷ []) ∷ (b'1' ∷ []) ∷ []))
    ≡ some (map parse ((b'0' ∷ []) ∷ (b'1' ∷ []) ∷ []))
batch_ids-serialize_task_ids_example =
    batch_ids-serialize_task_ids parse (b'0' ∷ []) ((b'1' ∷ []) ∷ [])
      (((λ e. ground arith), (refl, tt)), (((λ e. ground arith), (refl, tt)), tt))

parse_task_batch_payload-batch_payload_example :
    parse_task_batch_payload parse (batch_payload print two_tasks) ≡ tasks two_tasks
parse_task_batch_payload-batch_payload_example =
    parse_task_batch_payload-batch_payload print parse (b'7' ∷ [], corner)
      ((b'8' ∷ [], corner) ∷ []) (sendable b'7' refl refl, (sendable b'8' refl refl, tt))
