-- ===== src/Supervisor/Loop/Replies.antt =====
-- core/NDimensionalExecutor.cxx and core/NDimensionalIpcRunner.cxx: the ids of an ACKB, from a worker to
-- the supervisor.
use ndmspc.Base.{ℕ, ◌≡◌, ◌≢◌, refl, ap, ◌∙◌, List, [], ◌∷◌, map, Option, some, Bytes, All}
use ndmspc.Wire.Defs.{split, serialize_task_ids, join_with}
use ndmspc.Wire.RoundTrip.{IsToken, split-join_with}
use ndmspc.Wire.Batches.{join_with-ne-nil}
use ndmspc.Supervisor.Loop.Messages.{batch_ids}

batch_ids-some :
    (parse : Bytes → Option ℕ) (text : Bytes)
    → text ≢ []
    → batch_ids parse text ≡ some (map parse (split b',' [] text))
unfolding batch_ids
batch_ids-some parse [] h = absurd (h refl)
batch_ids-some parse (c ∷ cs) h = refl

-- The supervisor takes from an ACKB the ids that the worker put into it, each as it parses, if there is
-- an id, and none is empty or has a comma.
pub batch_ids-serialize_task_ids :
    (parse : Bytes → Option ℕ) (id : Bytes) (ids : List Bytes)
    → All (IsToken b',') (id ∷ ids)
    → batch_ids parse (serialize_task_ids (id ∷ ids)) ≡ some (map parse (id ∷ ids))
unfolding serialize_task_ids
batch_ids-serialize_task_ids parse id ids h =
    batch_ids-some parse (join_with b',' (id ∷ ids)) (join_with-ne-nil b',' id ids h.0.0)
    ∙ ap (λ ts. some (map parse ts)) (split-join_with b',' (id ∷ ids) h)
