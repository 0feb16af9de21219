-- ===== src/Worker/Crash.antt =====
-- core/NDimensionalIpcRunner.cxx: a worker whose `Process` throws in the middle of a batch.
use ndmspc.Base.{ℕ, ◌≡◌, false, List, [], ◌∷◌, ◌++◌, some, Bytes}
use ndmspc.Supervisor.Loop.Defs.{err}
use ndmspc.Worker.Defs.{Act, sent, Coords, Frames, Ran, TaskLoop, World, process}
use ndmspc.Worker.Messages.{After, breaks, named}
use ndmspc.Worker.Serving.{IsCalm, done_tasks}

-- The messages that ZeroMQ has taken, the oldest first.
abbrev pub outgoing : List Act → List Frames
outgoing [] = []
outgoing (sent frames ∷ log) = outgoing log ++ frames ∷ []
outgoing (a ∷ log) = outgoing log

-- Nothing is processed or sent.
abbrev IsSilent : TaskLoop → TaskLoop → Type 0
IsSilent s u = (outgoing u.log ≡ outgoing s.log) × (done_tasks u.log ≡ done_tasks s.log)

-- A batch behind which a task has thrown.
record IsCrashed (s : TaskLoop) (before : List (Bytes × Coords)) (id text : Bytes) (r : Ran)
    : Type 0 where
  complete : done_tasks r.loop.log ≡ done_tasks s.log ++ before
  silent : outgoing r.loop.log ≡ outgoing s.log
  unaborted : r.loop.aborted ≡ s.aborted
  thrown : r.threw ≡ some (id, text)

module _ (w : World) (calm : IsCalm w) (id : Bytes) (c : Coords) (text : Bytes)
    (throws : (t : ℕ) → w.process t c ≡ some text) where
  -- The loop breaks without an abort, and has sent the error and no acknowledgement.
  record IsFailed (s : TaskLoop) (before : List (Bytes × Coords)) (r : TaskLoop × After)
      : Type 0 where
    complete : done_tasks r.0.log ≡ done_tasks s.log ++ before
    told : outgoing r.0.log ≡ outgoing s.log ++ (err ∷ named id ∷ text ∷ []) ∷ []
    unaborted : r.0.aborted ≡ s.aborted
    failed : r.0.finished_ok ≡ false
    stopped : r.1 ≡ breaks
