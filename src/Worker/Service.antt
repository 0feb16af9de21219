-- ===== src/Worker/Service.antt =====
-- core/NDimensionalIpcRunner.cxx: the rounds of a worker that nothing disturbs.
use ndmspc.Base.Int.{ℤ}
use ndmspc.Base.{ℕ, ◌≡◌, false, List, [], ◌∷◌, ◌++◌, map, none, Bytes, All}
use ndmspc.Worker.Answers.{replies}
use ndmspc.Worker.Defs.{Coords, Frames, TaskLoop, World}
use ndmspc.Worker.Messages.{After, goes_on}
use ndmspc.Worker.Serving.{IsCalm, IsWork, done_tasks, queue}
use ndmspc.Worker.Batches.{Work, members, message, answer}

module _ (w : World) (calm : IsCalm w)
    (returned : (t : ℕ) (coords : Coords) → w.process t coords ≡ none) (print : ℤ → Bytes) where
  -- The state of a worker that has these batches before it, has done these tasks and has given
  -- these answers.
  record IsServing (bs : List Work) (ended : List (Bytes × Coords)) (answers : List Frames)
      (s : TaskLoop) : Type 0 where
    queued : queue s ≡ map (message print) bs
    work : All IsWork s.socket
    complete : done_tasks s.log ≡ ended
    answered : replies s.log ≡ answers
    unstopped : s.stop_requested ≡ false

  module _ (b : Work) (bs : List Work) (ended : List (Bytes × Coords)) (answers : List Frames) where
    -- A round for the batch `b`.
    abbrev Serves : TaskLoop × After → Type 0
    Serves r = (r.1 ≡ goes_on) × IsServing bs (ended ++ members b) (answers ++ answer b ∷ []) r.0
