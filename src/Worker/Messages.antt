-- ===== src/Worker/Messages.antt =====
-- core/NDimensionalIpcRunner.cxx: the messages that a worker handles, `TaskLoop`, and what a worker
-- does behind its loop.
use ndmspc.Base.{
  ℕ, zero, suc, if◌then◌else◌, Bool, true, false, not, ◌&&◌, List, [], ◌∷◌, Option, none, some,
  Bytes, length,
}
use ndmspc.Base.Int.{ℤ}
use ndmspc.Supervisor.Loop.Defs.{is_bytes, ack, ackb, err, done, stop}
use ndmspc.Wire.Defs.{
  Batch, threw, malformed, tasks, parse_coords, parse_task_batch_payload, serialize_task_ids,
}
use ndmspc.Worker.Defs.{
  set_definition, sync_ids, end_function, closed, copied, unlinked, Coords, Frames, Ran, TaskLoop,
  World, handle_local_interrupt, is_abort, notify_shutdown, process, reason_of, report, run_batch,
  send, start_loop, tick,
}

-- "TASK"
abbrev pub task : Bytes
task = b'T' ∷ b'A' ∷ b'S' ∷ b'K' ∷ []

-- "TASKB"
abbrev pub taskb : Bytes
taskb = b'T' ∷ b'A' ∷ b'S' ∷ b'K' ∷ b'B' ∷ []

-- "SETDEF"
abbrev pub setdef : Bytes
setdef = b'S' ∷ b'E' ∷ b'T' ∷ b'D' ∷ b'E' ∷ b'F' ∷ []

-- "SETIDS"
abbrev pub setids : Bytes
setids = b'S' ∷ b'E' ∷ b'T' ∷ b'I' ∷ b'D' ∷ b'S' ∷ []

-- How a round ends: the loop goes on, it breaks, or an exception leaves `TaskLoop`.
pub data After : Type 0 where
  goes_on breaks escapes : After

-- `finishedOk = false; break;`
abbrev pub fail_loop : TaskLoop → TaskLoop × After
fail_loop s = (record s { finished_ok = false }, breaks)

-- The id of the task in an ERR.
abbrev pub named : Bytes → Bytes
named [] = b'0' ∷ []
named (c ∷ cs) = c ∷ cs

abbrev pub is_empty : Bytes → Bool
is_empty [] = true
is_empty (c ∷ cs) = false

-- What is copied or removed behind the loop: a local file apart from the file of the results.
abbrev pub has_own_results : Bytes → Bytes → Bool
has_own_results local results =
    not (is_empty local) && not (is_empty results) && not (is_bytes local results)

unfoldable pub after_send : TaskLoop × Bool → TaskLoop × After
after_send (s, taken) = if taken then (s, goes_on) else fail_loop s

-- The end of a batch.
unfoldable pub after_batch : TaskLoop → TaskLoop × After
after_batch s =
    if s.stop_requested
    then (record s { aborted = s.stop_requested_abort }, breaks)
    else (s, goes_on)

-- The ids of SETIDS are read outside of the `try` block.
unfoldable pub sync : Option (List ℤ) → TaskLoop → TaskLoop × After
sync none s = (s, escapes)
sync (some ids) s = (record s { log = sync_ids ids ∷ s.log }, goes_on)

module _ (w : World) where
  -- The handlers of exceptions.
  unfoldable pub on_exception : Bytes → Bytes → TaskLoop → TaskLoop × After
  on_exception id text s = fail_loop (send w (err ∷ named id ∷ text ∷ []) s).0

  -- TASK behind the reading of the coordinates.
  unfoldable pub after_process : Bytes → TaskLoop × Option Bytes → TaskLoop × After
  after_process id (s, none) = after_send (send w (ack ∷ id ∷ []) s)
  after_process id (s, some text) = on_exception id text s

  unfoldable pub run_task : Bytes → Option Coords → TaskLoop → TaskLoop × After
  run_task id none s = on_exception id w.bad_number s
  run_task id (some coords) s = after_process id (process w id coords (report w 1 s))

  -- TASK
  unfoldable pub on_task : Frames → TaskLoop → TaskLoop × After
  on_task (id ∷ text ∷ more) s = run_task id (parse_coords w.parse text) s
  on_task _ s = fail_loop s

  unfoldable pub acknowledge : List Bytes → TaskLoop → TaskLoop × After
  acknowledge [] s = after_batch s
  acknowledge (id ∷ ids) s =
      let answered = send w (ackb ∷ serialize_task_ids (id ∷ ids) ∷ []) s in
      if answered.1 then after_batch answered.0 else fail_loop answered.0

  unfoldable pub after_run : Option (Bytes × Bytes) → List Bytes → TaskLoop → TaskLoop × After
  after_run none acked s = acknowledge acked s
  after_run (some (id, text)) acked s = on_exception id text s

  unfoldable pub end_batch : Ran → TaskLoop × After
  end_batch r = after_run r.threw r.acked_task_ids r.loop

  unfoldable pub start_batch : Batch ℤ → TaskLoop → TaskLoop × After
  start_batch threw s = on_exception [] w.bad_number s
  start_batch malformed s = fail_loop s
  start_batch (tasks ts) s = end_batch (run_batch w ts [] (report w (length ts) s))

  -- TASKB
  unfoldable pub on_taskb : Frames → TaskLoop → TaskLoop × After
  on_taskb [] s = fail_loop s
  on_taskb (payload ∷ more) s = start_batch (parse_task_batch_payload w.parse payload) s

  -- SETDEF
  unfoldable pub on_setdef : Frames → TaskLoop → TaskLoop × After
  on_setdef [] s = fail_loop s
  on_setdef (name ∷ more) s =
      if w.is_gn_worker
      then (record s { log = set_definition name ∷ s.log }, goes_on)
      else fail_loop s

  -- SETIDS
  unfoldable pub on_setids : Frames → TaskLoop → TaskLoop × After
  on_setids [] s = fail_loop s
  on_setids (text ∷ more) s =
      if w.is_gn_worker then sync (parse_coords w.parse_long text) s else fail_loop s

  -- STOP
  unfoldable pub on_stop : Frames → TaskLoop → TaskLoop × After
  on_stop rest s =
      (notify_shutdown w (reason_of (is_abort rest)) (record s { aborted = is_abort rest }), breaks)

  -- The round of a message that has been read.
  unfoldable pub on_frames : Frames → TaskLoop → TaskLoop × After
  on_frames [] s = (s, goes_on)
  on_frames (cmd ∷ rest) s =
      if is_bytes cmd stop
      then on_stop rest s
      else if is_bytes cmd setdef
      then on_setdef rest s
      else if is_bytes cmd setids
      then on_setids rest s
      else if is_bytes cmd task
      then on_task rest s
      else if is_bytes cmd taskb
      then on_taskb rest s
      else fail_loop s

  -- No message was read: whether the loop goes on, but for Ctrl+C.
  unfoldable pub unless_interrupted : TaskLoop × After → TaskLoop → TaskLoop × After
  unless_interrupted after s =
      if w.interrupted s.now then (handle_local_interrupt w (tick s), breaks) else after

  unfoldable pub wait : TaskLoop → TaskLoop × After
  wait s = unless_interrupted (tick s, goes_on) s

  unfoldable pub first_message : Bool → List Frames → TaskLoop → TaskLoop × After
  first_message false messages s = wait s
  first_message true [] s = wait s
  first_message true (frames ∷ more) s = on_frames frames (record s { socket = more })

  -- `ReceiveFrames`, which fails, or waits in vain, or reads a message.
  unfoldable pub receive : TaskLoop → TaskLoop × After
  receive s =
      if w.breaks_off s.now
      then unless_interrupted (fail_loop (tick (tick s))) (tick s)
      else first_message (w.arrives s.now) s.socket (tick s)

  unfoldable pub next_message : List Frames → TaskLoop → TaskLoop × After
  next_message [] s = receive s
  next_message (frames ∷ more) s = on_frames frames (record s { deferred_frames = more })

  -- One round of `while (true)`.
  unfoldable pub round : TaskLoop → TaskLoop × After
  round s =
      if w.interrupted s.now
      then (handle_local_interrupt w (tick s), breaks)
      else next_message s.deferred_frames (tick s)

  -- At most so many rounds.
  unfoldable pub rounds : ℕ → TaskLoop → TaskLoop × After
  rounds zero s = (s, goes_on)
  rounds (suc n) s =
      let r = round s in elim r.1 [ goes_on ↦ rounds n r.0 | breaks ↦ r | escapes ↦ r ]

  -- The file of a worker that is aborted, and of one that is not.
  unfoldable pub close_file : Bool → TaskLoop → TaskLoop
  close_file save s = if w.has_base then record s { log = closed save ∷ s.log } else s

  unfoldable pub copy_results : TaskLoop → TaskLoop
  copy_results s =
      if has_own_results w.local_tmp_file w.results_filename
      then record s { log = copied w.copies w.local_tmp_file w.results_filename ∷ s.log }
      else s

  unfoldable pub remove_local : TaskLoop → TaskLoop
  remove_local s =
      if has_own_results w.local_tmp_file w.results_filename
      then record s { log = unlinked w.local_tmp_file ∷ s.log }
      else s

  unfoldable pub post_process : TaskLoop → TaskLoop
  post_process s =
      if s.aborted
      then remove_local (close_file false s)
      else remove_local (copy_results (close_file true (record s { log = end_function ∷ s.log })))

  -- `TaskLoop` behind its loop: the file, DONE, and the code that it returns.
  unfoldable pub end_loop : TaskLoop → TaskLoop × ℕ
  end_loop s =
      let p = if w.is_gn_worker then post_process s else s in
      (if s.aborted then p else (send w (done ∷ []) p).0, if s.finished_ok then 0 else 1)

  -- What is behind the loop.
  unfoldable pub exit_of : TaskLoop × After → TaskLoop × Option ℕ
  exit_of (s, breaks) = let ended = end_loop s in (ended.0, some ended.1)
  exit_of (s, goes_on) = (s, none)
  exit_of (s, escapes) = (s, none)

  -- `TaskLoop`, for a socket with these messages; no result means that an exception has left it, or
  -- that it goes on behind so many rounds.
  unfoldable pub task_loop : ℕ → List Frames → TaskLoop × Option ℕ
  task_loop n messages = exit_of (rounds n (start_loop messages))
