-- ===== src/Worker/Defs.antt =====
-- core/NDimensionalIpcRunner.cxx: the state of `TaskLoop`, what it asks of its surroundings, and
-- the parts of a batch. The calls of the worker's object and the frames that go out are kept in a
-- log.
use ndmspc.Base.Int.{ℤ}
use ndmspc.Base.{
  ℕ, ◌+◌, ◌-◌, ◌==◌, leb, if◌then◌else◌, Bool, true, false, not, ◌||◌, List, [], ◌∷◌, ◌++◌, Option,
  none, some, Bytes,
}
use ndmspc.Supervisor.Loop.Defs.{is_bytes, shutdown, stop}

abbrev pub Frames : Type 0
Frames = List Bytes

abbrev pub Coords : Type 0
Coords = List ℤ

-- What the loop does to the world: a message that ZeroMQ takes or refuses, and the calls of the
-- object; a `Process` that throws is `crashed`, and a copy of a file may fail.
pub data Act : Type 0 where
  sent lost : Frames → Act
  processed crashed : Bytes → Coords → Act
  set_definition : Bytes → Act
  sync_ids : List ℤ → Act
  end_function : Act
  closed : Bool → Act
  copied : Bool → Bytes → Bytes → Act
  unlinked : Bytes → Act

-- The surroundings. The clock of the loop counts the questions: whether Ctrl+C has come, whether a
-- message is there, whether the socket fails and whether it takes a message. `process` is the text
-- of the exception of a call of `Process`; `bad_number` is that of std::stoi.
pub record World : Type 0 where
  pub interrupted : ℕ → Bool
  pub arrives : ℕ → Bool
  pub breaks_off : ℕ → Bool
  pub takes : ℕ → Bool
  pub process : ℕ → Coords → Option Bytes
  pub parse : Bytes → Option ℤ
  pub parse_long : Bytes → Option ℤ
  pub print : ℕ → Bytes
  pub bad_number : Bytes
  pub progress_report_interval : ℕ
  pub is_gn_worker : Bool
  pub has_base : Bool
  pub copies : Bool
  pub local_tmp_file : Bytes
  pub results_filename : Bytes

-- The variables of `TaskLoop`, the messages that are still on their way, and the log, newest first.
pub record TaskLoop : Type 0 where
  pub finished_ok : Bool
  pub aborted : Bool
  pub was_interrupted : Bool
  pub stop_requested : Bool
  pub stop_requested_abort : Bool
  pub shutdown_sent : Bool
  pub tasks_processed : ℕ
  pub last_reported_progress : ℕ
  pub deferred_frames : List Frames
  pub socket : List Frames
  pub now : ℕ
  pub log : List Act

-- The variables at the start.
abbrev pub start_loop : List Frames → TaskLoop
start_loop messages = record {
  finished_ok = true;
  aborted = false;
  was_interrupted = false;
  stop_requested = false;
  stop_requested_abort = false;
  shutdown_sent = false;
  tasks_processed = 0;
  last_reported_progress = 0;
  deferred_frames = [];
  socket = messages;
  now = 0;
  log = [];
}

-- "abort"
abbrev pub abort : Bytes
abort = b'a' ∷ b'b' ∷ b'o' ∷ b'r' ∷ b't' ∷ []

-- "stop", the reason of an orderly shutdown
abbrev pub orderly : Bytes
orderly = b's' ∷ b't' ∷ b'o' ∷ b'p' ∷ []

-- "interrupted"
abbrev pub by_user : Bytes
by_user = b'i' ∷ b'n' ∷ b't' ∷ b'e' ∷ b'r' ∷ b'r' ∷ b'u' ∷ b'p' ∷ b't' ∷ b'e' ∷ b'd' ∷ []

abbrev pub call_of : Bytes → Coords → Option Bytes → Act
call_of id coords none = processed id coords
call_of id coords (some text) = crashed id coords

abbrev pub tick : TaskLoop → TaskLoop
tick s = record s { now = s.now + 1 }

-- What the loop over a batch leaves: the ids for the acknowledgement, and the id of the task whose
-- `Process` threw, with the text.
pub record Ran : Type 0 where
  pub loop : TaskLoop
  pub acked_task_ids : List Bytes
  pub threw : Option (Bytes × Bytes)

-- Whether the frames behind STOP say that it is an abort.
abbrev pub is_abort : Frames → Bool
is_abort [] = false
is_abort (reason ∷ rest) = is_bytes reason abort

abbrev pub reason_of : Bool → Bytes
reason_of aborts = if aborts then abort else orderly

-- A call of `Process` in a batch, with the rest of the batch.
abbrev pub unless_threw : Bytes → List Bytes → TaskLoop × Option Bytes → Ran → Ran
unless_threw id acked (s, none) rest = rest
unless_threw id acked (s, some text) rest = record {
  loop = s;
  acked_task_ids = acked;
  threw = some (id, text);
}

module _ (w : World) where
  -- `SendFrames`: the loop behind it, and its result.
  unfoldable pub send : Frames → TaskLoop → TaskLoop × Bool
  send frames s =
      let act = if w.takes s.now then sent frames else lost frames in
      (record s { now = s.now + 1; log = act ∷ s.log }, w.takes s.now)

  -- `notifyShutdown`
  unfoldable pub notify_shutdown : Bytes → TaskLoop → TaskLoop
  notify_shutdown reason s =
      if s.shutdown_sent
      then s
      else record (send (shutdown ∷ reason ∷ w.print s.tasks_processed ∷ []) s).0 {
        shutdown_sent = true;
      }

  -- `handleLocalInterrupt`
  unfoldable pub handle_local_interrupt : TaskLoop → TaskLoop
  handle_local_interrupt s = record (notify_shutdown by_user s) {
    aborted = true;
    was_interrupted = true;
    finished_ok = false;
  }

  -- `checkAbort` with the message that it has read.
  unfoldable pub on_peek : Frames → TaskLoop → TaskLoop × Bool
  on_peek [] s = (record s { deferred_frames = s.deferred_frames ++ [] ∷ [] }, false)
  on_peek (cmd ∷ rest) s =
      if is_bytes cmd stop
      then (
        notify_shutdown (reason_of (is_abort rest)) (record s {
          stop_requested = true;
          stop_requested_abort = is_abort rest;
          aborted = is_abort rest;
        }),
        true,
      )
      else (record s { deferred_frames = s.deferred_frames ++ (cmd ∷ rest) ∷ [] }, false)

  -- `checkAbort` behind its first test, for the messages on their way.
  unfoldable pub peek : List Frames → TaskLoop → TaskLoop × Bool
  peek [] s = (tick s, false)
  peek (frames ∷ more) s =
      if w.breaks_off s.now || not (w.arrives s.now)
      then (tick s, false)
      else on_peek frames (record s { now = s.now + 1; socket = more })

  -- `checkAbort`
  unfoldable pub check_abort : TaskLoop → TaskLoop × Bool
  check_abort s =
      if w.interrupted s.now
      then (record (if s.aborted then s else notify_shutdown by_user s) { aborted = true }, true)
      else peek s.socket (tick s)

  -- The report of progress, behind the tasks that it counts.
  unfoldable pub report : ℕ → TaskLoop → TaskLoop
  report tasks s =
      let n = s.tasks_processed + tasks in
      let due = n == 1 || leb w.progress_report_interval (n - s.last_reported_progress) in
      record s {
        tasks_processed = n;
        last_reported_progress = if due then n else s.last_reported_progress;
      }

  -- `worker->Process`: the loop behind it, and the text of its exception.
  unfoldable pub process : Bytes → Coords → TaskLoop → TaskLoop × Option Bytes
  process id coords s =
      let threw = w.process s.now coords in
      (record s { now = s.now + 1; log = call_of id coords threw ∷ s.log }, threw)

  -- The loop over the tasks of a batch.
  unfoldable pub run_batch : List (Bytes × Coords) → List Bytes → TaskLoop → Ran
  run_batch [] acked s = record { loop = s; acked_task_ids = acked; threw = none }
  run_batch ((id, coords) ∷ ts) acked s =
      let checked = check_abort s in
      let called = process id coords checked.0 in
      let rest = run_batch ts (acked ++ id ∷ []) called.0 in
      if checked.1
      then record { loop = checked.0; acked_task_ids = acked; threw = none }
      else unless_threw id acked called rest
