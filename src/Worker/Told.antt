-- ===== src/Worker/Told.antt =====
-- core/NDimensionalIpcRunner.cxx: over the rounds of `TaskLoop`, how often a worker says SHUTDOWN.
use ndmspc.Base.Int.{ℤ}
use ndmspc.Base.{
  ℕ, refl, if_cases, Bool, true, false, List, [], ◌∷◌, Option, none, some, Bytes, length,
}
use ndmspc.Supervisor.Loop.Defs.{ack, ackb, err}
use ndmspc.Wire.Defs.{
  Batch, threw, malformed, tasks, parse_coords, parse_task_batch_payload, serialize_task_ids,
}
use ndmspc.Worker.Defs.{
  processed, crashed, Coords, Frames, TaskLoop, World, handle_local_interrupt, is_abort, process,
  reason_of, report, run_batch, send, start_loop, tick, by_user, call_of,
}
use ndmspc.Worker.Messages.{
  After, goes_on, acknowledge, after_batch, after_process, after_run, after_send, end_batch,
  first_message, named, next_message, on_exception, on_frames, on_setdef, on_setids, on_stop,
  on_task, on_taskb, receive, round, rounds, run_task, start_batch, sync, unless_interrupted, wait,
  fail_loop,
}
use ndmspc.Worker.Rounds.{on_frames_cases, rounds_inv}
use ndmspc.Worker.Notices.{
  IsTold, ToldAfter, notice-err, notice-ack, notice-ackb, notify_shutdown-IsTold, run_batch-IsTold,
  send-IsTold,
}

module _ (w : World) where
  on_exception-IsTold :
      (id text : Bytes) (s : TaskLoop) → IsTold s → ToldAfter (on_exception w id text s)
  unfolding on_exception
  on_exception-IsTold id text s t =
      send-IsTold w (err ∷ named id ∷ text ∷ []) s (notice-err (named id ∷ text ∷ [])) t

  after_batch-IsTold : (s : TaskLoop) → IsTold s → ToldAfter (after_batch s)
  unfolding after_batch
  after_batch-IsTold s t = if_cases ToldAfter s.stop_requested (λ y. t) (λ n. t)

  acknowledge-IsTold :
      (ids : List Bytes) (s : TaskLoop) → IsTold s → ToldAfter (acknowledge w ids s)
  unfolding acknowledge
  acknowledge-IsTold [] s t = after_batch-IsTold s t
  acknowledge-IsTold (id ∷ ids) s t =
      let text = serialize_task_ids (id ∷ ids) ∷ [] in
      let told = send-IsTold w (ackb ∷ text) s (notice-ackb text) t in
      if_cases ToldAfter (send w (ackb ∷ text) s).1
        (λ y. after_batch-IsTold (send w (ackb ∷ text) s).0 told) (λ n. told)

  after_run-IsTold :
      (o : Option (Bytes × Bytes)) (ids : List Bytes) (s : TaskLoop)
      → IsTold s
      → ToldAfter (after_run w o ids s)
  unfolding after_run
  after_run-IsTold none ids s t = acknowledge-IsTold ids s t
  after_run-IsTold (some (id, text)) ids s t = on_exception-IsTold id text s t

  start_batch-IsTold : (b : Batch ℤ) (s : TaskLoop) → IsTold s → ToldAfter (start_batch w b s)
  unfolding start_batch end_batch report
  start_batch-IsTold threw s t = on_exception-IsTold [] w.bad_number s t
  start_batch-IsTold malformed s t = t
  start_batch-IsTold (tasks ts) s t =
      let r = run_batch w ts [] (report w (length ts) s) in
      after_run-IsTold r.threw r.acked_task_ids r.loop
        (run_batch-IsTold w ts [] (report w (length ts) s) t)

  after_process-IsTold :
      (id : Bytes) (o : Option Bytes) (s : TaskLoop)
      → IsTold s
      → ToldAfter (after_process w id (s, o))
  unfolding after_process after_send
  after_process-IsTold id (some text) s t = on_exception-IsTold id text s t
  after_process-IsTold id none s t =
      let told = send-IsTold w (ack ∷ id ∷ []) s (notice-ack (id ∷ [])) t in
      if_cases ToldAfter (send w (ack ∷ id ∷ []) s).1 (λ y. told) (λ n. told)

  run_task-IsTold :
      (id : Bytes) (o : Option Coords) (s : TaskLoop) → IsTold s → ToldAfter (run_task w id o s)
  unfolding run_task process report
  run_task-IsTold id none s t = on_exception-IsTold id w.bad_number s t
  run_task-IsTold id (some coords) s t = called (w.process s.now coords)
    where
      called :
          (o : Option Bytes)
          → ToldAfter (
              after_process w id
                (record (tick (report w 1 s)) { log = call_of id coords o ∷ s.log }, o))
      called none =
          after_process-IsTold id none
            (record (tick (report w 1 s)) { log = processed id coords ∷ s.log }) t
      called (some text) =
          after_process-IsTold id (some text)
            (record (tick (report w 1 s)) { log = crashed id coords ∷ s.log }) t

  on_task-IsTold : (rest : Frames) (s : TaskLoop) → IsTold s → ToldAfter (on_task w rest s)
  unfolding on_task
  on_task-IsTold [] s t = t
  on_task-IsTold (id ∷ []) s t = t
  on_task-IsTold (id ∷ text ∷ more) s t = run_task-IsTold id (parse_coords w.parse text) s t

  on_taskb-IsTold : (rest : Frames) (s : TaskLoop) → IsTold s → ToldAfter (on_taskb w rest s)
  unfolding on_taskb
  on_taskb-IsTold [] s t = t
  on_taskb-IsTold (payload ∷ more) s t =
      start_batch-IsTold (parse_task_batch_payload w.parse payload) s t

  on_setdef-IsTold : (rest : Frames) (s : TaskLoop) → IsTold s → ToldAfter (on_setdef w rest s)
  unfolding on_setdef
  on_setdef-IsTold [] s t = t
  on_setdef-IsTold (name ∷ more) s t = if_cases ToldAfter w.is_gn_worker (λ y. t) (λ n. t)

  on_setids-IsTold : (rest : Frames) (s : TaskLoop) → IsTold s → ToldAfter (on_setids w rest s)
  unfolding on_setids
  on_setids-IsTold [] s t = t
  on_setids-IsTold (text ∷ more) s t =
      if_cases ToldAfter w.is_gn_worker (λ y. synced (parse_coords w.parse_long text)) (λ n. t)
    where
      synced : (o : Option (List ℤ)) → ToldAfter (sync o s)
      synced none = unfold sync in t
      synced (some ids) = unfold sync in t

  on_frames-IsTold : (frames : Frames) (s : TaskLoop) → IsTold s → ToldAfter (on_frames w frames s)
  unfolding on_frames on_stop
  on_frames-IsTold [] s t = t
  on_frames-IsTold (cmd ∷ rest) s t =
      on_frames_cases w ToldAfter cmd rest s
        (notify_shutdown-IsTold w (reason_of (is_abort rest)) (record s { aborted = is_abort rest })
          t)
        (on_setdef-IsTold rest s t) (on_setids-IsTold rest s t) (on_task-IsTold rest s t)
        (on_taskb-IsTold rest s t) t

  unless_interrupted-IsTold :
      (r : TaskLoop × After) (s : TaskLoop)
      → IsTold s
      → ToldAfter r
      → ToldAfter (unless_interrupted w r s)
  unfolding unless_interrupted handle_local_interrupt
  unless_interrupted-IsTold r s t t' =
      if_cases ToldAfter (w.interrupted s.now) (λ y. notify_shutdown-IsTold w by_user (tick s) t)
        (λ n. t')

  first_message-IsTold :
      (here : Bool) (ms : List Frames) (s : TaskLoop)
      → IsTold s
      → ToldAfter (first_message w here ms s)
  unfolding first_message wait
  first_message-IsTold false ms s t = unless_interrupted-IsTold (tick s, goes_on) s t t
  first_message-IsTold true [] s t = unless_interrupted-IsTold (tick s, goes_on) s t t
  first_message-IsTold true (f ∷ ms) s t = on_frames-IsTold f (record s { socket = ms }) t

  next_message-IsTold :
      (ms : List Frames) (s : TaskLoop) → IsTold s → ToldAfter (next_message w ms s)
  unfolding next_message receive
  next_message-IsTold [] s t =
      if_cases ToldAfter (w.breaks_off s.now)
        (λ y. unless_interrupted-IsTold (fail_loop (tick (tick s))) (tick s) t t)
        (λ n. first_message-IsTold (w.arrives s.now) s.socket (tick s) t)
  next_message-IsTold (f ∷ ms) s t = on_frames-IsTold f (record s { deferred_frames = ms }) t

  pub round-IsTold : (s : TaskLoop) → IsTold s → ToldAfter (round w s)
  unfolding round handle_local_interrupt
  round-IsTold s t =
      if_cases ToldAfter (w.interrupted s.now) (λ y. notify_shutdown-IsTold w by_user (tick s) t)
        (λ n. next_message-IsTold s.deferred_frames (tick s) t)

  pub rounds-IsTold :
      (n : ℕ) (messages : List Frames) → ToldAfter (rounds w n (start_loop messages))
  rounds-IsTold n messages =
      rounds_inv w IsTold ToldAfter (λ s t. t) round-IsTold (λ r t on. t) n (start_loop messages)
        refl
