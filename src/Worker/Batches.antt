-- ===== src/Worker/Batches.antt =====
-- core/NDimensionalIpcRunner.cxx: the batches that the supervisor writes, and what a worker that
-- nothing disturbs does with them.
use ndmspc.Base.Int.{ℤ}
use ndmspc.Base.{
  ℕ, ◌+◌, some, ◌≡◌, refl, ap, ◌∙◌, if_cases, false, List, [], ◌∷◌, ◌++◌, map, none, Bytes, length,
  All, bytes_dec, ℕ_discrete, subst,
}
use ndmspc.Supervisor.Loop.Defs.{ack, ackb}
use ndmspc.Wire.Batches.{IsSendable, parse_task_batch_payload-batch_payload}
use ndmspc.Wire.RoundTrip.{parse_coords-serialize_coords}
use ndmspc.Wire.Defs.{tasks, batch_payload, serialize_coords, serialize_task_ids}
use ndmspc.Worker.Answers.{ack_reply, ackb_reply, replies}
use ndmspc.Worker.Defs.{
  sent, processed, process, Coords, Frames, TaskLoop, World, report, run_batch, send, tick,
}
use ndmspc.Worker.Messages.{
  After, goes_on, on_task, run_task, after_process, after_send, task, acknowledge, after_batch,
  after_run, end_batch, on_frames, on_taskb, start_batch, taskb,
}
use ndmspc.Worker.Serving.{IsCalm, IsWork, done_tasks, queue, run_batch-IsRun}

-- A batch that is not empty.
abbrev pub Work : Type 0
Work = (Bytes × Coords) × List (Bytes × Coords)

abbrev pub members : Work → List (Bytes × Coords)
members (t, ts) = t ∷ ts

abbrev pub ids_in : Work → List Bytes
ids_in b = map (λ t. t.0) (members b)

-- TASKB for the tasks of a batch.
abbrev pub taskb_message : (ℤ → Bytes) → Work → Frames
taskb_message print b = taskb ∷ batch_payload print (members b) ∷ []

-- The message that the supervisor writes for a batch: TASK for one task, TASKB for several.
abbrev pub message : (ℤ → Bytes) → Work → Frames
message print ((id, coords), []) = task ∷ id ∷ serialize_coords print coords ∷ []
message print (t, u ∷ ts) = taskb_message print (t, u ∷ ts)

-- The acknowledgement of TASKB, and that of the message for a batch.
abbrev pub ackb_answer : Work → Frames
ackb_answer b = ackb ∷ serialize_task_ids (ids_in b) ∷ []

abbrev pub answer : Work → Frames
answer ((id, coords), []) = ack ∷ id ∷ []
answer (t, u ∷ ts) = ackb_answer (t, u ∷ ts)

abbrev pub all_tasks : List Work → List (Bytes × Coords)
all_tasks [] = []
all_tasks (b ∷ bs) = members b ++ all_tasks bs

-- What a round leaves: the messages that wait, the tasks that are done, the answers.
pub record IsServed (waiting : List Frames) (ended : List (Bytes × Coords)) (answers : List Frames)
    (r : TaskLoop × After) : Type 0 where
  pub on : r.1 ≡ goes_on
  pub queued : queue r.0 ≡ waiting
  pub work : All IsWork r.0.socket
  pub complete : done_tasks r.0.log ≡ ended
  pub answered : replies r.0.log ≡ answers
  pub unstopped : r.0.stop_requested ≡ false

pub on_frames-taskb :
    (w : World) (rest : Frames) (s : TaskLoop) → on_frames w (taskb ∷ rest) s ≡ on_taskb w rest s
unfolding on_frames bytes_dec ℕ_discrete
on_frames-taskb w rest s = refl

on_frames-task :
    (w : World) (rest : Frames) (s : TaskLoop) → on_frames w (task ∷ rest) s ≡ on_task w rest s
unfolding on_frames bytes_dec ℕ_discrete
on_frames-task w rest s = refl

task-IsWork : (rest : Frames) → IsWork (task ∷ rest)
unfolding bytes_dec ℕ_discrete
task-IsWork rest = refl

taskb-IsWork : (rest : Frames) → IsWork (taskb ∷ rest)
unfolding bytes_dec ℕ_discrete
taskb-IsWork rest = refl

pub message-IsWork : (print : ℤ → Bytes) (b : Work) → IsWork (message print b)
message-IsWork print ((id, coords), []) = task-IsWork (id ∷ serialize_coords print coords ∷ [])
message-IsWork print (t, u ∷ ts) = taskb-IsWork (batch_payload print (t ∷ u ∷ ts) ∷ [])

module _ (w : World) (calm : IsCalm w)
    (returned : (t : ℕ) (coords : Coords) → w.process t coords ≡ none) where
  after_batch-IsServed :
      (s : TaskLoop)
      → All IsWork s.socket
      → s.stop_requested ≡ false
      → IsServed (queue s) (done_tasks s.log) (replies s.log) (after_batch s)
  unfolding after_batch
  after_batch-IsServed s h e =
      if_cases (IsServed (queue s) (done_tasks s.log) (replies s.log)) s.stop_requested
        (λ y. absurd (cc))
        (λ n. record {
          on = refl;
          queued = refl;
          work = h;
          complete = refl;
          answered = refl;
          unstopped = e;
        })

  acknowledge-IsServed :
      (b : Work) (s : TaskLoop)
      → All IsWork s.socket
      → s.stop_requested ≡ false
      → IsServed
          (queue s)
          (done_tasks s.log)
          (replies s.log ++ ackb_answer b ∷ [])
          (acknowledge w (ids_in b) s)
  unfolding acknowledge send
  acknowledge-IsServed b s h e =
      let u = record (tick s) { log = sent (ackb_answer b) ∷ s.log } in
      rw (calm.taken s.now) (
        subst (λ answers. IsServed (queue s) (done_tasks s.log) answers (after_batch u))
          (rw (ackb_reply (serialize_task_ids (ids_in b) ∷ [])) refl) (after_batch-IsServed u h e))

  start_batch-IsServed :
      (b : Work) (s : TaskLoop)
      → All IsWork s.socket
      → s.stop_requested ≡ false
      → IsServed
          (queue s)
          (done_tasks s.log ++ members b)
          (replies s.log ++ ackb_answer b ∷ [])
          (start_batch w (tasks (members b)) s)
  unfolding start_batch end_batch after_run report
  start_batch-IsServed b s h e =
      let s' = report w (length (members b)) s in
      let r = run_batch w (members b) [] s' in
      let k = run_batch-IsRun w calm (members b) [] s' returned h in
      let a = acknowledge-IsServed b r.loop k.work (k.unstopped ∙ e) in
      rw (k.fine, k.acked)
        (record {
          on = a.on;
          queued = a.queued ∙ k.queued;
          work = a.work;
          complete = a.complete ∙ k.complete;
          answered = a.answered ∙ ap (λ fs. fs ++ ackb_answer b ∷ []) k.answered;
          unstopped = a.unstopped;
        })

  process_returned :
      (id : Bytes) (coords : Coords) (s : TaskLoop)
      → process w id coords s ≡ (record (tick s) { log = processed id coords ∷ s.log }, none)
  unfolding process
  process_returned id coords s = rw (returned s.now coords) refl

  -- TASK behind the reading of the coordinates.
  run_task-IsServed :
      (id : Bytes) (coords : Coords) (s : TaskLoop)
      → All IsWork s.socket
      → s.stop_requested ≡ false
      → IsServed
          (queue s)
          (done_tasks s.log ++ (id, coords) ∷ [])
          (replies s.log ++ (ack ∷ id ∷ []) ∷ [])
          (run_task w id (some coords) s)
  unfolding run_task after_process after_send send report
  run_task-IsServed id coords s h e =
      rw (process_returned id coords (report w 1 s), calm.taken (s.now + 1))
        (record {
          on = refl;
          queued = refl;
          work = h;
          complete = refl;
          answered = rw (ack_reply (id ∷ [])) refl;
          unstopped = e;
        })

  module _ (print : ℤ → Bytes) where
    taskb-IsServed :
        (b : Work) (s : TaskLoop)
        → All (IsSendable print w.parse) (members b)
        → All IsWork s.socket
        → s.stop_requested ≡ false
        → IsServed
            (queue s)
            (done_tasks s.log ++ members b)
            (replies s.log ++ ackb_answer b ∷ [])
            (on_frames w (taskb_message print b) s)
    unfolding on_taskb serialize_task_ids
    taskb-IsServed b s good h e =
        rw
          (
            on_frames-taskb w (batch_payload print (members b) ∷ []) s,
            on_taskb,
            parse_task_batch_payload-batch_payload print w.parse b.0 b.1 good,
          )
          (start_batch-IsServed b s h e)

    pub on_frames-IsServed :
        (b : Work) (s : TaskLoop)
        → All (IsSendable print w.parse) (members b)
        → All IsWork s.socket
        → s.stop_requested ≡ false
        → IsServed
            (queue s)
            (done_tasks s.log ++ members b)
            (replies s.log ++ answer b ∷ [])
            (on_frames w (message print b) s)
    unfolding on_task
    on_frames-IsServed ((id, coords), []) s good h e =
        rw
          (
            on_frames-task w (id ∷ serialize_coords print coords ∷ []) s,
            on_task,
            parse_coords-serialize_coords print w.parse coords good.0.printed,
          )
          (run_task-IsServed id coords s h e)
    on_frames-IsServed (t, u ∷ ts) s good h e = taskb-IsServed (t, u ∷ ts) s good h e
