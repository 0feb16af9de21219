-- ===== src/Worker/Serving.antt =====
-- core/NDimensionalIpcRunner.cxx: a worker that nothing disturbs, and the batches that wait for it.
use ndmspc.Base.{
  ℕ, ◌≡◌, refl, sym, ap, ◌∙◌, if_cases, Bool, true, false, not, ◌||◌, List, [], ◌∷◌, ◌++◌, map,
  append-nil, append_assoc, none, Bytes, All,
}
use ndmspc.Supervisor.Loop.Defs.{is_bytes, stop}
use ndmspc.Worker.Defs.{
  Act, processed, Coords, Frames, Ran, TaskLoop, World, check_abort, on_peek, peek, process,
  run_batch, tick,
}
use ndmspc.Worker.Answers.{replies}

-- No interrupt and no failure of the socket; when messages arrive is left open.
pub record IsCalm (w : World) : Type 0 where
  pub not_interrupted : (t : ℕ) → w.interrupted t ≡ false
  pub unbroken : (t : ℕ) → w.breaks_off t ≡ false
  pub taken : (t : ℕ) → w.takes t ≡ true

-- The tasks whose `Process` has returned, the oldest first.
abbrev pub done_tasks : List Act → List (Bytes × Coords)
done_tasks [] = []
done_tasks (processed id coords ∷ log) = done_tasks log ++ (id, coords) ∷ []
done_tasks (a ∷ log) = done_tasks log

-- The messages that are not handled yet, in the order in which they were sent.
abbrev pub queue : TaskLoop → List Frames
queue s = s.deferred_frames ++ s.socket

abbrev pub IsWork : Frames → Type 0
IsWork [] = Unit
IsWork (cmd ∷ rest) = is_bytes cmd stop ≡ false

-- What a look for STOP leaves alone.
pub record IsSame (waiting : List Frames) (log : List Act) (stopped aborted : Bool) (u : TaskLoop)
    : Type 0 where
  pub queued : queue u ≡ waiting
  pub work : All IsWork u.socket
  pub logged : u.log ≡ log
  pub unstopped : u.stop_requested ≡ stopped
  pub unaborted : u.aborted ≡ aborted

pub record IsRun (s : TaskLoop) (ts : List (Bytes × Coords)) (ids : List Bytes) (r : Ran)
    : Type 0 where
  pub queued : queue r.loop ≡ queue s
  pub work : All IsWork r.loop.socket
  pub complete : done_tasks r.loop.log ≡ done_tasks s.log ++ ts
  pub answered : replies r.loop.log ≡ replies s.log
  pub unstopped : r.loop.stop_requested ≡ s.stop_requested
  pub acked : r.acked_task_ids ≡ ids ++ map (λ t. t.0) ts
  pub fine : r.threw ≡ none

module _ (w : World) (calm : IsCalm w) where
  abbrev pub Continues : TaskLoop → TaskLoop × Bool → Type 0
  Continues s c = (c.1 ≡ false) × IsSame (queue s) s.log s.stop_requested s.aborted c.0

  on_peek-Continues :
      (f : Frames) (more : List Frames) (s : TaskLoop)
      → IsWork f
      → All IsWork more
      → Continues (record s { socket = f ∷ more }) (on_peek w f (record s { socket = more }))
  unfolding on_peek
  on_peek-Continues [] more s h hs = (
    refl,
    record {
      queued = append_assoc s.deferred_frames ([] ∷ []) more;
      work = hs;
      logged = refl;
      unstopped = refl;
      unaborted = refl;
    },
  )
  on_peek-Continues (cmd ∷ rest) more s h hs = rw h (
    refl,
    record {
      queued = append_assoc s.deferred_frames ((cmd ∷ rest) ∷ []) more;
      work = hs;
      logged = refl;
      unstopped = refl;
      unaborted = refl;
    },
  )

  peek-Continues :
      (ms : List Frames) (s : TaskLoop)
      → All IsWork ms
      → Continues (record s { socket = ms }) (peek w ms (record s { socket = ms }))
  unfolding peek
  peek-Continues [] s h =
      (refl, record { queued = refl; work = h; logged = refl; unstopped = refl; unaborted = refl })
  peek-Continues (f ∷ more) s h =
      if_cases (Continues (record s { socket = f ∷ more }))
        (w.breaks_off s.now || not (w.arrives s.now))
        (λ y. (
          refl,
          record { queued = refl; work = h; logged = refl; unstopped = refl; unaborted = refl },
        ))
        (λ n. on_peek-Continues f more (tick s) h.0 h.1)

  pub check_abort-Continues : (s : TaskLoop) → All IsWork s.socket → Continues s (check_abort w s)
  unfolding check_abort
  check_abort-Continues s h = rw (calm.not_interrupted s.now) (peek-Continues s.socket (tick s) h)

  pub run_batch-IsRun :
      (ts : List (Bytes × Coords)) (acked : List Bytes) (s : TaskLoop)
      → ((t : ℕ) (coords : Coords) → w.process t coords ≡ none)
      → All IsWork s.socket
      → IsRun s ts acked (run_batch w ts acked s)
  unfolding run_batch process
  run_batch-IsRun [] acked s returned h = record {
    queued = refl;
    work = h;
    complete = sym (append-nil (done_tasks s.log));
    answered = refl;
    unstopped = refl;
    acked = sym (append-nil acked);
    fine = refl;
  }
  run_batch-IsRun ((id, coords) ∷ ts) acked s returned h =
      let c = check_abort-Continues s h in
      let u = (check_abort w s).0 in
      let v = record (tick u) { log = processed id coords ∷ u.log } in
      let k = run_batch-IsRun ts (acked ++ id ∷ []) v returned c.1.work in
      rw (c.0, returned u.now coords)
        (record {
          queued = k.queued ∙ c.1.queued;
          work = k.work;
          complete =
              k.complete
              ∙ append_assoc (done_tasks u.log) ((id, coords) ∷ []) ts
              ∙ ap (λ log. done_tasks log ++ (id, coords) ∷ ts) c.1.logged;
          answered = k.answered ∙ ap replies c.1.logged;
          unstopped = k.unstopped ∙ c.1.unstopped;
          acked = k.acked ∙ append_assoc acked (id ∷ []) (map (λ t. t.0) ts);
          fine = k.fine;
        })
