-- ===== src/Supervisor/Loop/Whole.antt =====
-- core/NDimensionalExecutor.cxx: the counters and the end of the main loop, over sequences of events.
use ndmspc.Base.Dict
use ndmspc.Base.{
  ℕ, ◌<◌, ◌≡◌, ltb, Bool, true, false, ◌&&◌, List, [], ◌∷◌, Option, none, some, Bytes, bytes_dec,
  arith, if_cases, subst, sym, is_some, All, Option-cases, inl, inr,
}
use ndmspc.Sweep.Defs.{Executor}
use ndmspc.Tasks.Defs.{WorkerId, TaskId, is_done, pending_count, running_count}
use ndmspc.Supervisor.Balance.{IsBalanced, start_run-IsBalanced}
use ndmspc.Supervisor.Acks.{on_ack-IsSound, on_ackb-IsSound}
use ndmspc.Supervisor.Failure.{lose_worker-IsBalanced}
use ndmspc.Supervisor.Rounds.{ended-all-done}
use ndmspc.Supervisor.Defs.{
  Run, goes_on, start_run, interrupted, receive_failed, stalled, malformed_message, unknown_command,
  worker_error, malformed_id,
}
use ndmspc.Supervisor.Loop.Defs.{
  Loop, Settings, is_bytes, ready, ack, ackb, err, bootstrap, shutdown, done,
}
use ndmspc.Supervisor.Loop.Messages.{
  Event, dispatches, receives, times_out, crashes, cleans, interrupts, starves, breaks, stalls,
  handle, play, on_ready, on_init_ack, handle_bootstrap, assign_slot, on_shutdown, on_done, on_err,
  on_command, on_message, on_tcp_message, on_frames, batch_ids, join_worker, is_stop, is_empty,
}
use ndmspc.Supervisor.Loop.Rounds.{
  IsFine, fail_run-IsFine, lost-IsFine, time_out-IsFine, clean_up-IsFine, dispatch_round-IsFine,
  starve-IsFine,
}

module _ (leak : ℕ) where
  on_shutdown-IsFine :
      (id : WorkerId) (rest : List Bytes) (r : Run)
      → IsBalanced leak r
      → IsFine leak (on_shutdown id rest r)
  unfolding on_shutdown
  on_shutdown-IsFine id rest r b =
      let marked = record r { failed_tcp_workers = id ∷ r.failed_tcp_workers } in
      if_cases (IsFine leak) (is_stop rest) (λ y h. b)
        (λ n.
          if_cases (IsFine leak) r.is_tcp (λ y h. lose_worker-IsBalanced leak id marked b)
            (λ n'. lost-IsFine leak id r b))

  on_err-IsFine : (parsed : Option ℕ) (r : Run) → IsFine leak (on_err parsed r)
  unfolding on_err
  on_err-IsFine none r = fail_run-IsFine leak malformed_id r
  on_err-IsFine (some id) r = fail_run-IsFine leak worker_error r

  on_command-IsFine :
      (parse : Bytes → Option ℕ) (id : WorkerId) (cmd : Bytes) (rest : List Bytes) (r : Run)
      → IsBalanced leak r
      → r.first_error ≡ none
      → IsFine leak (on_command parse id cmd rest r)
  unfolding on_command
  on_command-IsFine parse id cmd [] r b e =
      if_cases (IsFine leak) (is_bytes cmd ack) (λ y h. b)
        (λ n. fail_run-IsFine leak malformed_message r)
  on_command-IsFine parse id cmd (text ∷ more) r b e =
      if_cases (IsFine leak) (is_bytes cmd ack) (λ y. (on_ack-IsSound leak id (parse text) r b e).0)
        (λ n.
          if_cases (IsFine leak) (is_bytes cmd ackb)
            (λ y. (on_ackb-IsSound leak id (batch_ids parse text) r b e).0)
            (λ n'.
              if_cases (IsFine leak) (is_bytes cmd err) (λ y. on_err-IsFine (parse text) r)
                (λ n''. fail_run-IsFine leak unknown_command r)))

  -- The counters are in step in a session whose run has not failed.
  abbrev IsFineLoop : Loop → Type 0
  IsFineLoop l = IsFine leak l.run

  on_ready_run :
      (parse : Bytes → Option ℕ) (sent : Bool) (id : WorkerId) (l : Loop)
      → (on_ready parse sent id l).run ≡ l.run
  unfolding on_ready
  on_ready_run parse sent id l = ground arith

  handle_bootstrap_run : (id : WorkerId) (l : Loop) → (handle_bootstrap id l).0.run ≡ l.run
  unfolding handle_bootstrap assign_slot
  handle_bootstrap_run id l = ground arith

  on_done_run : (id : WorkerId) (l : Loop) → (on_done id l).run ≡ l.run
  unfolding on_done
  on_done_run id l = ground arith

  on_message-IsFine :
      (s : Settings) (id : WorkerId) (cmd : Bytes) (rest : List Bytes) (l : Loop)
      → IsBalanced leak l.run
      → l.run.first_error ≡ none
      → IsFine leak (on_message s id cmd rest l).run
  unfolding on_message
  on_message-IsFine s id cmd rest l b e =
      if_cases IsFineLoop (is_bytes cmd shutdown) (λ y. on_shutdown-IsFine id rest l.run b)
        (λ n.
          if_cases IsFineLoop (is_bytes cmd done && is_empty rest)
            (λ y. rw (on_done_run id l) (λ h. b))
            (λ n'. on_command-IsFine s.parse id cmd rest l.run b e))

  on_init_ack-IsFine :
      (id : WorkerId) (l joined : Loop)
      → on_init_ack id l ≡ some joined
      → IsBalanced leak l.run
      → IsFine leak joined.run
  unfolding on_init_ack join_worker
  on_init_ack-IsFine id l joined e b h =
      elim (Option-cases (Dict.find bytes_dec id l.pending_init_workers)) [
        | inl absent ↦ absurd (ground arith)
        | inr (idx, found) ↦
            subst (IsBalanced leak) {x = join_worker id idx l.run} {y = joined.run} (ground arith) b
      ]

  on_tcp_message-IsFine :
      (s : Settings) (sent : Bool) (id : WorkerId) (cmd : Bytes) (rest : List Bytes) (l : Loop)
      → IsBalanced leak l.run
      → l.run.first_error ≡ none
      → IsFine leak (on_tcp_message s sent id cmd rest l).run
  unfolding on_tcp_message
  on_tcp_message-IsFine s sent id cmd rest l b e =
      let other = on_message-IsFine s id cmd rest l b e in
      if_cases IsFineLoop (is_bytes cmd ready) (λ y. rw (on_ready_run s.parse sent id l) (λ h. b))
        (λ n.
          if_cases IsFineLoop (is_bytes cmd ack && is_empty rest)
            (λ y. elim (Option-cases (on_init_ack id l)) [
              | inl no_init ↦ rw no_init other
              | inr (joined, is) ↦ rw is (on_init_ack-IsFine id l joined is b)
            ])
            (λ n'.
              if_cases IsFineLoop (is_bytes cmd bootstrap)
                (λ y. rw (handle_bootstrap_run id l) (λ h. b)) (λ n''. other)))

  on_frames-IsFine :
      (s : Settings) (sent : Bool) (frames : List Bytes) (l : Loop)
      → IsBalanced leak l.run
      → l.run.first_error ≡ none
      → IsFine leak (on_frames s sent frames l).run
  unfolding on_frames
  on_frames-IsFine s sent [] l b e = λ h. b
  on_frames-IsFine s sent (f ∷ []) l b e = λ h. b
  on_frames-IsFine s sent (id ∷ cmd ∷ rest) l b e =
      if_cases IsFineLoop l.run.is_tcp (λ y. on_tcp_message-IsFine s sent id cmd rest l b e)
        (λ n. on_message-IsFine s id cmd rest l b e)

-- The events whose sends ZeroMQ took.
abbrev pub IsTaken : Event → Type 0
IsTaken (dispatches sent poll) = sent ≡ true
IsTaken _ = Unit {0}

handle-IsFine :
    (leak : ℕ) (s : Settings) (e : Event) (l : Loop)
    → IsTaken e
    → IsBalanced leak l.run
    → l.run.first_error ≡ none
    → IsFine leak (handle s e l).run
unfolding handle
handle-IsFine leak s (dispatches sent poll) l t b f =
    rw t (dispatch_round-IsFine leak s poll l.run b f)
handle-IsFine leak s (receives sent frames) l t b f = on_frames-IsFine leak s sent frames l b f
handle-IsFine leak s (times_out w) l t b f = time_out-IsFine leak w l.run b
handle-IsFine leak s (crashes w) l t b f = lost-IsFine leak w l.run b
handle-IsFine leak s cleans l t b f = clean_up-IsFine leak l.run b
handle-IsFine leak s interrupts l t b f = fail_run-IsFine leak interrupted l.run
handle-IsFine leak s starves l t b f = starve-IsFine leak l.run b
handle-IsFine leak s breaks l t b f =
    if_cases (IsFine leak) l.run.is_tcp (λ y h. b) (λ n. fail_run-IsFine leak receive_failed l.run)
handle-IsFine leak s stalls l t b f =
    if_cases (IsFine leak) (ltb 0 l.run.outstanding) (λ y. fail_run-IsFine leak stalled l.run)
      (λ n h. b)

-- Whatever happens while every send is taken, the counters stay in step with the task manager until
-- the run fails.
pub play-IsFine :
    (leak : ℕ) (s : Settings) (es : List Event) (l : Loop)
    → All IsTaken es
    → IsFine leak l.run
    → IsFine leak (play s es l).run
unfolding play
play-IsFine leak s [] l t b = b
play-IsFine leak s (e ∷ es) l t b =
    if_cases (IsFineLoop leak) (is_some l.run.first_error) (λ y. b)
      (λ n.
        let f : l.run.first_error ≡ none = ground arith in
        play-IsFine leak s es (handle s e l) t.1 (handle-IsFine leak s e l t.0 (b f) f))

-- Whatever messages, losses of workers and decisions of the environment a run is made of, if every
-- send is taken and the main loop ends with no error, then the sweep is at its end, nothing is pending
-- or runs, each task that was made is done, and `acked` is their number.
pub play_finished :
    (s : Settings) (es : List Event) (l : Loop) (tcp : Bool) (workers : List WorkerId)
    (indices : Dict.Dict WorkerId ℕ) (e : Executor)
    → All IsTaken es
    → l.run ≡ start_run tcp workers indices e
    → (play s es l).run.first_error ≡ none
    → goes_on (play s es l).run ≡ false
    → let r = (play s es l).run in
      (r.has_more ≡ false)
      × (pending_count r.task_state ≡ 0)
      × (running_count r.task_state ≡ 0)
      × (r.acked ≡ r.next_task_id)
      × ((i : TaskId) → i < r.next_task_id → is_done r.task_state i ≡ true)
play_finished s es l tcp workers indices e t begin fine ended =
    let b = subst (IsBalanced 0) (sym begin) (start_run-IsBalanced tcp workers indices e) in
    ended-all-done (play s es l).run (play-IsFine 0 s es l t (λ h. b) fine) fine ended
