-- ===== src/Worker/Notices.antt =====
-- core/NDimensionalIpcRunner.cxx: how often a worker says SHUTDOWN.
use ndmspc.Base.{
  ℕ, ◌+◌, ◌≡◌, refl, if_cases, if◌then◌else◌, Bool, true, not, ◌||◌, List, [], ◌∷◌, ◌++◌, Option,
  none, some, Bytes, arith, bytes_dec, ℕ_discrete,
}
use ndmspc.Supervisor.Loop.Defs.{is_bytes, ack, ackb, err, done, stop, shutdown}
use ndmspc.Worker.Defs.{
  Act, sent, lost, processed, Coords, Frames, Ran, TaskLoop, World, check_abort, is_abort,
  notify_shutdown, on_peek, peek, process, reason_of, run_batch, send, tick, by_user, call_of,
  unless_threw,
}
use ndmspc.Worker.Messages.{After}

abbrev pub notice : Frames → ℕ
notice [] = 0
notice (cmd ∷ rest) = if is_bytes cmd shutdown then 1 else 0

-- How many messages SHUTDOWN were sent or refused by ZeroMQ.
abbrev pub notices : List Act → ℕ
notices [] = 0
notices (sent frames ∷ log) = notice frames + notices log
notices (lost frames ∷ log) = notice frames + notices log
notices (a ∷ log) = notices log

-- The flag says whether there was one.
abbrev pub IsTold : TaskLoop → Type 0
IsTold s = notices s.log ≡ (if s.shutdown_sent then 1 else 0)

abbrev pub ToldCheck : TaskLoop × Bool → Type 0
ToldCheck p = IsTold p.0

abbrev pub ToldAfter : TaskLoop × After → Type 0
ToldAfter p = IsTold p.0

abbrev pub ToldRan : Ran → Type 0
ToldRan r = IsTold r.loop

pub notice-err : (rest : Frames) → notice (err ∷ rest) ≡ 0
unfolding bytes_dec ℕ_discrete
notice-err rest = refl

pub notice-ack : (rest : Frames) → notice (ack ∷ rest) ≡ 0
unfolding bytes_dec ℕ_discrete
notice-ack rest = refl

pub notice-ackb : (rest : Frames) → notice (ackb ∷ rest) ≡ 0
unfolding bytes_dec ℕ_discrete
notice-ackb rest = refl

pub notice-done : (rest : Frames) → notice (done ∷ rest) ≡ 0
unfolding bytes_dec ℕ_discrete
notice-done rest = refl

notice-shutdown : (rest : Frames) → notice (shutdown ∷ rest) ≡ 1
unfolding bytes_dec ℕ_discrete
notice-shutdown rest = refl

module _ (w : World) where
  notices-send :
      (frames : Frames) (s : TaskLoop)
      → notices (send w frames s).0.log ≡ notice frames + notices s.log
  unfolding send
  notices-send frames s =
      if_cases (λ a. notices (a ∷ s.log) ≡ notice frames + notices s.log) (w.takes s.now)
        (λ y. refl) (λ n. refl)

  pub notify_shutdown-IsTold :
      (reason : Bytes) (s : TaskLoop) → IsTold s → IsTold (notify_shutdown w reason s)
  unfolding notify_shutdown
  notify_shutdown-IsTold reason s t =
      let frames = shutdown ∷ reason ∷ w.print s.tasks_processed ∷ [] in
      if_cases IsTold s.shutdown_sent (λ y. t)
        (λ n. omega (
          arith,
          notices-send frames s,
          notice-shutdown (reason ∷ w.print s.tasks_processed ∷ []),
          t,
          rw n at t,
        ))

  pub send-IsTold :
      (frames : Frames) (s : TaskLoop) → notice frames ≡ 0 → IsTold s → IsTold (send w frames s).0
  unfolding send
  send-IsTold frames s h t = omega (arith, notices-send frames s, h, t)

  on_peek-IsTold : (frames : Frames) (s : TaskLoop) → IsTold s → ToldCheck (on_peek w frames s)
  unfolding on_peek
  on_peek-IsTold [] s t = t
  on_peek-IsTold (cmd ∷ rest) s t =
      if_cases ToldCheck (is_bytes cmd stop)
        (λ y.
          notify_shutdown-IsTold (reason_of (is_abort rest))
            (record s {
              stop_requested = true;
              stop_requested_abort = is_abort rest;
              aborted = is_abort rest;
            })
            t)
        (λ n. t)

  check_abort-IsTold : (s : TaskLoop) → IsTold s → ToldCheck (check_abort w s)
  unfolding check_abort
  check_abort-IsTold s t =
      if_cases ToldCheck (w.interrupted s.now)
        (λ y. if_cases IsTold s.aborted (λ y'. t) (λ n. notify_shutdown-IsTold by_user s t))
        (λ n. peeked s.socket)
    where
      peeked : (ms : List Frames) → ToldCheck (peek w ms (tick s))
      peeked [] = unfold peek in t
      peeked (f ∷ ms) =
          unfold peek in
          (if_cases ToldCheck (w.breaks_off (s.now + 1) || not (w.arrives (s.now + 1))) (λ y. t)
            (λ n. on_peek-IsTold f (record (tick (tick s)) { socket = ms }) t))

  pub run_batch-IsTold :
      (ts : List (Bytes × Coords)) (acked : List Bytes) (s : TaskLoop)
      → IsTold s
      → ToldRan (run_batch w ts acked s)
  unfolding run_batch process
  run_batch-IsTold [] acked s t = t
  run_batch-IsTold ((id, coords) ∷ ts) acked s t =
      let c = check_abort w s in
      let t' = check_abort-IsTold s t in
      if_cases ToldRan c.1 (λ y. t')
        (λ n. called (w.process c.0.now coords) c.0 t' (run_batch-IsTold ts (acked ++ id ∷ [])))
    where
      called :
          (o : Option Bytes) (u : TaskLoop)
          → IsTold u
          → ((v : TaskLoop) → IsTold v → ToldRan (run_batch w ts (acked ++ id ∷ []) v))
          → let v = record (tick u) { log = call_of id coords o ∷ u.log } in
            ToldRan (unless_threw id acked (v, o) (run_batch w ts (acked ++ id ∷ []) v))
      called none u t ih = ih (record (tick u) { log = processed id coords ∷ u.log }) t
      called (some text) u t ih = t
