-- ===== src/Worker/Answers.antt =====
-- core/NDimensionalIpcRunner.cxx: the tasks that a worker has processed and those that it
-- acknowledges.
use mathlib.Core.List.{map-append}
use ndmspc.Base.{
  ◌≡◌, refl, sym, ap, ◌∙◌, if_cases, if◌then◌else◌, Bool, true, false, not, ◌||◌, List, [], ◌∷◌,
  ◌++◌, map, append-nil, append_assoc, Option, none, some, Bytes, bytes_dec, ℕ_discrete,
}
use ndmspc.Supervisor.Loop.Defs.{is_bytes, ack, ackb, err, stop, shutdown}
use ndmspc.Wire.Defs.{serialize_task_ids}
use ndmspc.Worker.Defs.{
  Act, sent, processed, Coords, Frames, Ran, TaskLoop, World, check_abort, is_abort,
  notify_shutdown, on_peek, peek, process, reason_of, run_batch, send, tick, call_of, unless_threw,
}
use ndmspc.Worker.Messages.{After, goes_on, named, on_exception}

-- The tasks whose `Process` has returned, the oldest first.
abbrev pub processed_ids : List Act → List Bytes
processed_ids [] = []
processed_ids (processed id coords ∷ log) = processed_ids log ++ id ∷ []
processed_ids (a ∷ log) = processed_ids log

abbrev pub is_reply : Frames → Bool
is_reply [] = false
is_reply (cmd ∷ rest) = is_bytes cmd ack || is_bytes cmd ackb

-- The acknowledgements that went out, the oldest first.
abbrev pub replies : List Act → List Frames
replies [] = []
replies (sent frames ∷ log) =
    let rest = replies log in if is_reply frames then rest ++ frames ∷ [] else rest
replies (a ∷ log) = replies log

-- What an acknowledgement is for: one task, or those of a batch.
pub data Reply : Type 0 where
  one : Bytes → Reply
  several : List Bytes → Reply

abbrev pub frames_of : Reply → Frames
frames_of (one id) = ack ∷ id ∷ []
frames_of (several ids) = ackb ∷ serialize_task_ids ids ∷ []

abbrev pub ids_of : List Reply → List Bytes
ids_of [] = []
ids_of (one id ∷ rs) = id ∷ ids_of rs
ids_of (several ids ∷ rs) = ids ++ ids_of rs

-- The acknowledgements are for the tasks processed, each once and in order, but for the last ones.
abbrev pub Answered : List Act → List Bytes → Type 0
Answered log unanswered =
    (rs : List Reply) × (replies log ≡ map frames_of rs)
    × (processed_ids log ≡ ids_of rs ++ unanswered)

-- Nothing is processed or acknowledged between two logs.
abbrev pub Quiet : List Act → List Act → Type 0
Quiet log log' = (replies log' ≡ replies log) × (processed_ids log' ≡ processed_ids log)

abbrev QuietLoop : List Act → TaskLoop → Type 0
QuietLoop log s = Quiet log s.log

abbrev QuietCheck : List Act → TaskLoop × Bool → Type 0
QuietCheck log p = Quiet log p.0.log

-- What holds behind a step: what is not acknowledged is so only if the loop ends.
abbrev pub IsKept : TaskLoop × After → Type 0
IsKept r = (rest : List Bytes) × Answered r.0.log rest × (r.1 ≡ goes_on → rest ≡ [])

pub Quiet-IsKept :
    (r : TaskLoop × After) (log : List Act) → Quiet log r.0.log → Answered log [] → IsKept r
Quiet-IsKept r log q a = ([], (a.0, q.0 ∙ a.1, q.1 ∙ a.2), λ h. refl)

shutdown_no_reply : (rest : Frames) → is_reply (shutdown ∷ rest) ≡ false
unfolding bytes_dec ℕ_discrete
shutdown_no_reply rest = refl

err_no_reply : (rest : Frames) → is_reply (err ∷ rest) ≡ false
unfolding bytes_dec ℕ_discrete
err_no_reply rest = refl

pub ack_reply : (rest : Frames) → is_reply (ack ∷ rest) ≡ true
unfolding bytes_dec ℕ_discrete
ack_reply rest = refl

pub ackb_reply : (rest : Frames) → is_reply (ackb ∷ rest) ≡ true
unfolding bytes_dec ℕ_discrete
ackb_reply rest = refl

module _ (w : World) where
  send-Quiet :
      (frames : Frames) (s : TaskLoop)
      → is_reply frames ≡ false
      → Quiet s.log (send w frames s).0.log
  unfolding send
  send-Quiet frames s h =
      if_cases (λ a. Quiet s.log (a ∷ s.log)) (w.takes s.now) (λ y. (rw h, refl))
        (λ n. (refl, refl))

  pub notify_shutdown-Quiet :
      (reason : Bytes) (s : TaskLoop) → Quiet s.log (notify_shutdown w reason s).log
  unfolding notify_shutdown
  notify_shutdown-Quiet reason s =
      if_cases (QuietLoop s.log) s.shutdown_sent (λ y. (refl, refl))
        (λ n.
          send-Quiet (shutdown ∷ reason ∷ w.print s.tasks_processed ∷ []) s
            (shutdown_no_reply (reason ∷ w.print s.tasks_processed ∷ [])))

  on_peek-Quiet : (frames : Frames) (s : TaskLoop) → Quiet s.log (on_peek w frames s).0.log
  unfolding on_peek
  on_peek-Quiet [] s = (refl, refl)
  on_peek-Quiet (cmd ∷ rest) s =
      if_cases (QuietCheck s.log) (is_bytes cmd stop)
        (λ y. notify_shutdown-Quiet (reason_of (is_abort rest)) _) (λ n. (refl, refl))

  peek-Quiet : (ms : List Frames) (s : TaskLoop) → Quiet s.log (peek w ms s).0.log
  unfolding peek
  peek-Quiet [] s = (refl, refl)
  peek-Quiet (f ∷ ms) s =
      if_cases (QuietCheck s.log) (w.breaks_off s.now || not (w.arrives s.now)) (λ y. (refl, refl))
        (λ n. on_peek-Quiet f _)

  check_abort-Quiet : (s : TaskLoop) → Quiet s.log (check_abort w s).0.log
  unfolding check_abort
  check_abort-Quiet s =
      if_cases (QuietCheck s.log) (w.interrupted s.now)
        (λ y.
          if_cases (QuietLoop s.log) s.aborted (λ y'. (refl, refl))
            (λ n. notify_shutdown-Quiet _ s))
        (λ n. peek-Quiet s.socket (tick s))

  -- The ids of a batch that are to be acknowledged are those of the tasks that were processed.
  abbrev pub BatchKept : List Act → List Bytes → Ran → Type 0
  BatchKept log base r =
      (replies r.loop.log ≡ replies log) × (processed_ids r.loop.log ≡ base ++ r.acked_task_ids)

  pub run_batch-kept :
      (ts : List (Bytes × Coords)) (acked base : List Bytes) (s : TaskLoop)
      → processed_ids s.log ≡ base ++ acked
      → BatchKept s.log base (run_batch w ts acked s)
  unfolding run_batch process
  run_batch-kept [] acked base s h = (refl, h)
  run_batch-kept ((id, coords) ∷ ts) acked base s h =
      let q = check_abort-Quiet s in
      let checked = check_abort w s in
      if_cases (BatchKept s.log base) checked.1 (λ y. (q.0, q.1 ∙ h))
        (λ n.
          called (w.process checked.0.now coords) checked.0 q
            (run_batch-kept ts (acked ++ id ∷ []) base))
    where
      called :
          (o : Option Bytes) (t : TaskLoop)
          → Quiet s.log t.log
          → ((u : TaskLoop)
              → processed_ids u.log ≡ base ++ (acked ++ id ∷ [])
              → BatchKept u.log base (run_batch w ts (acked ++ id ∷ []) u))
          → let u = record (tick t) { log = call_of id coords o ∷ t.log } in
            BatchKept s.log base
              (unless_threw id acked (u, o) (run_batch w ts (acked ++ id ∷ []) u))
      called none t q ih =
          let u = record (tick t) { log = processed id coords ∷ t.log } in
          let k = ih u (ap (λ ids. ids ++ id ∷ []) (q.1 ∙ h) ∙ append_assoc base acked (id ∷ [])) in
          (k.0 ∙ q.0, k.1)
      called (some text) t q ih = (q.0, q.1 ∙ h)

  pub on_exception-Quiet :
      (id text : Bytes) (s : TaskLoop) → Quiet s.log (on_exception w id text s).0.log
  unfolding on_exception
  on_exception-Quiet id text s =
      send-Quiet (err ∷ named id ∷ text ∷ []) s (err_no_reply (named id ∷ text ∷ []))

ids_of-append : (rs qs : List Reply) → ids_of (rs ++ qs) ≡ ids_of rs ++ ids_of qs
ids_of-append [] qs = refl
ids_of-append (one id ∷ rs) qs = ap (◌∷◌ id) (ids_of-append rs qs)
ids_of-append (several ids ∷ rs) qs =
    ap (◌++◌ ids) (ids_of-append rs qs) ∙ sym (append_assoc ids (ids_of rs) (ids_of qs))

-- An acknowledgement that goes out for all tasks that have none.
pub paid :
    (reply : Reply) (log : List Act)
    → is_reply (frames_of reply) ≡ true
    → Answered log (ids_of (reply ∷ []))
    → Answered (sent (frames_of reply) ∷ log) []
paid reply log h a = (
  a.0 ++ reply ∷ [],
  rw h (ap (λ fs. fs ++ frames_of reply ∷ []) a.1 ∙ sym (map-append frames_of a.0 (reply ∷ []))),
  a.2 ∙ sym (ids_of-append a.0 (reply ∷ [])) ∙ sym (append-nil (ids_of (a.0 ++ reply ∷ []))),
)
