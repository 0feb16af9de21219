-- ===== src/Supervisor/Loop/Messages.antt =====
-- core/NDimensionalExecutor.cxx: the messages that the main loop receives, and the loop as a sequence
-- of events.
use ndmspc.Base.Dict
use ndmspc.Base.{
  ℕ, ◌+◌, ◌==◌, ltb, Bool, true, false, ◌&&◌, ◌||◌, List, [], ◌∷◌, ◌++◌, map, Option, none, some,
  Bytes, bytes_dec, if◌then◌else◌, is_some,
}
use ndmspc.Tasks.Defs.{WorkerId}
use ndmspc.Wire.Defs.{split}
use ndmspc.Supervisor.Defs.{
  Run, interrupted, malformed_id, malformed_message, unknown_command, worker_error, receive_failed,
  stalled, remove_worker, lose_worker, on_ack, on_ackb,
}
use ndmspc.Supervisor.Loop.Defs.{
  Loop, Settings, is_bytes, add_member, fail_run, require_workers, dispatch_round, time_out, starve,
  clean_up, ready, ack, ackb, err, bootstrap, shutdown, done, stop, worker_prefix,
}

-- The rest of a text behind a prefix.
unfoldable pub strip_prefix : Bytes → Bytes → Option Bytes
strip_prefix [] text = some text
strip_prefix (p ∷ ps) [] = none
strip_prefix (p ∷ ps) (c ∷ cs) = let rest = strip_prefix ps cs in if p == c then rest else none

-- The index in the identity of a worker, with the rest of the identity longer than nothing.
unfoldable pub late_index : (Bytes → Option ℕ) → WorkerId → Option ℕ
late_index parse id = elim (strip_prefix worker_prefix id) [
  | none ↦ none
  | some [] ↦ none
  | some (c ∷ cs) ↦ parse (c ∷ cs)
]

-- `READY`, with whether `INIT` is sent.
unfoldable pub on_ready : (Bytes → Option ℕ) → Bool → WorkerId → Loop → Loop
on_ready parse sent id l =
    let seen = record l { seen_worker_identities = add_member id l.seen_worker_identities } in
    if is_some (Dict.find bytes_dec id l.run.identity_to_worker)
      || is_some (Dict.find bytes_dec id l.pending_init_workers)
    then seen
    else elim (late_index parse id) [
      | none ↦ seen
      | some idx ↦
          if ltb idx l.max_workers && sent
          then record seen {
            pending_init_workers = Dict.put bytes_dec id idx l.pending_init_workers;
          }
          else seen
    ]

-- The reply to `INIT`: the worker joins.
unfoldable pub join_worker : WorkerId → ℕ → Run → Run
join_worker id idx r =
    let others =
      if is_some (Dict.find bytes_dec id r.identity_to_worker)
      then remove_worker id r.worker_identity_vec
      else r.worker_identity_vec in
    record r {
      identity_to_worker = Dict.put bytes_dec id idx r.identity_to_worker;
      worker_identity_vec = others ++ id ∷ [];
    }

-- An `ACK` of two frames over TCP; `none` if it is no reply to `INIT`.
unfoldable pub on_init_ack : WorkerId → Loop → Option Loop
on_init_ack id l = elim (Dict.find bytes_dec id l.pending_init_workers) [
  | none ↦ none
  | some idx ↦ some (record l {
    run = join_worker id idx l.run;
    pending_init_workers = Dict.erase bytes_dec id l.pending_init_workers;
  })
]

-- The next slot for a worker.
unfoldable pub assign_slot : WorkerId → Loop → Loop
assign_slot id l = record l {
  bootstrap_next_idx = l.bootstrap_next_idx + 1;
  bootstrap_assignments = Dict.put bytes_dec id l.bootstrap_next_idx l.bootstrap_assignments;
}

-- `HandleBootstrap`: the slot that the worker is told, or none if it is rejected.
unfoldable pub handle_bootstrap : WorkerId → Loop → Loop × Option ℕ
handle_bootstrap id l = elim (Dict.find bytes_dec id l.bootstrap_assignments) [
  | some idx ↦ (l, some idx)
  | none ↦
      if ltb l.bootstrap_next_idx l.max_workers
      then (assign_slot id l, some l.bootstrap_next_idx)
      else (l, none)
]

abbrev pub is_stop : List Bytes → Bool
is_stop [] = false
is_stop (reason ∷ more) = is_bytes reason stop

-- `SHUTDOWN`, with the frames behind the name.
unfoldable pub on_shutdown : WorkerId → List Bytes → Run → Run
on_shutdown id rest r =
    if is_stop rest
    then r
    else if r.is_tcp
    then lose_worker id (record r { failed_tcp_workers = id ∷ r.failed_tcp_workers })
    else require_workers (lose_worker id r)

unfoldable pub on_done : WorkerId → Loop → Loop
on_done id l =
    if is_some (Dict.find bytes_dec id l.run.identity_to_worker)
    then record l { early_done_workers = add_member id l.early_done_workers }
    else l

-- The ids of an `ACKB`.
unfoldable pub batch_ids : (Bytes → Option ℕ) → Bytes → Option (List (Option ℕ))
batch_ids parse [] = none
batch_ids parse (c ∷ cs) = some (map parse (split b',' [] (c ∷ cs)))

unfoldable pub on_err : Option ℕ → Run → Run
on_err none r = fail_run malformed_id r
on_err (some id) r = fail_run worker_error r

-- The messages of three frames, with the frames behind the name.
unfoldable pub on_command : (Bytes → Option ℕ) → WorkerId → Bytes → List Bytes → Run → Run
on_command parse id cmd [] r = if is_bytes cmd ack then r else fail_run malformed_message r
on_command parse id cmd (text ∷ more) r =
    if is_bytes cmd ack
    then on_ack id (parse text) r
    else if is_bytes cmd ackb
    then on_ackb id (batch_ids parse text) r
    else if is_bytes cmd err
    then on_err (parse text) r
    else fail_run unknown_command r

abbrev pub is_empty : List Bytes → Bool
is_empty [] = true
is_empty (f ∷ fs) = false

-- The messages that are told apart by the name alone, after those that only TCP knows.
unfoldable pub on_message : Settings → WorkerId → Bytes → List Bytes → Loop → Loop
on_message s id cmd rest l =
    if is_bytes cmd shutdown
    then record l { run = on_shutdown id rest l.run }
    else if is_bytes cmd done && is_empty rest
    then on_done id l
    else record l { run = on_command s.parse id cmd rest l.run }

unfoldable pub on_tcp_message : Settings → Bool → WorkerId → Bytes → List Bytes → Loop → Loop
on_tcp_message s sent id cmd rest l =
    if is_bytes cmd ready
    then on_ready s.parse sent id l
    else if is_bytes cmd ack && is_empty rest
    then elim (on_init_ack id l) [ none ↦ on_message s id cmd rest l | some joined ↦ joined ]
    else if is_bytes cmd bootstrap
    then (handle_bootstrap id l).0
    else on_message s id cmd rest l

-- A received message, with whether an `INIT` that it calls for is sent.
unfoldable pub on_frames : Settings → Bool → List Bytes → Loop → Loop
on_frames s sent [] l = l
on_frames s sent (f ∷ []) l = l
on_frames s sent (id ∷ cmd ∷ rest) l =
    if l.run.is_tcp then on_tcp_message s sent id cmd rest l else on_message s id cmd rest l

-- What happens in the main loop, with what the environment decides: a round of the inner loop, the
-- removal of the workers that a send failed for, a message, a worker that is too long silent or whose
-- process has ended, and what ends the run.
pub data Event : Type 0 where
  dispatches : Bool → (ℕ → Bool) → Event
  receives : Bool → List Bytes → Event
  times_out crashes : WorkerId → Event
  cleans interrupts starves breaks stalls : Event

unfoldable pub handle : Settings → Event → Loop → Loop
handle s (dispatches sent poll) l = record l { run = dispatch_round s sent poll l.run }
handle s (receives sent frames) l = on_frames s sent frames l
handle s (times_out w) l = record l { run = time_out w l.run }
handle s (crashes w) l = record l { run = require_workers (lose_worker w l.run) }
handle s cleans l = record l { run = clean_up l.run }
handle s interrupts l = record l { run = fail_run interrupted l.run }
handle s starves l = record l { run = starve l.run }
handle s breaks l = record l { run = if l.run.is_tcp then l.run else fail_run receive_failed l.run }
handle s stalls l = record l {
  run = if ltb 0 l.run.outstanding then fail_run stalled l.run else l.run;
}

-- The events in turn. A run that has failed throws at its end, whatever it still does, so that nothing
-- is followed after an error.
unfoldable pub play : Settings → List Event → Loop → Loop
play s [] l = l
play s (e ∷ es) l =
    let rest = play s es (handle s e l) in if is_some l.run.first_error then l else rest
