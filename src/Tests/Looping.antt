-- ===== src/Tests/Looping.antt =====
-- core/NDimensionalExecutor.cxx: a whole run over TCP, with two points and one worker.
use ndmspc.Base.Int.{◌+ℤ◌}
use ndmspc.Base.IdSet
use ndmspc.Base.Dict
use ndmspc.Base.{
  ℕ, ◌≡◌, ◌<◌, ◌==◌, arith, refl, true, false, List, [], ◌∷◌, Option, none, some, bytes_dec,
  ℕ_discrete, Bytes, All, if◌then◌else◌,
}
use ndmspc.Sweep.Defs.{increment, increment_loop}
use ndmspc.Tasks.Defs.{
  TaskId, add_pending, claim_next, claim_first, enqueue_pending, task_exists, start_running,
  insert_for_worker, mark_done, release_from_worker, erase_for_worker, drop_if_empty, has_pending,
  get_task_worker, is_done, pending_count, running_count,
}
use ndmspc.Supervisor.Balance.{start_run-IsBalanced}
use ndmspc.Supervisor.Defs.{
  Run, start_run, remember, after_claim, claim_pending, after_new, add_new, send_batch,
  adaptive_batch_size, redist_per_batch, max_in_flight_messages, fill_batch, dispatch, goes_on,
  accept, count_ack, count_task, land_message, on_ack, on_ackb, ack_task, ack_tokens, ack_batch,
}
use ndmspc.Supervisor.Loop.Defs.{
  Loop, Settings, has_workers, worker_at, is_eligible, search_worker, pick_worker, may_dispatch,
  after_pick, dispatch_round, member, ackb,
}
use ndmspc.Supervisor.Loop.Messages.{
  Event, dispatches, receives, handle, play, on_command, on_message, on_tcp_message, on_frames,
  batch_ids, handle_bootstrap,
}
use ndmspc.Supervisor.Loop.Bootstrap.{IsAssigned, IsAnswer, slot, handle_bootstrap-IsAnswer}
use ndmspc.Supervisor.Loop.Rounds.{IsFine}
use ndmspc.Supervisor.Loop.Whole.{IsTaken, play-IsFine, play_finished}
use ndmspc.Wire.Defs.{split}
use ndmspc.Tests.Supervising.{two_points, worker, quiet}

-- Ids of one digit.
digit : Bytes → Option ℕ
digit (c ∷ []) = if c == b'0' then some 0 else if c == b'1' then some 1 else none
digit _ = none

abbrev settings : Settings
settings = record { parse = digit; tcp_max_in_flight = 1; effective_batch = 2; total_tasks = 2 }

abbrev opened : Loop
opened = record {
  run = start_run true (worker ∷ []) ((worker, 0) ∷ []) two_points;
  max_workers = 2;
  pending_init_workers = [];
  early_done_workers = [];
  seen_worker_identities = [];
  bootstrap_next_idx = 0;
  bootstrap_assignments = [];
}

-- Both points are sent, and the reply is `0,1`.
abbrev events : List Event
events = dispatches true quiet ∷ receives true (worker ∷ ackb ∷ (b'0' ∷ b',' ∷ b'1' ∷ []) ∷ []) ∷ []

abbrev closed : Run
closed = (play settings events opened).run

program : Unit {0}
unfolding digit start_run remember after_claim claim_pending after_new add_new send_batch
    adaptive_batch_size redist_per_batch max_in_flight_messages fill_batch dispatch goes_on accept
    count_ack count_task land_message on_ack on_ackb ack_task ack_tokens ack_batch increment
    increment_loop ◌+ℤ◌ add_pending claim_next claim_first enqueue_pending task_exists start_running
    insert_for_worker mark_done release_from_worker erase_for_worker drop_if_empty has_pending
    get_task_worker bytes_dec ℕ_discrete IdSet.contains IdSet.insert IdSet.erase Dict.find Dict.put
    Dict.erase has_workers worker_at is_eligible search_worker pick_worker may_dispatch after_pick
    dispatch_round member handle play on_command on_message on_tcp_message on_frames split batch_ids
program = tt

closed_state : (closed.first_error ≡ none) × (goes_on closed ≡ false) × (closed.acked ≡ 2)
unfolding program
closed_state = (refl, refl, refl)

events-IsTaken : All IsTaken events
events-IsTaken = (refl, (tt, tt))

play_finished_example :
    (closed.has_more ≡ false)
    × (pending_count closed.task_state ≡ 0)
    × (running_count closed.task_state ≡ 0)
    × (closed.acked ≡ closed.next_task_id)
    × ((i : TaskId) → i < closed.next_task_id → is_done closed.task_state i ≡ true)
play_finished_example =
    play_finished settings events opened true (worker ∷ []) ((worker, 0) ∷ []) two_points
      events-IsTaken refl closed_state.0 closed_state.1

opened-IsFine : IsFine 0 opened.run
opened-IsFine h = start_run-IsBalanced true (worker ∷ []) ((worker, 0) ∷ []) two_points

play-IsFine_example : IsFine 0 closed
play-IsFine_example = play-IsFine 0 settings events opened events-IsTaken opened-IsFine

opened-IsAssigned : IsAssigned opened
unfolding Dict.find
opened-IsAssigned = record {
  capacity = omega arith;
  below = λ id n h. absurd (ground arith);
  single = λ a b n h k. absurd (ground arith);
}

handle_bootstrap-IsAnswer_example :
    IsAnswer worker opened (slot worker opened) (handle_bootstrap worker opened)
handle_bootstrap-IsAnswer_example = handle_bootstrap-IsAnswer worker opened opened-IsAssigned
