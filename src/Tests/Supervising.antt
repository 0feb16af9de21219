-- ===== src/Tests/Supervising.antt =====
-- core/NDimensionalExecutor.cxx: a supervisor with one worker and a sweep of two points.
use ndmspc.Base.Int.{pos, ◌+ℤ◌}
use ndmspc.Base.IdSet
use ndmspc.Base.Dict
use ndmspc.Base.{
  ℕ, ◌≡◌, ◌<◌, refl, ◌+◌, length, Bool, true, false, [], ◌∷◌, none, some, bytes_dec, ℕ_discrete,
}
use ndmspc.Sweep.Defs.{Executor, increment, increment_loop}
use ndmspc.Tasks.Defs.{
  TaskId, WorkerId, add_pending, claim_next, claim_first, enqueue_pending, task_exists,
  start_running, insert_for_worker, mark_done, release_from_worker, erase_for_worker, drop_if_empty,
  recover_worker_tasks, recover_tasks, recover_task, requeue_task, requeue_done, stop_running,
  mark_failed, has_pending, get_task_worker, is_done, pending_count, running_count,
}
use ndmspc.Supervisor.Balance.{IsBalanced, start_run-IsBalanced}
use ndmspc.Supervisor.Acks.{IsSound, on_ack-IsSound, on_ackb-IsSound}
use ndmspc.Supervisor.Dispatch.{IsExpected}
use ndmspc.Supervisor.Failure.{handle_worker_failure-IsBalanced}
use ndmspc.Supervisor.Rounds.{dispatch_sent-IsBalanced, dispatch_lost-IsBalanced, ended-all-done}
use ndmspc.Supervisor.Defs.{
  Run, start_run, remember, after_claim, claim_pending, after_new, add_new, fail_all, send_batch,
  adaptive_batch_size, redist_per_batch, max_in_flight_messages, fill_batch, dispatch, goes_on,
  accept, count_ack, count_task, land_message, on_ack, on_ackb, ack_task, ack_tokens, ack_batch,
  handle_worker_failure, lose_worker, replay,
}

abbrev pub worker : WorkerId
worker = b'w' ∷ []

abbrev pub two_points : Executor
two_points = record {
  num_dimensions = 1;
  min_bounds = pos 1 ∷ [];
  max_bounds = pos 2 ∷ [];
  current_coords = pos 1 ∷ [];
}

abbrev begun : Run
begun = start_run true (worker ∷ []) ((worker, 0) ∷ []) two_points

abbrev pub quiet : ℕ → Bool
quiet n = false

-- Both points are sent in one message.
abbrev sent_all : Run
sent_all = dispatch true quiet 2 2 worker begun

-- Both are acknowledged.
abbrev finished : Run
finished = on_ackb worker (some (some 0 ∷ some 1 ∷ [])) sent_all

abbrev unsent : Run
unsent = dispatch false quiet 2 2 worker begun

program : Unit {0}
unfolding start_run remember after_claim claim_pending after_new add_new fail_all send_batch
    adaptive_batch_size redist_per_batch max_in_flight_messages fill_batch dispatch goes_on accept
    count_ack count_task land_message on_ack on_ackb ack_task ack_tokens ack_batch
    handle_worker_failure lose_worker replay increment increment_loop ◌+ℤ◌ add_pending claim_next
    claim_first enqueue_pending task_exists start_running insert_for_worker mark_done
    release_from_worker erase_for_worker drop_if_empty recover_worker_tasks recover_tasks
    recover_task requeue_task requeue_done stop_running mark_failed has_pending get_task_worker
    bytes_dec ℕ_discrete IdSet.contains IdSet.insert IdSet.erase Dict.find Dict.put Dict.erase
program = tt

begun-IsBalanced : IsBalanced 0 begun
begun-IsBalanced = start_run-IsBalanced true (worker ∷ []) ((worker, 0) ∷ []) two_points

begun_fine : begun.first_error ≡ none
unfolding program
begun_fine = refl

-- The dispatch sends both tasks and leaves nothing to make.
sent_all_state :
    (sent_all.outstanding ≡ 2)
    × (sent_all.has_more ≡ false)
    × (sent_all.first_error ≡ none)
    × (running_count sent_all.task_state ≡ 2)
unfolding program
sent_all_state = (refl, refl, refl, refl)

finished_state : (finished.acked ≡ 2) × (finished.first_error ≡ none) × (goes_on finished ≡ false)
unfolding program
finished_state = (refl, refl, refl)

unsent_state :
    (unsent.outstanding ≡ 2)
    × (unsent.first_error ≡ none)
    × (pending_count unsent.task_state ≡ 2)
    × (length (fill_batch quiet 2 2 worker begun).1 ≡ 2)
unfolding program
unsent_state = (refl, refl, refl, refl)

dispatch_sent-IsBalanced_example : IsBalanced 0 sent_all × IsExpected sent_all.first_error
dispatch_sent-IsBalanced_example =
    dispatch_sent-IsBalanced 0 quiet 2 2 worker begun begun-IsBalanced begun_fine

sent_all-IsBalanced : IsBalanced 0 sent_all
sent_all-IsBalanced = dispatch_sent-IsBalanced_example.0

sent_all_fine : sent_all.first_error ≡ none
unfolding program
sent_all_fine = refl

on_ackb-IsSound_example : IsSound 0 finished
on_ackb-IsSound_example =
    on_ackb-IsSound 0 worker (some (some 0 ∷ some 1 ∷ [])) sent_all sent_all-IsBalanced
      sent_all_fine

on_ack-IsSound_example : IsSound 0 (on_ack worker (some 1) sent_all)
on_ack-IsSound_example = on_ack-IsSound 0 worker (some 1) sent_all sent_all-IsBalanced sent_all_fine

handle_worker_failure-IsBalanced_example : IsBalanced 0 (handle_worker_failure worker sent_all)
handle_worker_failure-IsBalanced_example =
    handle_worker_failure-IsBalanced 0 worker sent_all sent_all-IsBalanced

finished_fine : finished.first_error ≡ none
finished_fine = finished_state.1

finished-IsBalanced : IsBalanced 0 finished
finished-IsBalanced = on_ackb-IsSound_example.0 finished_fine

ended-all-done_example :
    (finished.has_more ≡ false)
    × (pending_count finished.task_state ≡ 0)
    × (running_count finished.task_state ≡ 0)
    × (finished.acked ≡ finished.next_task_id)
    × ((i : TaskId) → i < finished.next_task_id → is_done finished.task_state i ≡ true)
ended-all-done_example = ended-all-done finished finished-IsBalanced finished_fine finished_state.2

dispatch_lost-IsBalanced_example :
    IsBalanced (0 + length (fill_batch quiet 2 2 worker begun).1) unsent
dispatch_lost-IsBalanced_example =
    dispatch_lost-IsBalanced 0 quiet 2 2 worker begun begun-IsBalanced begun_fine unsent_state.1
