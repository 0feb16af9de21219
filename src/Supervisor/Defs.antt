-- ===== src/Supervisor/Defs.antt =====
-- core/NDimensionalExecutor.cxx: `IpcSession`, the variables of `ExecuteCurrentBoundsProcessIpc`, and
-- what the supervisor does with its workers: dispatch, acknowledgement, failure.
pub mod Session
pub mod Sending
pub mod Failing
pub mod Replying
pub use Session.{
  Error, interrupted, task_exists, claim_failed, send_failed, ack_underflow, message_underflow,
  malformed_id, malformed_batch, malformed_message, unknown_command, worker_error, no_workers,
  receive_failed, stalled, Run,
}
unfoldable pub use Session.{remember}
unfoldable pub use Sending.{
  after_claim, claim_pending, after_new, add_new, fail_all, send_batch, adaptive_batch_size,
  redist_per_batch, effective_batch_size, max_in_flight_messages, fill_batch, dispatch,
}
unfoldable pub use Failing.{
  replay, remove_worker, remove_all, discount, handle_worker_failure, release_worker_messages,
}
unfoldable pub use Replying.{
  land_message, count_task, accept, count_ack, ack_task, on_ack, ack_tokens, ack_batch, on_ackb,
}
use Prim.Native.Nat.{min, max}
use mathlib.Core.Option
use ndmspc.Base.IdSet
use ndmspc.Base.IdSet.{IdSet}
use ndmspc.Base.Dict
use ndmspc.Base.Dict.{Dict}
use ndmspc.Base.{
  ℕ, zero, suc, ◌+◌, ◌-◌, ◌*◌, ◌/◌, ◌==◌, ltb, Bool, true, false, not, ◌&&◌, ◌||◌, List, [], ◌∷◌,
  ◌++◌, Option, none, some, bytes_dec, ℕ_discrete, if◌then◌else◌, ite, is_some, length,
}
use ndmspc.Sweep.Defs.{Executor, increment}
use ndmspc.Tasks.Defs.{
  State, Task, TaskId, WorkerId, add_pending, claim_next, mark_done, mark_failed, requeue_task,
  recover_worker_tasks, has_pending, get_task_worker, is_done, clear,
}

-- A worker that is lost: it timed out, crashed, failed a send or shut down.
unfoldable pub lose_worker : WorkerId → Run → Run
lose_worker w r = release_worker_messages w (handle_worker_failure w r)

-- The test of the main loop.
unfoldable pub goes_on : Run → Bool
goes_on r =
    (r.has_more || ltb 0 r.outstanding || has_pending r.task_state) && not (is_some r.first_error)

-- The variables when the main loop is entered, for a session with these workers.
unfoldable pub start_run : Bool → List WorkerId → Dict WorkerId ℕ → Executor → Run
start_run tcp workers indices e = record {
  executor = record e { current_coords = e.min_bounds };
  has_more = true;
  is_tcp = tcp;
  task_state = clear;
  worker_task_history = [];
  worker_identity_vec = workers;
  identity_to_worker = indices;
  failed_tcp_workers = [];
  last_worker_task_counts = [];
  next_task_id = 0;
  dispatch_message_id = 0;
  outstanding = 0;
  outstanding_messages = 0;
  acked = 0;
  in_flight_messages = [];
  first_error = none;
}
