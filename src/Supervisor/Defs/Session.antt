-- ===== src/Supervisor/Defs/Session.antt =====
-- core/NDimensionalExecutor.cxx: `IpcSession` and the variables of
-- `ExecuteCurrentBoundsProcessIpc`.
use mathlib.Core.Option
use ndmspc.Base.IdSet
use ndmspc.Base.IdSet.{IdSet}
use ndmspc.Base.Dict
use ndmspc.Base.Dict.{Dict}
use ndmspc.Base.{ℕ, Bool, List, [], Option, bytes_dec}
use ndmspc.Sweep.Defs.{Executor}
use ndmspc.Tasks.Defs.{State, TaskId, WorkerId}

-- The texts that `firstError` can hold.
pub data Error : Type 0 where
  interrupted task_exists claim_failed send_failed ack_underflow message_underflow : Error
  malformed_id malformed_batch malformed_message unknown_command worker_error : Error
  no_workers receive_failed stalled : Error

pub record Run : Type 0 where
  pub executor : Executor
  pub has_more : Bool
  pub is_tcp : Bool
  pub task_state : State
  pub worker_task_history : Dict WorkerId IdSet
  pub worker_identity_vec : List WorkerId
  pub identity_to_worker : Dict WorkerId ℕ
  pub failed_tcp_workers : List WorkerId
  pub last_worker_task_counts : Dict ℕ ℕ
  pub next_task_id : ℕ
  pub dispatch_message_id : ℕ
  pub outstanding : ℕ
  pub outstanding_messages : ℕ
  pub acked : ℕ
  pub in_flight_messages : Dict WorkerId ℕ
  pub first_error : Option Error

-- `fIpcSession->workerTaskHistory[identity].insert(taskId)`
unfoldable pub remember : WorkerId → TaskId → Dict WorkerId IdSet → Dict WorkerId IdSet
remember w id h =
    Dict.put bytes_dec w (IdSet.insert id (Option.get_or (Dict.find bytes_dec w h) [])) h
