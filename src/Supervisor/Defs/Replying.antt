-- ===== src/Supervisor/Defs/Replying.antt =====
-- core/NDimensionalExecutor.cxx: the handlers of `ACK` and `ACKB`.
use mathlib.Core.Option
use ndmspc.Base.Dict
use ndmspc.Base.Dict.{Dict}
use ndmspc.Base.{
  ℕ, ◌+◌, ◌-◌, ◌==◌, List, [], ◌∷◌, Option, none, some, bytes_dec, ℕ_discrete, if◌then◌else◌, ite,
  is_some,
}
use ndmspc.Tasks.Defs.{TaskId, WorkerId, mark_done, get_task_worker}
use ndmspc.Supervisor.Defs.Session.{
  ack_underflow, message_underflow, malformed_id, malformed_batch, Run,
}

-- One message of a worker less in flight.
unfoldable pub land_message : WorkerId → Dict WorkerId ℕ → Dict WorkerId ℕ
land_message w m = elim (Dict.find bytes_dec w m) [
  | none ↦ m
  | some n ↦ if n - 1 == 0 then Dict.erase bytes_dec w m else Dict.put bytes_dec w (n - 1) m
]

-- `++fLastWorkerTaskCounts[workerIt->second]`
unfoldable pub count_task : Option ℕ → Dict ℕ ℕ → Dict ℕ ℕ
count_task none m = m
count_task (some idx) m =
    Dict.put ℕ_discrete idx (Option.get_or (Dict.find ℕ_discrete idx m) 0 + 1) m

-- The test of `ACK` and of each id of `ACKB` that the worker owns the task, then `MarkDone`; `none` is
-- an acknowledgement that is ignored.
unfoldable pub accept : WorkerId → TaskId → Run → Option Run
accept w id r =
    ite (bytes_dec (get_task_worker r.task_state id) w)
      (if (mark_done id r.task_state).1
        then some (record r {
          task_state = (mark_done id r.task_state).0;
          last_worker_task_counts =
              count_task (Dict.find bytes_dec w r.identity_to_worker) r.last_worker_task_counts;
        })
        else none)
      none

-- The counters after an accepted `ACK`.
unfoldable pub count_ack : WorkerId → Run → Run
count_ack w q =
    if q.outstanding == 0
    then record q { first_error = some ack_underflow }
    else if q.outstanding_messages == 0
    then record q { first_error = some message_underflow }
    else record q {
      outstanding = q.outstanding - 1;
      outstanding_messages = q.outstanding_messages - 1;
      in_flight_messages = land_message w q.in_flight_messages;
      acked = q.acked + 1;
    }

-- `ACK` of a known worker, with the id if it parses.
unfoldable pub ack_task : WorkerId → Option TaskId → Run → Run
ack_task w none r = record r { first_error = some malformed_id }
ack_task w (some id) r = elim (accept w id r) [ none ↦ r | some q ↦ count_ack w q ]

unfoldable pub on_ack : WorkerId → Option TaskId → Run → Run
on_ack w parsed r =
    if is_some (Dict.find bytes_dec w r.identity_to_worker) then ack_task w parsed r else r

-- The loop of `ACKB` over the ids.
unfoldable pub ack_tokens : WorkerId → List (Option TaskId) → Run → Run
ack_tokens w [] r = r
ack_tokens w (none ∷ ids) r = record r { first_error = some malformed_id }
ack_tokens w (some id ∷ ids) r = elim (accept w id r) [
  | none ↦ ack_tokens w ids r
  | some q ↦
      if q.outstanding == 0
      then record q { first_error = some ack_underflow }
      else ack_tokens w ids (record q { outstanding = q.outstanding - 1; acked = q.acked + 1 })
]

-- `ACKB` of a known worker; `none` is a payload that is missing or empty.
unfoldable pub ack_batch : WorkerId → Option (List (Option TaskId)) → Run → Run
ack_batch w none r = record r { first_error = some malformed_batch }
ack_batch w (some ids) r =
    if r.outstanding_messages == 0
    then record r { first_error = some message_underflow }
    else ack_tokens w ids (record r {
      outstanding_messages = r.outstanding_messages - 1;
      in_flight_messages = land_message w r.in_flight_messages;
    })

unfoldable pub on_ackb : WorkerId → Option (List (Option TaskId)) → Run → Run
on_ackb w payload r =
    if is_some (Dict.find bytes_dec w r.identity_to_worker) then ack_batch w payload r else r
