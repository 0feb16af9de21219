-- ===== src/Supervisor/Defs/Sending.antt =====
-- core/NDimensionalExecutor.cxx: how the supervisor fills a batch of tasks and sends it to a worker.
use Prim.Native.Nat.{min, max}
use mathlib.Core.Option
use ndmspc.Base.Dict
use ndmspc.Base.Dict.{Dict}
use ndmspc.Base.{
  ℕ, zero, suc, ◌+◌, ◌-◌, ◌*◌, ◌/◌, ltb, Bool, true, false, ◌&&◌, List, [], ◌∷◌, ◌++◌, Option, none,
  some, bytes_dec, if◌then◌else◌, is_some, length,
}
use ndmspc.Sweep.Defs.{increment}
use ndmspc.Tasks.Defs.{State, Task, WorkerId, add_pending, claim_next, mark_failed, has_pending}
use ndmspc.Supervisor.Defs.Session.{
  interrupted, task_exists, claim_failed, send_failed, Run, remember,
}

-- A round of the first loop of a dispatch, given what the claim returned. `poll n` says whether the
-- user has interrupted when the batch has `n` tasks.
unfoldable pub after_claim :
    WorkerId
    → (ℕ → Bool)
    → (Run → List Task → Run × List Task)
    → Run
    → List Task
    → State × Option Task
    → Run × List Task
after_claim w poll again r batch (s, none) = (record r { task_state = s }, batch)
after_claim w poll again r batch (s, some t) =
    let more = batch ++ t ∷ [] in
    let r' = record r {
      task_state = s;
      worker_task_history = remember w t.0 r.worker_task_history;
      outstanding = r.outstanding + 1;
    } in
    let rest = again r' more in
    if poll (length more) then (record r' { first_error = some interrupted }, more) else rest

-- The loop over the tasks that are pending again; the first argument is what is left of
-- `redistPerBatch`.
unfoldable pub claim_pending : ℕ → WorkerId → ℕ → ℕ → (ℕ → Bool) → Run → List Task → Run × List Task
claim_pending zero w limit size poll r batch = (r, batch)
claim_pending (suc k) w limit size poll r batch =
    if has_pending r.task_state && ltb r.outstanding limit && ltb (length batch) size
    then after_claim w poll (claim_pending k w limit size poll) r batch (claim_next w r.task_state)
    else (r, batch)

-- A round of the second loop, given what the claim of the new task returned.
unfoldable pub after_new :
    WorkerId
    → (ℕ → Bool)
    → (Run → List Task → Run × List Task)
    → Run
    → List Task
    → State × Option Task
    → Run × List Task
after_new w poll again r batch (s, none) =
    (record r { task_state = s; first_error = some claim_failed }, batch)
after_new w poll again r batch (s, some t) =
    let more = batch ++ t ∷ [] in
    let next = increment r.executor in
    let r' = record r {
      executor = next.0;
      has_more = r.has_more && next.1;
      task_state = s;
      worker_task_history = remember w t.0 r.worker_task_history;
      next_task_id = r.next_task_id + 1;
      outstanding = r.outstanding + 1;
    } in
    let rest = again r' more in
    if poll (length more) then (record r' { first_error = some interrupted }, more) else rest

-- The loop over the new tasks; each round that goes on makes the batch longer, so that the rounds are
-- at most the size of a batch. An exception of `AddPending` ends the run as an error does.
unfoldable pub add_new : ℕ → WorkerId → ℕ → ℕ → (ℕ → Bool) → Run → List Task → Run × List Task
add_new zero w limit size poll r batch = (r, batch)
add_new (suc k) w limit size poll r batch =
    if r.has_more && ltb r.outstanding limit && ltb (length batch) size
    then elim (add_pending r.next_task_id r.executor.current_coords r.task_state) [
      | none ↦ (record r { first_error = some task_exists }, batch)
      | some s ↦ after_new w poll (add_new k w limit size poll) r batch (claim_next w s)
    ]
    else (r, batch)

unfoldable pub fail_all : List Task → State → State
fail_all [] s = s
fail_all (t ∷ ts) s = fail_all ts (mark_failed t.0 s).0

-- The send of a batch, with whether ZeroMQ took it.
unfoldable pub send_batch : Bool → WorkerId → Run → List Task → Run
send_batch sent w r [] = r
send_batch true w r (t ∷ ts) = record r {
  dispatch_message_id = r.dispatch_message_id + 1;
  outstanding_messages = r.outstanding_messages + 1;
  in_flight_messages =
      Dict.put bytes_dec w (Option.get_or (Dict.find bytes_dec w r.in_flight_messages) 0 + 1)
        r.in_flight_messages;
}
send_batch false w r (t ∷ ts) =
    if r.is_tcp
    then record r {
      failed_tcp_workers = w ∷ r.failed_tcp_workers;
      task_state = fail_all (t ∷ ts) r.task_state;
    }
    else record r { first_error = some send_failed }

-- `adaptiveBatchSize`, from `effectiveBatchSize`, the tasks left and the workers.
unfoldable pub adaptive_batch_size : ℕ → ℕ → ℕ → ℕ
adaptive_batch_size effective left workers =
    max 1 (min effective (max 1 ((left + workers - 1) / workers)))

unfoldable pub redist_per_batch : ℕ → ℕ → ℕ
redist_per_batch size workers = if ltb 1 size && ltb 0 workers then max 1 (size / workers) else 1

unfoldable pub effective_batch_size : ℕ → ℕ → ℕ → ℕ
effective_batch_size batch total workers = max 1 (min batch (max 1 (total / (workers * 2))))

unfoldable pub max_in_flight_messages : Run → ℕ
max_in_flight_messages r = max 4 (length r.worker_identity_vec)

-- The batch of a round of the dispatch loop for the worker `w`; `total` is `totalTasks`.
unfoldable pub fill_batch : (ℕ → Bool) → ℕ → ℕ → WorkerId → Run → Run × List Task
fill_batch poll effective total w r =
    let workers = length r.worker_identity_vec in
    let size = adaptive_batch_size effective (total - r.next_task_id) workers in
    let limit = max_in_flight_messages r * effective in
    let old = claim_pending (redist_per_batch size workers) w limit size poll r [] in
    add_new size w limit size poll old.0 old.1

-- The round, with whether ZeroMQ takes the message.
unfoldable pub dispatch : Bool → (ℕ → Bool) → ℕ → ℕ → WorkerId → Run → Run
dispatch sent poll effective total w r =
    let full = fill_batch poll effective total w r in
    if is_some (full.0).first_error then full.0 else send_batch sent w full.0 full.1
