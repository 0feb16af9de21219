-- ===== src/Supervisor/Loop/Defs.antt =====
-- core/NDimensionalExecutor.cxx: what can happen in the main loop of `ExecuteCurrentBoundsProcessIpc`,
-- message by message, and `HandleBootstrap`.
use mathlib.Core.Option
use ndmspc.Base.Dict
use ndmspc.Base.Dict.{Dict}
use ndmspc.Base.{
  ℕ, zero, suc, ◌+◌, ◌%◌, ◌==◌, ltb, Bool, true, false, not, ◌&&◌, ◌||◌, List, [], ◌∷◌, Option,
  none, some, Bytes, bytes_dec, if◌then◌else◌, ite, length, get_or,
}
use ndmspc.Tasks.Defs.{WorkerId, has_pending}
use ndmspc.Supervisor.Defs.{
  Run, Error, no_workers, lose_worker, dispatch, max_in_flight_messages, goes_on,
}

-- The frames that name a message, and the prefix of a worker's identity.
abbrev pub ready : Bytes
ready = b'R' ∷ b'E' ∷ b'A' ∷ b'D' ∷ b'Y' ∷ []

abbrev pub ack : Bytes
ack = b'A' ∷ b'C' ∷ b'K' ∷ []

abbrev pub ackb : Bytes
ackb = b'A' ∷ b'C' ∷ b'K' ∷ b'B' ∷ []

abbrev pub err : Bytes
err = b'E' ∷ b'R' ∷ b'R' ∷ []

abbrev pub bootstrap : Bytes
bootstrap = b'B' ∷ b'O' ∷ b'O' ∷ b'T' ∷ b'S' ∷ b'T' ∷ b'R' ∷ b'A' ∷ b'P' ∷ []

abbrev pub shutdown : Bytes
shutdown = b'S' ∷ b'H' ∷ b'U' ∷ b'T' ∷ b'D' ∷ b'O' ∷ b'W' ∷ b'N' ∷ []

abbrev pub done : Bytes
done = b'D' ∷ b'O' ∷ b'N' ∷ b'E' ∷ []

abbrev pub stop : Bytes
stop = b's' ∷ b't' ∷ b'o' ∷ b'p' ∷ []

abbrev pub worker_prefix : Bytes
worker_prefix = b'w' ∷ b'k' ∷ b'_' ∷ []

-- The run and the rest of the session that the messages change.
pub record Loop : Type 0 where
  pub run : Run
  pub max_workers : ℕ
  pub pending_init_workers : Dict WorkerId ℕ
  pub early_done_workers : List WorkerId
  pub seen_worker_identities : List WorkerId
  pub bootstrap_next_idx : ℕ
  pub bootstrap_assignments : Dict WorkerId ℕ

-- What is fixed during a run: how std::stoull reads an id, `tcpMaxInFlightPerWorker`,
-- `effectiveBatchSize` and `totalTasks`.
pub record Settings : Type 0 where
  pub parse : Bytes → Option ℕ
  pub tcp_max_in_flight : ℕ
  pub effective_batch : ℕ
  pub total_tasks : ℕ

abbrev pub is_bytes : Bytes → Bytes → Bool
is_bytes a b = ite (bytes_dec a b) true false

unfoldable pub member : WorkerId → List WorkerId → Bool
member w [] = false
member w (u ∷ us) = is_bytes w u || member w us

-- `insert` of a std::set of identities.
unfoldable pub add_member : WorkerId → List WorkerId → List WorkerId
add_member w ws = if member w ws then ws else w ∷ ws

abbrev pub fail_run : Error → Run → Run
fail_run e r = record r { first_error = some e }

unfoldable pub has_workers : Run → Bool
has_workers r = not (length r.worker_identity_vec == 0)

-- The worker whose turn it is.
unfoldable pub worker_at : Run → WorkerId
worker_at r = get_or r.worker_identity_vec (r.dispatch_message_id % length r.worker_identity_vec) []

unfoldable pub is_eligible : ℕ → WorkerId → Run → Bool
is_eligible most w r =
    not (member w r.failed_tcp_workers)
    && ltb (Option.get_or (Dict.find bytes_dec w r.in_flight_messages) 0) most

-- The search for a worker over TCP; the first argument is how many attempts are left.
unfoldable pub search_worker : ℕ → ℕ → Run → Run × Option WorkerId
search_worker zero most r = (r, none)
search_worker (suc k) most r =
    let rest =
      search_worker k most (record r { dispatch_message_id = r.dispatch_message_id + 1 }) in
    if is_eligible most (worker_at r) r then (r, some (worker_at r)) else rest

unfoldable pub pick_worker : ℕ → Run → Run × Option WorkerId
pick_worker most r =
    if r.is_tcp
    then search_worker (length r.worker_identity_vec) most r
    else (r, some (worker_at r))

-- The test of the inner loop, and that there are workers.
unfoldable pub may_dispatch : Run → Bool
may_dispatch r =
    (r.has_more || has_pending r.task_state)
    && ltb r.outstanding_messages (max_in_flight_messages r)
    && has_workers r

unfoldable pub after_pick : Settings → Bool → (ℕ → Bool) → Run × Option WorkerId → Run
after_pick s sent poll (r, none) = r
after_pick s sent poll (r, some w) = dispatch sent poll s.effective_batch s.total_tasks w r

-- A round of the inner loop.
unfoldable pub dispatch_round : Settings → Bool → (ℕ → Bool) → Run → Run
dispatch_round s sent poll r =
    if may_dispatch r then after_pick s sent poll (pick_worker s.tcp_max_in_flight r) else r

unfoldable pub require_workers : Run → Run
require_workers r = if has_workers r then r else fail_run no_workers r

-- A round of `detectInactiveTcpWorkers` for a worker that it found.
unfoldable pub time_out : WorkerId → Run → Run
time_out w r =
    if member w r.failed_tcp_workers
    then r
    else require_workers
        (lose_worker w (record r { failed_tcp_workers = w ∷ r.failed_tcp_workers }))

-- There are no workers, and over TCP none came back in time.
unfoldable pub starve : Run → Run
starve r = if goes_on r then require_workers r else r

unfoldable pub lose_failed : List WorkerId → Run → Run
lose_failed [] r = r
lose_failed (w ∷ ws) r = lose_failed ws (lose_worker w r)

unfoldable pub workers_to_remove : List WorkerId → List WorkerId → List WorkerId
workers_to_remove failed [] = []
workers_to_remove failed (w ∷ ws) =
    let rest = workers_to_remove failed ws in if member w failed then w ∷ rest else rest

-- The removal of the workers to which a send failed.
unfoldable pub clean_up : Run → Run
clean_up r =
    if r.is_tcp && not (length r.failed_tcp_workers == 0)
    then require_workers
        (lose_failed (workers_to_remove r.failed_tcp_workers r.worker_identity_vec) r)
    else r
