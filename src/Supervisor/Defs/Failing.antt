-- ===== src/Supervisor/Defs/Failing.antt =====
-- core/NDimensionalExecutor.cxx: `HandleWorkerFailure` and `releaseWorkerMessages`.
use Prim.Native.Nat.{min}
use mathlib.Core.Option
use ndmspc.Base.IdSet.{IdSet}
use ndmspc.Base.Dict
use ndmspc.Base.Dict.{Dict}
use ndmspc.Base.{
  ℕ, suc, ◌+◌, ◌-◌, ◌==◌, List, [], ◌∷◌, Option, none, some, bytes_dec, ℕ_discrete, if◌then◌else◌,
  ite, length,
}
use ndmspc.Tasks.Defs.{State, WorkerId, requeue_task, recover_worker_tasks, is_done}
use ndmspc.Supervisor.Defs.Session.{Run}

-- The loop of `HandleWorkerFailure` over the history of the worker: the tasks that were done and are
-- replayed, and those that were not.
unfoldable pub replay : IdSet → State → State × ℕ × ℕ
replay [] s = (s, 0, 0)
replay (id ∷ ids) s =
    let first = requeue_task id s in
    let (s', dones, lives) = replay ids first.0 in
    if first.1
    then (if is_done s id then (s', suc dones, lives) else (s', dones, suc lives))
    else (s', dones, lives)

unfoldable pub remove_worker : WorkerId → List WorkerId → List WorkerId
remove_worker w [] = []
remove_worker w (u ∷ us) = ite (bytes_dec u w) us (u ∷ remove_worker w us)

unfoldable pub remove_all : WorkerId → List WorkerId → List WorkerId
remove_all w [] = []
remove_all w (u ∷ us) = ite (bytes_dec u w) (remove_all w us) (u ∷ remove_all w us)

-- `fLastWorkerTaskCounts` of a worker, less the replayed tasks.
unfoldable pub discount : Option ℕ → ℕ → Dict ℕ ℕ → Dict ℕ ℕ
discount none n m = m
discount (some idx) n m = elim (Dict.find ℕ_discrete idx m) [
  | none ↦ m
  | some k ↦
      if k - min k n == 0
      then Dict.erase ℕ_discrete idx m
      else Dict.put ℕ_discrete idx (k - min k n) m
]

unfoldable pub handle_worker_failure : WorkerId → Run → Run
handle_worker_failure w r =
    let (s, dones, lives) =
      replay (Option.get_or (Dict.find bytes_dec w r.worker_task_history) []) r.task_state in
    let recovered = recover_worker_tasks w s in
    let n = length recovered.1 in
    record r {
      task_state = recovered.0;
      worker_task_history = Dict.erase bytes_dec w r.worker_task_history;
      outstanding = r.outstanding - min r.outstanding (lives + n);
      acked = r.acked - min r.acked dones;
      last_worker_task_counts =
          discount (Dict.find bytes_dec w r.identity_to_worker) (dones + lives + n)
            r.last_worker_task_counts;
      worker_identity_vec = remove_worker w r.worker_identity_vec;
      identity_to_worker = Dict.erase bytes_dec w r.identity_to_worker;
      failed_tcp_workers = remove_all w r.failed_tcp_workers;
    }

-- The lambda `releaseWorkerMessages`.
unfoldable pub release_worker_messages : WorkerId → Run → Run
release_worker_messages w r = elim (Dict.find bytes_dec w r.in_flight_messages) [
  | none ↦ r
  | some n ↦ record r {
    outstanding_messages = r.outstanding_messages - min r.outstanding_messages n;
    in_flight_messages = Dict.erase bytes_dec w r.in_flight_messages;
  }
]
