-- ===== src/Supervisor/Failure.antt =====
-- core/NDimensionalExecutor.cxx: `HandleWorkerFailure` and `releaseWorkerMessages`.
use mathlib.Core.Option
use ndmspc.Base.Dict
use ndmspc.Base.IdSet.{IdSet}
use ndmspc.Base.{ℕ, ◌+◌, ◌≡◌, refl, ap, ◌∙◌, [], ◌∷◌, arith, bytes_dec, Option-cases, inl, inr}
use ndmspc.Tasks.Defs.{
  State, TaskId, WorkerId, requeue_task, recover_worker_tasks, running_count, done_count,
  pending_count,
}
use ndmspc.Tasks.Counts.{requeue_task_counts, recover_worker_tasks_counts}
use ndmspc.Tasks.History.{IsValid, step, requeues, recovers, step-IsValid}
use ndmspc.Tasks.Payloads.Methods.{payloads-requeue_task, payloads-recover_worker_tasks}
use ndmspc.Supervisor.Balance.{IsBalanced, rebalance}
use ndmspc.Supervisor.Defs.{
  Run, replay, handle_worker_failure, release_worker_messages, lose_worker,
}

requeue_task-IsValid : (id : TaskId) (s : State) → IsValid s → IsValid (requeue_task id s).0
unfolding step
requeue_task-IsValid id s v = step-IsValid s v (requeues id)

recover_worker_tasks-IsValid :
    (w : WorkerId) (s : State) → IsValid s → IsValid (recover_worker_tasks w s).0
unfolding step
recover_worker_tasks-IsValid w s v = step-IsValid s v (recovers w)

-- What the loop over the history leaves.
record IsReplayed (s : State) (q : State × ℕ × ℕ) : Type 0 where
  valid : IsValid q.0
  same : q.0.task_payloads ≡ s.task_payloads
  lives : running_count q.0 + q.2 ≡ running_count s
  dones : done_count q.0 + q.1 ≡ done_count s
  queued : pending_count q.0 ≡ pending_count s + q.1 + q.2

replay-IsReplayed : (ids : IdSet) (s : State) → IsValid s → IsReplayed s (replay ids s)
unfolding replay
replay-IsReplayed [] s v = record {
  valid = v;
  same = refl;
  lives = omega arith;
  dones = omega arith;
  queued = omega arith;
}
replay-IsReplayed (id ∷ ids) s v =
    let first = requeue_task id s in
    let r = replay-IsReplayed ids first.0 (requeue_task-IsValid id s v) in
    let same = r.same ∙ payloads-requeue_task id s in
    elim (requeue_task_counts s v.partition id) [
      | inl (refused, stays) ↦ rw refused (record {
        valid = r.valid;
        same = same;
        lives = omega (arith, r.lives, ap running_count stays);
        dones = omega (arith, r.dones, ap done_count stays);
        queued = omega (arith, r.queued, ap pending_count stays);
      })
      | inr (inl (moved, ended, a, b, c)) ↦
          rw (moved, ended)
            (record {
              valid = r.valid;
              same = same;
              lives = omega (arith, r.lives, b);
              dones = omega (arith, r.dones, c);
              queued = omega (arith, r.queued, a);
            })
      | inr (inr (moved, live, a, b, c)) ↦
          rw (moved, live)
            (record {
              valid = r.valid;
              same = same;
              lives = omega (arith, r.lives, b);
              dones = omega (arith, r.dones, c);
              queued = omega (arith, r.queued, a);
            })
    ]

-- `HandleWorkerFailure` keeps the counters in step with the task manager, with the same leak as
-- before.
pub handle_worker_failure-IsBalanced :
    (leak : ℕ) (w : WorkerId) (r : Run)
    → IsBalanced leak r
    → IsBalanced leak (handle_worker_failure w r)
unfolding handle_worker_failure
handle_worker_failure-IsBalanced leak w r b =
    let ids = Option.get_or (Dict.find bytes_dec w r.worker_task_history) [] in
    let q = replay-IsReplayed ids r.task_state b.valid in
    let s = (replay ids r.task_state).0 in
    let (c, d, e) = recover_worker_tasks_counts w s q.valid.partition in
    rebalance r.task_state (recover_worker_tasks w s).0 leak leak r.outstanding _ r.acked _
      r.next_task_id b (recover_worker_tasks-IsValid w s q.valid)
      (payloads-recover_worker_tasks w s ∙ q.same)
      (omega (arith, c, d, e, q.lives, q.dones, q.queued)) (omega (arith, d, q.lives, b.live))
      (omega (arith, e, q.dones, b.credited))

-- So does the release of the worker's messages after it.
pub lose_worker-IsBalanced :
    (leak : ℕ) (w : WorkerId) (r : Run) → IsBalanced leak r → IsBalanced leak (lose_worker w r)
unfolding lose_worker release_worker_messages
lose_worker-IsBalanced leak w r b =
    let failed = handle_worker_failure w r in
    elim (Option-cases (Dict.find bytes_dec w failed.in_flight_messages)) [
      | inl e ↦ rw (e, release_worker_messages) (handle_worker_failure-IsBalanced leak w r b)
      | inr (n, e) ↦ rw (e, release_worker_messages) (handle_worker_failure-IsBalanced leak w r b)
    ]
