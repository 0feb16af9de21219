-- ===== src/Tasks/Owners/Methods.antt =====
-- core/NTaskStateManager.cxx: the worker maps under the methods but `RecoverWorkerTasks`.
use ndmspc.Base.IdSet
use ndmspc.Base.IdSet.{IdSet}
use ndmspc.Base.Dict
use ndmspc.Base.Dict.{Dict}
use ndmspc.Base.{
  ◌≡◌, refl, List, [], ◌∷◌, some, ℕ_discrete, arith, Bool-cases, Option-cases, inl, inr,
}
use ndmspc.Tasks.Defs.{
  State, Task, TaskId, TaskPayload, WorkerId, is_pending, find_running, find_tasks, find_payload,
  is_done, enqueue_pending, add_pending, assign_to_worker, claim_next, claim_first, after_take,
  mark_done, stop_running, mark_failed, requeue_done, requeue_task, remove_task_from_worker,
}
use ndmspc.Tasks.Owners.{
  IsMirrored, enqueue_pending-IsMirrored, start_running-IsMirrored, release-IsMirrored,
}
use ndmspc.Tasks.Partition.{IsPartition}
use ndmspc.Tasks.Invariant.{add_pending_inv, take_task-occurrences}
use ndmspc.Tasks.WorkerSets.{tasks_of, tasks_of-erase, erase_for_worker-IsTidy}

-- What the queue, the done set and the stored payloads hold does not matter here.
fields-IsMirrored :
    (s : State) (q : List Task) (ids done : IdSet) (tp : Dict TaskId TaskPayload)
    → IsMirrored s
    → IsMirrored (record s { pending = q; pending_ids = ids; done = done; task_payloads = tp })
fields-IsMirrored s q ids done tp v = record {
  tidy = v.tidy;
  worker_distinct = v.worker_distinct;
  mirror = v.mirror;
  owned = v.owned;
}

module _ (s : State) (v : IsMirrored s) where
  pub add_pending-IsMirrored :
      (id : TaskId) (p : TaskPayload) {s' : State} → add_pending id p s ≡ some s' → IsMirrored s'
  add_pending-IsMirrored id p h =
      let (fresh, e) = add_pending_inv id p s h in
      rw e (fields-IsMirrored _ _ _ _ _ (enqueue_pending-IsMirrored s v id p))

  pub requeue_done-IsMirrored : (id : TaskId) → IsMirrored (requeue_done id s).0
  unfolding requeue_done
  requeue_done-IsMirrored id = elim (Bool-cases (is_done s id)) [
    | inr no_one ↦ rw no_one v
    | inl ended ↦ elim (Option-cases (find_payload s id)) [
      | inl e ↦ rw (ended, e) v
      | inr (p, e) ↦
          rw (ended, e)
            (enqueue_pending-IsMirrored _ (fields-IsMirrored s s.pending s.pending_ids _ _ v) id p)
    ]
  ]

  pub remove_task_from_worker-IsMirrored :
      (w : WorkerId) (id : TaskId) → IsMirrored (remove_task_from_worker w id s).0
  unfolding remove_task_from_worker
  remove_task_from_worker-IsMirrored w id = elim (Option-cases (find_tasks s w)) [
    | inl e ↦ rw (e, remove_task_from_worker) v
    | inr (ids, e) ↦ elim (Bool-cases (IdSet.contains id ids)) [
      | inr gone ↦ rw (e, remove_task_from_worker, gone) v
      | inl here ↦
          rw (e, remove_task_from_worker, here)
            (record {
              tidy = erase_for_worker-IsTidy w id s.worker_to_tasks v.tidy;
              worker_distinct =
                  Dict.erase-IsDistinct ℕ_discrete id s.task_to_worker v.worker_distinct;
              mirror = λ u i. ground (
                arith,
                tasks_of-erase w id s.worker_to_tasks v.tidy u,
                IdSet.contains-erase i id (tasks_of w s.worker_to_tasks) (v.tidy.sorted w),
                Dict.find-erase ℕ_discrete i id s.task_to_worker v.worker_distinct,
                v.mirror u i,
                v.mirror w i,
                e,
              );
              owned = λ i h. ground (
                arith,
                Dict.find-erase ℕ_discrete i id s.task_to_worker v.worker_distinct,
                v.owned i,
              );
            })
    ]
  ]

  module _ (d : IsPartition s) where
    pub mark_done-IsMirrored : (id : TaskId) → IsMirrored (mark_done id s).0
    unfolding mark_done
    mark_done-IsMirrored id = elim (Option-cases (find_running s id)) [
      | inl e ↦ rw (e, mark_done) v
      | inr (p, e) ↦
          rw (e, mark_done)
            (release-IsMirrored _
              (fields-IsMirrored s s.pending s.pending_ids (IdSet.insert id s.done) _ v) id
              d.running_distinct)
    ]

    pub stop_running-IsMirrored : (id : TaskId) (p : TaskPayload) → IsMirrored (stop_running id p s)
    unfolding stop_running enqueue_pending
    stop_running-IsMirrored id p = elim (Bool-cases (is_pending s id)) [
      | inl old ↦ rw old (release-IsMirrored s v id d.running_distinct)
      | inr new ↦
          rw new (release-IsMirrored _ (fields-IsMirrored s _ _ s.done _ v) id d.running_distinct)
    ]

    pub mark_failed-IsMirrored : (id : TaskId) → IsMirrored (mark_failed id s).0
    unfolding mark_failed
    mark_failed-IsMirrored id = elim (Option-cases (find_running s id)) [
      | inl e ↦ rw (e, mark_failed) v
      | inr (p, e) ↦ rw (e, mark_failed) (stop_running-IsMirrored id p)
    ]

    pub requeue_task-IsMirrored : (id : TaskId) → IsMirrored (requeue_task id s).0
    unfolding requeue_task
    requeue_task-IsMirrored id = elim (Option-cases (find_running s id)) [
      | inl e ↦ rw (e, requeue_task) (requeue_done-IsMirrored id)
      | inr (p, e) ↦ rw (e, requeue_task) (stop_running-IsMirrored id p)
    ]

    pub assign_to_worker-IsMirrored :
        (w : WorkerId) (id : TaskId) → IsMirrored (assign_to_worker w id s).0
    unfolding assign_to_worker after_take
    assign_to_worker-IsMirrored w id = elim (Bool-cases (is_pending s id)) [
      | inr gone ↦ rw gone v
      | inl here ↦
          (let (p, rest, e, split) =
              take_task-occurrences id s.pending (ground (arith, d.queued id)) in
            rw (here, e)
              (start_running-IsMirrored _ (fields-IsMirrored s _ _ s.done _ v) w id p
                (d.not_running id here)))
    ]

    claim_first-IsMirrored :
        (w : WorkerId) (q : List Task) → s.pending ≡ q → IsMirrored (claim_first w s q).0
    unfolding claim_first
    claim_first-IsMirrored w [] e = v
    claim_first-IsMirrored w ((id, p) ∷ q) e =
        start_running-IsMirrored _ (fields-IsMirrored s _ _ s.done _ v) w id p
          (d.not_running id (ground (arith, d.queued id)))

    pub claim_next-IsMirrored : (w : WorkerId) → IsMirrored (claim_next w s).0
    unfolding claim_next
    claim_next-IsMirrored w = claim_first-IsMirrored w s.pending refl
