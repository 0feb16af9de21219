-- ===== src/Tasks/Owners.antt =====
-- core/NTaskStateManager.cxx: the two maps between workers and tasks.
pub mod Recovery
pub mod Methods
use ndmspc.Base.IdSet
use ndmspc.Base.Dict
use ndmspc.Base.{
  ℕ, suc, ◌≡◌, refl, ap, ◌==◌, Bool, true, false, List, [], ◌∷◌, none, some, Option, ℕ_discrete,
  bytes_dec, if◌then◌else◌, arith, ite, is_some, Bool-cases, Option-cases, inl, inr,
}
use ndmspc.Tasks.Defs.{
  State, Task, TaskId, TaskPayload, WorkerId, is_pending, find_running, find_worker, find_tasks,
  find_payload, is_done, enqueue_pending, add_pending, start_running, take_task, assign_to_worker,
  claim_next, release_from_worker, mark_done, stop_running, mark_failed, requeue_done, requeue_task,
  recover_task, recover_tasks, recover_worker_tasks, claim_first, after_take, clear,
  insert_for_worker, remove_task_from_worker,
}
use ndmspc.Tasks.Partition.{IsPartition, occurrences}
use ndmspc.Tasks.Invariant.{
  add_pending_inv, new_not_running, take_task-occurrences, recover_task_running,
}
use ndmspc.Tasks.WorkerSets.{
  tasks_of, IsTidy, tasks_of-insert, insert_for_worker-IsTidy, tasks_of-erase,
  erase_for_worker-IsTidy, erase_worker-IsTidy, tasks_of-erase_worker,
}

-- Whether the worker that is looked up, if there is one, is `w`.
abbrev pub is_at : WorkerId → Option WorkerId → Bool
is_at w none = false
is_at w (some u) = ite (bytes_dec w u) true false

-- A task is in the set of the worker that it is mapped to and in no other, and it is mapped to a
-- worker only while it runs.
pub record IsMirrored (s : State) : Type 0 where
  pub tidy : IsTidy s.worker_to_tasks
  pub worker_distinct : Dict.IsDistinct ℕ_discrete s.task_to_worker
  pub mirror :
      (w : WorkerId) (i : ℕ)
      → IdSet.contains i (tasks_of w s.worker_to_tasks) ≡ is_at w (find_worker s i)
  pub owned : (i : ℕ) → is_some (find_worker s i) ≡ true → is_some (find_running s i) ≡ true

module _ (s : State) (v : IsMirrored s) where
  pub enqueue_pending-IsMirrored : (id : ℕ) (p : TaskPayload) → IsMirrored (enqueue_pending id p s)
  unfolding enqueue_pending
  enqueue_pending-IsMirrored id p = elim (Bool-cases (is_pending s id)) [
    | inl old ↦ rw old v
    | inr new ↦ rw new (record {
      tidy = v.tidy;
      worker_distinct = v.worker_distinct;
      mirror = v.mirror;
      owned = v.owned;
    })
  ]

  pub start_running-IsMirrored :
      (w : WorkerId) (id : ℕ) (p : TaskPayload)
      → find_running s id ≡ none
      → IsMirrored (start_running w id p s)
  unfolding start_running
  start_running-IsMirrored w id p new = record {
    tidy = insert_for_worker-IsTidy w id s.worker_to_tasks v.tidy;
    worker_distinct = Dict.put-IsDistinct ℕ_discrete id w s.task_to_worker v.worker_distinct;
    mirror = λ u i. ground (
      arith,
      tasks_of-insert w id s.worker_to_tasks u,
      IdSet.contains-insert i id (tasks_of w s.worker_to_tasks),
      Dict.find-put ℕ_discrete i id w s.task_to_worker,
      v.mirror u i,
      v.mirror w i,
      v.owned i,
    );
    owned = λ i h. ground (
      arith,
      Dict.find-put ℕ_discrete i id w s.task_to_worker,
      Dict.find-put ℕ_discrete i id p s.running,
      v.owned i,
    );
  }

  -- `release_from_worker` after the task has left the running map.
  pub release-IsMirrored :
      (id : ℕ)
      → Dict.IsDistinct ℕ_discrete s.running
      → IsMirrored
          (release_from_worker id (record s { running = Dict.erase ℕ_discrete id s.running }))
  unfolding release_from_worker
  release-IsMirrored id d = elim (Option-cases (find_worker s id)) [
    | inl e ↦
        rw (e, release_from_worker)
          (record {
            tidy = v.tidy;
            worker_distinct = v.worker_distinct;
            mirror = v.mirror;
            owned = λ i h. ground (arith, Dict.find-erase ℕ_discrete i id s.running d, v.owned i);
          })
    | inr (w, e) ↦
        rw (e, release_from_worker)
          (record {
            tidy = erase_for_worker-IsTidy w id s.worker_to_tasks v.tidy;
            worker_distinct =
                Dict.erase-IsDistinct ℕ_discrete id s.task_to_worker v.worker_distinct;
            mirror = λ u i. ground (
              arith,
              tasks_of-erase w id s.worker_to_tasks v.tidy u,
              IdSet.contains-erase i id (tasks_of w s.worker_to_tasks) (v.tidy.sorted w),
              Dict.find-erase ℕ_discrete i id s.task_to_worker v.worker_distinct,
              v.mirror u i,
              v.mirror w i,
            );
            owned = λ i h. ground (
              arith,
              Dict.find-erase ℕ_discrete i id s.running d,
              Dict.find-erase ℕ_discrete i id s.task_to_worker v.worker_distinct,
              v.owned i,
            );
          })
  ]

pub clear-IsMirrored : IsMirrored clear
unfolding IdSet.contains Dict.find
clear-IsMirrored = record {
  tidy = record { distinct = tt; sorted = λ w. tt; no_empty = λ w h. ground arith };
  worker_distinct = tt;
  mirror = λ w i. refl;
  owned = λ i h. ground arith;
}
