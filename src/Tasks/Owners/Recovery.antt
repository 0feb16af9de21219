-- ===== src/Tasks/Owners/Recovery.antt =====
-- core/NTaskStateManager.cxx, `RecoverWorkerTasks`: the loop over the worker's set.
use ndmspc.Base.IdSet
use ndmspc.Base.Dict
use ndmspc.Base.{
  ◌≡◌, refl, ◌∙◌, false, [], ◌∷◌, none, ℕ_discrete, if◌then◌else◌, arith, is_some, Option-cases,
  inl, inr,
}
use ndmspc.Tasks.Defs.{
  State, TaskId, WorkerId, find_running, find_worker, find_tasks, enqueue_pending, recover_task,
  recover_tasks, recover_worker_tasks,
}
use ndmspc.Tasks.Owners.{IsMirrored}
use ndmspc.Tasks.WorkerSets.{erase_worker-IsTidy, tasks_of-erase_worker}

-- What a round leaves in the maps of running tasks and of workers.
record IsRecovered (ids : IdSet.IdSet) (s t : State) : Type 0 where
  same_sets : t.worker_to_tasks ≡ s.worker_to_tasks
  running_distinct : Dict.IsDistinct ℕ_discrete t.running
  worker_distinct : Dict.IsDistinct ℕ_discrete t.task_to_worker
  released :
      (j : TaskId) → find_worker t j ≡ (if IdSet.contains j ids then none else find_worker s j)
  stopped :
      (j : TaskId)
      → is_some (find_running t j)
        ≡ (if IdSet.contains j ids then false else is_some (find_running s j))

recover_task-IsRecovered :
    (id : TaskId) (s : State)
    → Dict.IsDistinct ℕ_discrete s.running
    → Dict.IsDistinct ℕ_discrete s.task_to_worker
    → IsRecovered (id ∷ []) s (recover_task id s).0
unfolding recover_task enqueue_pending IdSet.contains
recover_task-IsRecovered id s dr dw = record {
  same_sets = ground arith;
  running_distinct = ground (arith, Dict.erase-IsDistinct ℕ_discrete id s.running dr);
  worker_distinct = ground (arith, Dict.erase-IsDistinct ℕ_discrete id s.task_to_worker dw);
  released = λ j. ground (arith, Dict.find-erase ℕ_discrete j id s.task_to_worker dw);
  stopped = λ j. ground (arith, Dict.find-erase ℕ_discrete j id s.running dr);
}

recover_tasks-IsRecovered :
    (ids : IdSet.IdSet) (s : State)
    → Dict.IsDistinct ℕ_discrete s.running
    → Dict.IsDistinct ℕ_discrete s.task_to_worker
    → IsRecovered ids s (recover_tasks ids s).0
unfolding recover_tasks IdSet.contains
recover_tasks-IsRecovered [] s dr dw = record {
  same_sets = refl;
  running_distinct = dr;
  worker_distinct = dw;
  released = λ j. refl;
  stopped = λ j. refl;
}
recover_tasks-IsRecovered (id ∷ ids) s dr dw =
    let a = recover_task-IsRecovered id s dr dw in
    let b =
      recover_tasks-IsRecovered ids (recover_task id s).0 a.running_distinct a.worker_distinct in
    record {
      same_sets = b.same_sets ∙ a.same_sets;
      running_distinct = b.running_distinct;
      worker_distinct = b.worker_distinct;
      released = λ j. ground (arith, a.released j, b.released j);
      stopped = λ j. ground (arith, a.stopped j, b.stopped j);
    }

pub recover_worker_tasks-IsMirrored :
    (w : WorkerId) (s : State)
    → Dict.IsDistinct ℕ_discrete s.running
    → IsMirrored s
    → IsMirrored (recover_worker_tasks w s).0
unfolding recover_worker_tasks IdSet.contains
recover_worker_tasks-IsMirrored w s dr v = elim (Option-cases (find_tasks s w)) [
  | inl e ↦ rw (e, recover_worker_tasks) v
  | inr (ids, e) ↦
      (let r = recover_tasks-IsRecovered ids s dr v.worker_distinct in
        rw (e, recover_worker_tasks)
          (record {
            tidy = rw r.same_sets (erase_worker-IsTidy w s.worker_to_tasks v.tidy);
            worker_distinct = r.worker_distinct;
            mirror = λ u i. rw r.same_sets (
                ground (
                  arith,
                  tasks_of-erase_worker w u s.worker_to_tasks v.tidy,
                  r.released i,
                  v.mirror u i,
                  v.mirror w i,
                  e,
                ));
            owned = λ i h. ground (arith, r.released i, r.stopped i, v.owned i);
          }))
]
