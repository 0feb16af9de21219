-- ===== src/Tasks/Payloads.antt =====
-- core/NTaskStateManager.cxx: the payloads in the queue and the running map, against the stored ones.
pub mod Methods
use ndmspc.Base.IdSet
use ndmspc.Base.Dict
use ndmspc.Base.{
  ℕ, ◌≡◌, refl, ap, subst, ◌==◌, ==_iff, Bool, true, false, List, [], ◌∷◌, ◌++◌, none, some, Option,
  ℕ_discrete, if◌then◌else◌, arith, is_some, Bool-cases, Option-cases, inl, inr, All, All-append,
}
use ndmspc.Tasks.Defs.{
  State, Task, TaskId, TaskPayload, WorkerId, is_pending, find_running, find_worker, find_tasks,
  find_payload, is_done, enqueue_pending, add_pending, task_exists, start_running, take_task,
  assign_to_worker, claim_next, claim_first, after_take, release_from_worker, mark_done,
  stop_running, mark_failed, requeue_done, requeue_task, recover_task, recover_tasks,
  recover_worker_tasks, remove_task_from_worker,
}
use ndmspc.Tasks.Invariant.{add_pending_inv, recover_task_running}

-- The queue and the running map agree with the stored payloads.
pub record IsStored (s : State) : Type 0 where
  pub queue : All (λ t. find_payload s t.0 ≡ some t.1) s.pending
  pub live : (i : TaskId) (p : TaskPayload) → find_running s i ≡ some p → find_payload s i ≡ some p

module _ (P : Task → Type 0) where
  pub take_task-All :
      (id : TaskId) (q : List Task)
      → All P q
      → All P (take_task id q).1 × ((p : TaskPayload) → (take_task id q).0 ≡ some p → P (id, p))
  unfolding take_task
  take_task-All id [] h = (tt, λ p e. ground arith)
  take_task-All id ((j, p) ∷ q) h = elim (Bool-cases (j == id)) [
    | inl hit ↦ rw hit (
      h.1,
      λ p' e.
          let same_id : j ≡ id = (==_iff j id).0 hit in
          let same_payload : p ≡ p' = ground arith in
          subst P (λ i. (same_id i, same_payload i)) h.0,
    )
    | inr miss ↦ (let (a, b) = take_task-All id q h.1 in rw miss ((h.0, a), b))
  ]

module _ (s : State) (v : IsStored s) where
  pub enqueue_pending-IsStored :
      (id : TaskId) (p : TaskPayload)
      → find_payload s id ≡ some p
      → IsStored (enqueue_pending id p s)
  unfolding enqueue_pending
  enqueue_pending-IsStored id p e = elim (Bool-cases (is_pending s id)) [
    | inl old ↦ rw old v
    | inr new ↦
        rw new
          (record { queue = All-append _ s.pending ((id, p) ∷ []) v.queue (e, tt); live = v.live })
  ]

  pub release-IsStored : (id : TaskId) → IsStored (release_from_worker id s)
  unfolding release_from_worker
  release-IsStored id = elim (Option-cases (find_worker s id)) [
    | inl e ↦ rw (e, release_from_worker) v
    | inr (w, e) ↦ rw (e, release_from_worker) (record { queue = v.queue; live = v.live })
  ]

  pub erase_running-IsStored :
      (id : TaskId)
      → Dict.IsDistinct ℕ_discrete s.running
      → IsStored (record s { running = Dict.erase ℕ_discrete id s.running })
  erase_running-IsStored id d = record {
    queue = v.queue;
    live = λ i p h. ground (arith, Dict.find-erase ℕ_discrete i id s.running d, v.live i p);
  }

  pub start_running-IsStored :
      (w : WorkerId) (id : TaskId) (p : TaskPayload)
      → find_payload s id ≡ some p
      → IsStored (start_running w id p s)
  unfolding start_running
  start_running-IsStored w id p e = record {
    queue = v.queue;
    live = λ i p' h. ground (arith, Dict.find-put ℕ_discrete i id p s.running, v.live i p');
  }
