-- ===== src/Tasks/Invariant.antt =====
-- core/NTaskStateManager.cxx: the state that a task is in, under every method.
use ndmspc.Base.IdSet
use ndmspc.Base.Dict
use ndmspc.Base.{
  ℕ, ◌+◌, ◌≡◌, refl, ◌==◌, false, List, [], ◌∷◌, none, some, ℕ_discrete, if◌then◌else◌, arith,
  Bool-cases, Option-cases, inl, inr,
}
use ndmspc.Tasks.Defs.{
  State, Task, TaskPayload, WorkerId, is_pending, find_running, find_tasks, find_payload, is_done,
  enqueue_pending, add_pending, task_exists, start_running, take_task, assign_to_worker, claim_next,
  mark_done, stop_running, mark_failed, requeue_done, requeue_task, recover_task, recover_tasks,
  recover_worker_tasks, remove_task_from_worker, claim_first,
}
use ndmspc.Tasks.Partition.{
  IsPartition, occurrences, enqueue_pending-IsPartition, maps-IsPartition,
  erase_running-IsPartition, put_running-IsPartition, insert_done-IsPartition,
  erase_done-IsPartition, dequeue-IsPartition, release_from_worker-IsPartition,
}

-- What `take_task` takes out, and what it leaves.
pub take_task-occurrences :
    (id : ℕ) (q : List Task)
    → occurrences id q ≡ 1
    → (p : TaskPayload) × (rest : List Task) × (take_task id q ≡ (some p, rest))
      × ((i : ℕ) → occurrences i q ≡ (if i == id then 1 else 0) + occurrences i rest)
unfolding take_task
take_task-occurrences id [] h = absurd (omega arith)
take_task-occurrences id ((j, p) ∷ q) h = elim (Bool-cases (j == id)) [
  | inl hit ↦ (p, q, rw hit, λ i. ground arith)
  | inr miss ↦
      (let (p', rest, e, split) = take_task-occurrences id q (ground arith) in
        (p', (j, p) ∷ rest, rw (miss, e), λ i. ground (arith, split i)))
]

-- `AddPending` succeeds for a task that is not known, and then queues it.
pub add_pending_inv :
    (id : ℕ) (p : TaskPayload) (s : State) {s' : State}
    → add_pending id p s ≡ some s'
    → (task_exists s id ≡ false)
      × (s' ≡ record (enqueue_pending id p s) {
        task_payloads = Dict.put ℕ_discrete id p (enqueue_pending id p s).task_payloads;
      })
unfolding add_pending
add_pending_inv id p s h = elim (Bool-cases (task_exists s id)) [
  | inl old ↦ ground arith
  | inr new ↦ (new, ground arith)
]

pub new_not_running : (id : ℕ) (s : State) → task_exists s id ≡ false → find_running s id ≡ none
unfolding task_exists
new_not_running id s h = ground arith

pub new_not_done : (id : ℕ) (s : State) → task_exists s id ≡ false → is_done s id ≡ false
unfolding task_exists
new_not_done id s h = ground arith

pub new_not_pending : (id : ℕ) (s : State) → task_exists s id ≡ false → is_pending s id ≡ false
unfolding task_exists
new_not_pending id s h = ground arith

pub new_not_stored : (id : ℕ) (s : State) → task_exists s id ≡ false → find_payload s id ≡ none
unfolding task_exists
new_not_stored id s h = ground arith

-- A round of `RecoverWorkerTasks` on a running task, with its two statements in the other order.
pub recover_task_running :
    (id : ℕ) (s : State) {p : TaskPayload}
    → find_running s id ≡ some p
    → recover_task id s ≡ (
      record (enqueue_pending id p (record s { running = Dict.erase ℕ_discrete id s.running })) {
        task_to_worker = Dict.erase ℕ_discrete id s.task_to_worker;
      },
      (id, p) ∷ [],
    )
unfolding recover_task enqueue_pending
recover_task_running id s {p} e = ground arith

module _ (s : State) (v : IsPartition s) where
  pub add_pending-IsPartition :
      (id : ℕ) (p : TaskPayload) {s' : State} → add_pending id p s ≡ some s' → IsPartition s'
  add_pending-IsPartition id p h =
      let (fresh, e) = add_pending_inv id p s h in
      rw e (
        maps-IsPartition _ _ _ _ (
          enqueue_pending-IsPartition id p s (new_not_running id s fresh) (new_not_done id s fresh)
            v))

  pub start_running-IsPartition :
      (w : WorkerId) (id : ℕ) (p : TaskPayload) (rest : List Task)
      → ((i : ℕ) → occurrences i s.pending ≡ (if i == id then 1 else 0) + occurrences i rest)
      → IsPartition (
          start_running w id p
            (record s { pending = rest; pending_ids = IdSet.erase id s.pending_ids }))
  unfolding start_running
  start_running-IsPartition w id p rest split = maps-IsPartition _ _ _ _ (
      put_running-IsPartition id _ p
        (ground (arith, IdSet.contains-erase id id s.pending_ids v.ids_sorted))
        (v.not_done id (ground (arith, v.queued id, split id)))
        (dequeue-IsPartition id s rest split v))

  pub assign_to_worker-IsPartition :
      (w : WorkerId) (id : ℕ) → IsPartition (assign_to_worker w id s).0
  unfolding assign_to_worker
  assign_to_worker-IsPartition w id = elim (Bool-cases (is_pending s id)) [
    | inl here ↦
        (let (p, rest, e, split) =
            take_task-occurrences id s.pending (ground (arith, v.queued id)) in
          rw (here, e) (start_running-IsPartition w id p rest split))
    | inr gone ↦ rw gone v
  ]

  pub claim_first-IsPartition :
      (w : WorkerId) (q : List Task) → s.pending ≡ q → IsPartition (claim_first w s q).0
  unfolding claim_first
  claim_first-IsPartition w [] e = v
  claim_first-IsPartition w ((id, p) ∷ q) e = start_running-IsPartition w id p q (λ i. rw e refl)

  pub claim_next-IsPartition : (w : WorkerId) → IsPartition (claim_next w s).0
  unfolding claim_next
  claim_next-IsPartition w = claim_first-IsPartition w s.pending refl

  pub mark_done-IsPartition : (id : ℕ) → IsPartition (mark_done id s).0
  unfolding mark_done
  mark_done-IsPartition id = elim (Option-cases (find_running s id)) [
    | inl e ↦ rw (e, mark_done) v
    | inr (p, e) ↦
        rw (e, mark_done)
          (release_from_worker-IsPartition id _ (
            insert_done-IsPartition id (record s { running = Dict.erase ℕ_discrete id s.running })
              (ground (arith, v.not_running id))
              (ground (arith, Dict.find-erase ℕ_discrete id id s.running v.running_distinct))
              (erase_running-IsPartition id s v)))
  ]

  pub stop_running-IsPartition :
      (id : ℕ) (p : TaskPayload) → find_running s id ≡ some p → IsPartition (stop_running id p s)
  unfolding stop_running
  stop_running-IsPartition id p e = release_from_worker-IsPartition id _ (
      enqueue_pending-IsPartition id p _
        (ground (arith, Dict.find-erase ℕ_discrete id id s.running v.running_distinct))
        (ground (arith, v.ended id)) (erase_running-IsPartition id s v))

  pub mark_failed-IsPartition : (id : ℕ) → IsPartition (mark_failed id s).0
  unfolding mark_failed
  mark_failed-IsPartition id = elim (Option-cases (find_running s id)) [
    | inl e ↦ rw (e, mark_failed) v
    | inr (p, e) ↦ rw (e, mark_failed) (stop_running-IsPartition id p e)
  ]

  pub requeue_done-IsPartition : (id : ℕ) → IsPartition (requeue_done id s).0
  unfolding requeue_done
  requeue_done-IsPartition id = elim (Bool-cases (is_done s id)) [
    | inr no_one ↦ rw no_one v
    | inl ended ↦ elim (Option-cases (find_payload s id)) [
      | inl e ↦ rw (ended, e) v
      | inr (p, e) ↦
          rw (ended, e)
            (enqueue_pending-IsPartition id p _ (v.ended id ended)
              (ground (arith, IdSet.contains-erase id id s.done v.done_sorted))
              (erase_done-IsPartition id s v))
    ]
  ]

  pub requeue_task-IsPartition : (id : ℕ) → IsPartition (requeue_task id s).0
  unfolding requeue_task
  requeue_task-IsPartition id = elim (Option-cases (find_running s id)) [
    | inl e ↦ rw (e, requeue_task) (requeue_done-IsPartition id)
    | inr (p, e) ↦ rw (e, requeue_task) (stop_running-IsPartition id p e)
  ]

  pub remove_task_from_worker-IsPartition :
      (w : WorkerId) (id : ℕ) → IsPartition (remove_task_from_worker w id s).0
  unfolding remove_task_from_worker
  remove_task_from_worker-IsPartition w id = elim (Option-cases (find_tasks s w)) [
    | inl e ↦ rw (e, remove_task_from_worker) v
    | inr (ids, e) ↦ elim (Bool-cases (IdSet.contains id ids)) [
      | inl here ↦ rw (e, remove_task_from_worker, here) (maps-IsPartition s _ _ _ v)
      | inr gone ↦ rw (e, remove_task_from_worker, gone) v
    ]
  ]

  pub recover_task-IsPartition : (id : ℕ) → IsPartition (recover_task id s).0
  unfolding recover_task
  recover_task-IsPartition id = elim (Option-cases (find_running s id)) [
    | inl e ↦ rw (e, recover_task) (maps-IsPartition s _ _ _ v)
    | inr (p, e) ↦ rw (recover_task_running id s e) (
        maps-IsPartition _ _ _ _ (
          enqueue_pending-IsPartition id p _
            (ground (arith, Dict.find-erase ℕ_discrete id id s.running v.running_distinct))
            (ground (arith, v.ended id)) (erase_running-IsPartition id s v)))
  ]

pub recover_tasks-IsPartition :
    (ids : IdSet.IdSet) (s : State) → IsPartition s → IsPartition (recover_tasks ids s).0
unfolding recover_tasks
recover_tasks-IsPartition [] s v = v
recover_tasks-IsPartition (id ∷ ids) s v =
    recover_tasks-IsPartition ids (recover_task id s).0 (recover_task-IsPartition s v id)

pub recover_worker_tasks-IsPartition :
    (w : WorkerId) (s : State) → IsPartition s → IsPartition (recover_worker_tasks w s).0
unfolding recover_worker_tasks
recover_worker_tasks-IsPartition w s v = elim (Option-cases (find_tasks s w)) [
  | inl e ↦ rw (e, recover_worker_tasks) v
  | inr (ids, e) ↦
      rw (e, recover_worker_tasks)
        (maps-IsPartition (recover_tasks ids s).0 _ _ _ (recover_tasks-IsPartition ids s v))
]
