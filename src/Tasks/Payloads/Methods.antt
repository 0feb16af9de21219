-- ===== src/Tasks/Payloads/Methods.antt =====
-- core/NTaskStateManager.cxx: the stored payloads, under every method.
use ndmspc.Base.IdSet
use ndmspc.Base.IdSet.{IdSet}
use ndmspc.Base.Dict
use ndmspc.Base.Dict.{Dict}
use ndmspc.Base.{
  ◌≡◌, refl, ap, ◌∙◌, false, List, [], ◌∷◌, none, some, ℕ_discrete, arith, Bool-cases, Option-cases,
  inl, inr, All, All-map,
}
use ndmspc.Tasks.Defs.{
  State, Task, TaskId, TaskPayload, WorkerId, is_pending, find_running, find_tasks, find_payload,
  is_done, enqueue_pending, add_pending, task_exists, start_running, assign_to_worker, claim_next,
  claim_first, after_take, release_from_worker, mark_done, stop_running, mark_failed, requeue_done,
  requeue_task, recover_task, recover_tasks, recover_worker_tasks, remove_task_from_worker,
}
use ndmspc.Tasks.Partition.{IsPartition}
use ndmspc.Tasks.Invariant.{
  add_pending_inv, recover_task_running, recover_task-IsPartition, take_task-occurrences,
}
use ndmspc.Tasks.Payloads.{
  IsStored, take_task-All, enqueue_pending-IsStored, release-IsStored, erase_running-IsStored,
  start_running-IsStored,
}

fields-IsStored :
    (s : State) (ids done : IdSet) (wt : Dict WorkerId IdSet) (tw : Dict TaskId WorkerId)
    → IsStored s
    → IsStored
        (record s { pending_ids = ids; done = done; worker_to_tasks = wt; task_to_worker = tw })
fields-IsStored s ids done wt tw v = record { queue = v.queue; live = v.live }

module _ (s : State) (d : IsPartition s) (v : IsStored s) where
  pub mark_done-IsStored : (id : TaskId) → IsStored (mark_done id s).0
  unfolding mark_done
  mark_done-IsStored id = elim (Option-cases (find_running s id)) [
    | inl e ↦ rw (e, mark_done) v
    | inr (p, e) ↦
        rw (e, mark_done)
          (release-IsStored _
            (fields-IsStored (record s { running = Dict.erase ℕ_discrete id s.running })
              s.pending_ids (IdSet.insert id s.done) s.worker_to_tasks s.task_to_worker
              (erase_running-IsStored s v id d.running_distinct))
            id)
  ]

  pub stop_running-IsStored :
      (id : TaskId) (p : TaskPayload) → find_running s id ≡ some p → IsStored (stop_running id p s)
  unfolding stop_running
  stop_running-IsStored id p e =
      release-IsStored _
        (enqueue_pending-IsStored _ (erase_running-IsStored s v id d.running_distinct) id p
          (v.live id p e))
        id

  pub mark_failed-IsStored : (id : TaskId) → IsStored (mark_failed id s).0
  unfolding mark_failed
  mark_failed-IsStored id = elim (Option-cases (find_running s id)) [
    | inl e ↦ rw (e, mark_failed) v
    | inr (p, e) ↦ rw (e, mark_failed) (stop_running-IsStored id p e)
  ]

  pub requeue_done-IsStored : (id : TaskId) → IsStored (requeue_done id s).0
  unfolding requeue_done
  requeue_done-IsStored id = elim (Bool-cases (is_done s id)) [
    | inr no_one ↦ rw no_one v
    | inl ended ↦ elim (Option-cases (find_payload s id)) [
      | inl e ↦ rw (ended, e) v
      | inr (p, e) ↦
          rw (ended, e)
            (enqueue_pending-IsStored (record s { done = IdSet.erase id s.done })
              (fields-IsStored s s.pending_ids _ s.worker_to_tasks s.task_to_worker v) id p e)
    ]
  ]

  pub requeue_task-IsStored : (id : TaskId) → IsStored (requeue_task id s).0
  unfolding requeue_task
  requeue_task-IsStored id = elim (Option-cases (find_running s id)) [
    | inl e ↦ rw (e, requeue_task) (requeue_done-IsStored id)
    | inr (p, e) ↦ rw (e, requeue_task) (stop_running-IsStored id p e)
  ]

  pub recover_task-IsStored : (id : TaskId) → IsStored (recover_task id s).0
  unfolding recover_task
  recover_task-IsStored id = elim (Option-cases (find_running s id)) [
    | inl e ↦ rw (e, recover_task) (fields-IsStored s _ _ _ _ v)
    | inr (p, e) ↦ rw (recover_task_running id s e) (
        fields-IsStored _ _ _ _ _ (
          enqueue_pending-IsStored _ (erase_running-IsStored s v id d.running_distinct) id p
            (v.live id p e)))
  ]

  pub remove_task_from_worker-IsStored :
      (w : WorkerId) (id : TaskId) → IsStored (remove_task_from_worker w id s).0
  unfolding remove_task_from_worker
  remove_task_from_worker-IsStored w id = elim (Option-cases (find_tasks s w)) [
    | inl e ↦ rw (e, remove_task_from_worker) v
    | inr (ids, e) ↦ elim (Bool-cases (IdSet.contains id ids)) [
      | inl here ↦ rw (e, remove_task_from_worker, here) (fields-IsStored s _ _ _ _ v)
      | inr gone ↦ rw (e, remove_task_from_worker, gone) v
    ]
  ]

  pub assign_to_worker-IsStored :
      (w : WorkerId) (id : TaskId) → IsStored (assign_to_worker w id s).0
  unfolding assign_to_worker after_take
  assign_to_worker-IsStored w id = elim (Bool-cases (is_pending s id)) [
    | inr gone ↦ rw gone v
    | inl here ↦
        (let (p, rest, e, split) =
            take_task-occurrences id s.pending (ground (arith, d.queued id)) in
          let (kept, taken) =
            take_task-All (λ t. find_payload s t.0 ≡ some t.1) id s.pending v.queue in
          rw (here, e)
            (start_running-IsStored
              (record s { pending = rest; pending_ids = IdSet.erase id s.pending_ids })
              (record { queue = rw e at kept; live = v.live }) w id p (taken p (ap (λ r. r.0) e))))
  ]

  -- The payload that a claim returns is the stored one.
  claim_first-IsStored :
      (w : WorkerId) (q : List Task)
      → All (λ t. find_payload s t.0 ≡ some t.1) q
      → IsStored (claim_first w s q).0
  unfolding claim_first
  claim_first-IsStored w [] h = v
  claim_first-IsStored w ((id, p) ∷ q) h =
      start_running-IsStored (record s { pending = q; pending_ids = IdSet.erase id s.pending_ids })
        (record { queue = h.1; live = v.live }) w id p h.0

  pub claim_next-IsStored : (w : WorkerId) → IsStored (claim_next w s).0
  unfolding claim_next
  claim_next-IsStored w = claim_first-IsStored w s.pending v.queue

recover_tasks-IsStored :
    (ids : IdSet) (s : State) → IsPartition s → IsStored s → IsStored (recover_tasks ids s).0
unfolding recover_tasks
recover_tasks-IsStored [] s d v = v
recover_tasks-IsStored (id ∷ ids) s d v =
    recover_tasks-IsStored ids (recover_task id s).0 (recover_task-IsPartition s d id)
      (recover_task-IsStored s d v id)

pub recover_worker_tasks-IsStored :
    (w : WorkerId) (s : State) → IsPartition s → IsStored s → IsStored (recover_worker_tasks w s).0
unfolding recover_worker_tasks
recover_worker_tasks-IsStored w s d v = elim (Option-cases (find_tasks s w)) [
  | inl e ↦ rw (e, recover_worker_tasks) v
  | inr (ids, e) ↦
      rw (e, recover_worker_tasks)
        (fields-IsStored (recover_tasks ids s).0 _ _ _ _ (recover_tasks-IsStored ids s d v))
]

add_payload-IsStored :
    (id : TaskId) (p : TaskPayload) (s : State)
    → find_payload s id ≡ none
    → IsStored s
    → IsStored (record s { task_payloads = Dict.put ℕ_discrete id p s.task_payloads })
add_payload-IsStored id p s new v = record {
  queue =
      All-map s.pending (λ t h. ground (arith, Dict.find-put ℕ_discrete t.0 id p s.task_payloads))
        v.queue;
  live = λ i p' h. ground (arith, Dict.find-put ℕ_discrete i id p s.task_payloads, v.live i p');
}

pub add_pending-IsStored :
    (id : TaskId) (p : TaskPayload) (s : State) {s' : State}
    → add_pending id p s ≡ some s'
    → IsStored s
    → IsStored s'
unfolding enqueue_pending task_exists
add_pending-IsStored id p s h v =
    let (fresh, e) = add_pending_inv id p s h in
    let new_payload : find_payload s id ≡ none = ground arith in
    let new_pending : is_pending s id ≡ false = ground arith in
    let t = record s { task_payloads = Dict.put ℕ_discrete id p s.task_payloads } in
    rw (e, new_pending)
      (rw new_pending at (
        enqueue_pending-IsStored t (add_payload-IsStored id p s new_payload v) id p
          (ground (arith, Dict.find-put ℕ_discrete id id p s.task_payloads))))

-- Only `AddPending` changes what is stored.
payloads-enqueue_pending :
    (id : TaskId) (p : TaskPayload) (s : State)
    → (enqueue_pending id p s).task_payloads ≡ s.task_payloads
unfolding enqueue_pending
payloads-enqueue_pending id p s = ground arith

payloads-release :
    (id : TaskId) (s : State) → (release_from_worker id s).task_payloads ≡ s.task_payloads
unfolding release_from_worker
payloads-release id s = ground arith

module _ (id : TaskId) (s : State) where
  pub payloads-mark_done : (mark_done id s).0.task_payloads ≡ s.task_payloads
  unfolding mark_done release_from_worker
  payloads-mark_done = ground arith

  pub payloads-mark_failed : (mark_failed id s).0.task_payloads ≡ s.task_payloads
  unfolding mark_failed stop_running release_from_worker enqueue_pending
  payloads-mark_failed = ground arith

  pub payloads-requeue_task : (requeue_task id s).0.task_payloads ≡ s.task_payloads
  unfolding requeue_task requeue_done stop_running release_from_worker enqueue_pending
  payloads-requeue_task = ground arith

  payloads-recover_task : (recover_task id s).0.task_payloads ≡ s.task_payloads
  unfolding recover_task enqueue_pending
  payloads-recover_task = ground arith

  pub payloads-remove_task_from_worker :
      (w : WorkerId) → (remove_task_from_worker w id s).0.task_payloads ≡ s.task_payloads
  unfolding remove_task_from_worker
  payloads-remove_task_from_worker w = ground arith

  pub payloads-assign_to_worker :
      (w : WorkerId) → (assign_to_worker w id s).0.task_payloads ≡ s.task_payloads
  unfolding assign_to_worker after_take start_running
  payloads-assign_to_worker w = ground arith

pub payloads-claim_next :
    (w : WorkerId) (s : State) → (claim_next w s).0.task_payloads ≡ s.task_payloads
unfolding claim_next claim_first start_running
payloads-claim_next w s = ground arith

payloads-recover_tasks :
    (ids : IdSet) (s : State) → (recover_tasks ids s).0.task_payloads ≡ s.task_payloads
unfolding recover_tasks
payloads-recover_tasks [] s = refl
payloads-recover_tasks (id ∷ ids) s =
    payloads-recover_tasks ids (recover_task id s).0 ∙ payloads-recover_task id s

pub payloads-recover_worker_tasks :
    (w : WorkerId) (s : State) → (recover_worker_tasks w s).0.task_payloads ≡ s.task_payloads
unfolding recover_worker_tasks
payloads-recover_worker_tasks w s = elim (Option-cases (find_tasks s w)) [
  | inl e ↦ rw (e, recover_worker_tasks) refl
  | inr (ids, e) ↦ rw (e, recover_worker_tasks) (payloads-recover_tasks ids s)
]

pub payloads-add_pending :
    (id : TaskId) (p : TaskPayload) (s : State) {s' : State}
    → add_pending id p s ≡ some s'
    → s'.task_payloads ≡ Dict.put ℕ_discrete id p s.task_payloads
payloads-add_pending id p s h =
    let (fresh, e) = add_pending_inv id p s h in
    ap (λ t. t.task_payloads) e ∙ ap (Dict.put ℕ_discrete id p) (payloads-enqueue_pending id p s)
