-- ===== src/Tasks/Phases.antt =====
-- core/NTaskStateManager.cxx: what each method does to the state of every task.
use ndmspc.Base.IdSet
use ndmspc.Base.Dict
use ndmspc.Base.{
  ℕ, ◌≡◌, refl, ap, ◌∙◌, ◌==◌, Bool, true, false, List, [], ◌∷◌, none, some, ℕ_discrete,
  if◌then◌else◌, arith, Bool-cases, Option-cases, inl, inr, ◌&&◌, is_some,
}
use ndmspc.Tasks.Defs.{
  State, Task, TaskId, TaskPayload, WorkerId, is_pending, find_running, find_tasks, find_payload,
  is_done, enqueue_pending, add_pending, start_running, assign_to_worker, claim_next,
  release_from_worker, mark_done, stop_running, mark_failed, requeue_done, requeue_task,
  recover_task, recover_tasks, recover_worker_tasks, remove_task_from_worker, claim_first,
  get_worker_tasks,
}
use ndmspc.Tasks.Partition.{IsPartition, occurrences}
use ndmspc.Tasks.Invariant.{
  take_task-occurrences, add_pending_inv, recover_task-IsPartition, recover_task_running,
}

-- Where a task is; `absent` is a task with no state.
pub data Phase : Type 0 where
  absent pending running done : Phase

abbrev pub phase : State → TaskId → Phase
phase s i =
    if is_pending s i
    then pending
    else if is_some (find_running s i)
    then running
    else if is_done s i
    then done
    else absent

phase-enqueue_pending :
    (j id : ℕ) (p : TaskPayload) (s : State)
    → phase (enqueue_pending id p s) j ≡ (if j == id then pending else phase s j)
unfolding enqueue_pending
phase-enqueue_pending j id p s = ground (arith, IdSet.contains-insert j id s.pending_ids)

phase-release_from_worker : (j id : ℕ) (s : State) → phase (release_from_worker id s) j ≡ phase s j
unfolding release_from_worker
phase-release_from_worker j id s = ground arith

abbrev pub is_absent : Phase → Bool
is_absent absent = true
is_absent q = false

abbrev pub finish : Phase → Phase
finish running = done
finish q = q

abbrev pub fail : Phase → Phase
fail running = pending
fail q = q

abbrev pub requeue : Phase → Phase
requeue running = pending
requeue done = pending
requeue q = q

abbrev pub start : Phase → Phase
start pending = running
start q = q

module _ (s : State) (v : IsPartition s) (id j : ℕ) where
  phase-erase_running :
      phase (record s { running = Dict.erase ℕ_discrete id s.running }) j
      ≡ (if j == id && is_some (find_running s j) then absent else phase s j)
  phase-erase_running = ground (
    arith,
    Dict.find-erase ℕ_discrete j id s.running v.running_distinct,
    v.not_running j,
    v.ended j,
  )

  -- In a partitioned manager, `MarkDone` takes its task from running to done, and changes the state of
  -- no other task.
  pub phase-mark_done :
      phase (mark_done id s).0 j ≡ (if j == id then finish (phase s j) else phase s j)
  unfolding mark_done
  phase-mark_done = elim (Option-cases (find_running s id)) [
    | inl e ↦ rw (e, mark_done) (ground arith)
    | inr (p, e) ↦
        rw (e, mark_done, phase-release_from_worker)
          (ground (
            arith,
            Dict.find-erase ℕ_discrete j id s.running v.running_distinct,
            IdSet.contains-insert j id s.done,
            v.not_running j,
            v.ended j,
          ))
  ]

  phase-stop_running :
      (p : TaskPayload)
      → find_running s id ≡ some p
      → phase (stop_running id p s) j ≡ (if j == id then pending else phase s j)
  unfolding stop_running
  phase-stop_running p e =
      rw (phase-release_from_worker, phase-enqueue_pending)
        (ground (arith, Dict.find-erase ℕ_discrete j id s.running v.running_distinct))

  -- In a partitioned manager, `MarkFailed` takes its task from running to pending, and changes the
  -- state of no other task.
  pub phase-mark_failed :
      phase (mark_failed id s).0 j ≡ (if j == id then fail (phase s j) else phase s j)
  unfolding mark_failed
  phase-mark_failed = elim (Option-cases (find_running s id)) [
    | inl e ↦ rw (e, mark_failed) (ground arith)
    | inr (p, e) ↦ rw (e, mark_failed, phase-stop_running p e) (ground (arith, v.not_running j))
  ]

  phase-start_running :
      (w : WorkerId) (p : TaskPayload) (rest : List Task)
      → is_pending s id ≡ true
      → phase
          (start_running w id p
            (record s { pending = rest; pending_ids = IdSet.erase id s.pending_ids }))
          j
        ≡ (if j == id then running else phase s j)
  unfolding start_running
  phase-start_running w p rest h = ground (
    arith,
    Dict.find-put ℕ_discrete j id p s.running,
    IdSet.contains-erase j id s.pending_ids v.ids_sorted,
  )

  -- In a partitioned manager, `AssignToWorker` takes its task from pending to running, and changes the
  -- state of no other task.
  pub phase-assign_to_worker :
      (w : WorkerId)
      → phase (assign_to_worker w id s).0 j ≡ (if j == id then start (phase s j) else phase s j)
  unfolding assign_to_worker
  phase-assign_to_worker w = elim (Bool-cases (is_pending s id)) [
    | inl here ↦
        (let (p, rest, e, split) =
            take_task-occurrences id s.pending (ground (arith, v.queued id)) in
          rw (here, e, phase-start_running w p rest here) (ground arith))
    | inr gone ↦ rw gone (ground arith)
  ]

  phase-requeue_done :
      find_running s id ≡ none
      → (is_done s id ≡ true → is_some (find_payload s id) ≡ true)
      → phase (requeue_done id s).0 j ≡ (if j == id then requeue (phase s j) else phase s j)
  unfolding requeue_done
  phase-requeue_done r known = elim (Bool-cases (is_done s id)) [
    | inr new ↦ rw new (ground arith)
    | inl ended ↦ elim (Option-cases (find_payload s id)) [
      | inl e ↦ absurd (ground (arith, known ended))
      | inr (p, e) ↦
          rw (ended, e, phase-enqueue_pending)
            (ground (arith, IdSet.contains-erase j id s.done v.done_sorted, v.not_done j))
    ]
  ]

  -- In a partitioned manager, `RequeueTask` takes its task from running or from done to pending, if a
  -- done one has a stored payload, and changes the state of no other task.
  pub phase-requeue_task :
      (is_done s id ≡ true → is_some (find_payload s id) ≡ true)
      → phase (requeue_task id s).0 j ≡ (if j == id then requeue (phase s j) else phase s j)
  unfolding requeue_task
  phase-requeue_task known = elim (Option-cases (find_running s id)) [
    | inl e ↦ rw (e, requeue_task) (phase-requeue_done e known)
    | inr (p, e) ↦ rw (e, requeue_task, phase-stop_running p e) (ground (arith, v.not_running j))
  ]

  phase-recover_task :
      phase (recover_task id s).0 j ≡ (if j == id then fail (phase s j) else phase s j)
  unfolding recover_task
  phase-recover_task = elim (Option-cases (find_running s id)) [
    | inl e ↦ rw (e, recover_task) (ground arith)
    | inr (p, e) ↦ rw (recover_task_running id s e) (
        phase-enqueue_pending j id p (record s { running = Dict.erase ℕ_discrete id s.running })
        ∙ ground
            (arith, v.not_running j, Dict.find-erase ℕ_discrete j id s.running v.running_distinct))
  ]

pub phase-remove_task_from_worker :
    (w : WorkerId) (id j : TaskId) (s : State)
    → phase (remove_task_from_worker w id s).0 j ≡ phase s j
unfolding remove_task_from_worker
phase-remove_task_from_worker w id j s = ground arith

-- `AddPending` that does not throw makes its task pending and changes the state of no other.
pub phase-add_pending :
    (id j : ℕ) (p : TaskPayload) (s : State) {s' : State}
    → add_pending id p s ≡ some s'
    → phase s' j ≡ (if j == id then pending else phase s j)
phase-add_pending id j p s h =
    let (fresh, e) = add_pending_inv id p s h in rw e (phase-enqueue_pending j id p s)

phase-recover_tasks :
    (ids : IdSet.IdSet) (s : State) (j : ℕ)
    → IsPartition s
    → phase (recover_tasks ids s).0 j
      ≡ (if IdSet.contains j ids then fail (phase s j) else phase s j)
unfolding recover_tasks IdSet.contains
phase-recover_tasks [] s j v = refl
phase-recover_tasks (id ∷ ids) s j v =
    phase-recover_tasks ids (recover_task id s).0 j (recover_task-IsPartition s v id)
    ∙ ground (arith, phase-recover_task s v id j)

-- In a partitioned manager, `RecoverWorkerTasks` takes the running tasks of the worker's set to
-- pending, and changes the state of no other task.
pub phase-recover_worker_tasks :
    (w : WorkerId) (s : State) (j : ℕ)
    → IsPartition s
    → phase (recover_worker_tasks w s).0 j
      ≡ (if IdSet.contains j (get_worker_tasks s w) then fail (phase s j) else phase s j)
unfolding recover_worker_tasks get_worker_tasks IdSet.contains
phase-recover_worker_tasks w s j v = elim (Option-cases (find_tasks s w)) [
  | inl e ↦ rw (e, recover_worker_tasks, get_worker_tasks) refl
  | inr (ids, e) ↦ rw (e, recover_worker_tasks, get_worker_tasks) (phase-recover_tasks ids s j v)
]

pub phase-claim_first :
    (w : WorkerId) (s : State) (q : List Task) (j : ℕ)
    → s.pending ≡ q
    → IsPartition s
    → phase (claim_first w s q).0 j
      ≡ (if elim q [ [] ↦ false | t ∷ r ↦ j == t.0 ] then running else phase s j)
unfolding claim_first
phase-claim_first w s [] j e v = refl
phase-claim_first w s ((id, p) ∷ q) j e v =
    phase-start_running s v id j w p q (ground (arith, v.queued id, ap (occurrences id) e))

pub phase-claim_next :
    (w : WorkerId) (s : State) (j : ℕ)
    → IsPartition s
    → phase (claim_next w s).0 j
      ≡ (if elim s.pending [ [] ↦ false | t ∷ r ↦ j == t.0 ] then running else phase s j)
unfolding claim_next
phase-claim_next w s j v = phase-claim_first w s s.pending j refl v
