-- ===== src/Tasks/Counts.antt =====
-- core/NTaskStateManager.cxx and .h: the sizes of the three states, under the methods.
use ndmspc.Base.IdSet
use ndmspc.Base.Dict
use ndmspc.Base.{
  ℕ, ◌+◌, ◌≡◌, refl, ap, ◌∙◌, ◌⊎◌, ◌==◌, true, false, List, [], ◌∷◌, none, some, ℕ_discrete, arith,
  length, length-append, Bool-cases, Option-cases, inl, inr, Option,
}
use ndmspc.Tasks.Defs.{
  State, Task, TaskPayload, WorkerId, is_pending, find_running, find_tasks, find_payload, is_done,
  enqueue_pending, start_running, take_task, claim_next, release_from_worker, mark_done,
  stop_running, requeue_done, requeue_task, recover_task, recover_tasks, recover_worker_tasks,
  claim_first, pending_count, running_count, done_count,
}
use ndmspc.Tasks.Partition.{IsPartition, occurrences}
use ndmspc.Tasks.Invariant.{recover_task-IsPartition, recover_task_running}

length-take_task :
    (id : ℕ) (q : List Task)
    → occurrences id q ≡ 1
    → (p : TaskPayload) × (rest : List Task) × (take_task id q ≡ (some p, rest))
      × (length q ≡ length rest + 1)
unfolding take_task
length-take_task id [] h = absurd (omega arith)
length-take_task id ((j, p) ∷ q) h = elim (Bool-cases (j == id)) [
  | inl hit ↦ (p, q, rw hit, omega arith)
  | inr miss ↦
      (let (p', rest, e, n) = length-take_task id q (ground arith) in
        (p', (j, p) ∷ rest, rw (miss, e), omega arith))
]

pub release_counts :
    (id : ℕ) (s : State)
    → (pending_count (release_from_worker id s) ≡ pending_count s)
      × (running_count (release_from_worker id s) ≡ running_count s)
      × (done_count (release_from_worker id s) ≡ done_count s)
unfolding release_from_worker
release_counts id s = ground arith

pub enqueue_counts :
    (id : ℕ) (p : TaskPayload) (s : State)
    → is_pending s id ≡ false
    → (pending_count (enqueue_pending id p s) ≡ pending_count s + 1)
      × (running_count (enqueue_pending id p s) ≡ running_count s)
      × (done_count (enqueue_pending id p s) ≡ done_count s)
unfolding enqueue_pending
enqueue_counts id p s h = rw h (length-append s.pending ((id, p) ∷ []), refl, refl)

-- `RequeueTask` of a task that does not run: nothing, or a done task is queued again.
requeue_done_cases :
    (id : ℕ) (s : State)
    → (requeue_done id s ≡ (s, false))
      ⊎ ((p : TaskPayload) × (is_done s id ≡ true)
          × (find_payload s id ≡ some p)
          × ((requeue_done id s).1 ≡ true))
unfolding requeue_done
requeue_done_cases id s = elim (Bool-cases (is_done s id)) [
  | inr no_one ↦ rw no_one (inl refl)
  | inl ended ↦ elim (Option-cases (find_payload s id)) [
    | inl missing ↦ rw (ended, missing) (inl refl)
    | inr (p, stored) ↦ inr (p, ended, stored, rw (ended, stored) refl)
  ]
]

-- What a claim that returns no task or that returns one does to the counts.
abbrev pub IsClaim : State → State × Option Task → Type 0
IsClaim s (t, none) = t ≡ s
IsClaim s (t, some task) =
    (pending_count t + 1 ≡ pending_count s)
    × (running_count t ≡ running_count s + 1)
    × (done_count t ≡ done_count s)

module _ (s : State) (v : IsPartition s) where
  pub mark_done_counts :
      (id : ℕ) {p : TaskPayload}
      → find_running s id ≡ some p
      → (pending_count (mark_done id s).0 ≡ pending_count s)
        × (running_count (mark_done id s).0 + 1 ≡ running_count s)
        × (done_count (mark_done id s).0 ≡ done_count s + 1)
  unfolding mark_done
  mark_done_counts id {p} e =
      let rest = record s {
        done = IdSet.insert id s.done;
        running = Dict.erase ℕ_discrete id s.running;
      } in
      let (a, b, c) = release_counts id rest in
      rw (e, mark_done)
        (
          a,
          omega (arith, b, Dict.length-erase ℕ_discrete id s.running e),
          omega (arith, c, IdSet.length-insert id s.done (ground (arith, v.ended id))),
        )

  pub stop_running_counts :
      (id : ℕ) {p : TaskPayload}
      → find_running s id ≡ some p
      → (pending_count (stop_running id p s) ≡ pending_count s + 1)
        × (running_count (stop_running id p s) + 1 ≡ running_count s)
        × (done_count (stop_running id p s) ≡ done_count s)
  unfolding stop_running
  stop_running_counts id {p} e =
      let less = record s { running = Dict.erase ℕ_discrete id s.running } in
      let (a, b, c) = release_counts id (enqueue_pending id p less) in
      let (a', b', c') = enqueue_counts id p less (ground (arith, v.not_running id)) in
      (
        omega (arith, a, a'),
        omega (arith, b, b', Dict.length-erase ℕ_discrete id s.running e),
        omega (arith, c, c'),
      )

  pub start_running_counts :
      (w : WorkerId) (id : ℕ) (p : TaskPayload) (rest : List Task)
      → is_pending s id ≡ true
      → length s.pending ≡ length rest + 1
      → let q =
          start_running w id p
            (record s { pending = rest; pending_ids = IdSet.erase id s.pending_ids }) in
        (pending_count q + 1 ≡ pending_count s)
        × (running_count q ≡ running_count s + 1)
        × (done_count q ≡ done_count s)
  unfolding start_running
  start_running_counts w id p rest h n =
      (omega arith, Dict.length-put ℕ_discrete id p s.running (v.not_running id h), refl)

  pub requeue_done_counts :
      (id : ℕ) {p : TaskPayload}
      → is_done s id ≡ true
      → find_payload s id ≡ some p
      → (pending_count (requeue_done id s).0 ≡ pending_count s + 1)
        × (running_count (requeue_done id s).0 ≡ running_count s)
        × (done_count (requeue_done id s).0 + 1 ≡ done_count s)
  unfolding requeue_done
  requeue_done_counts id {p} d e =
      let less = record s { done = IdSet.erase id s.done } in
      let (a, b, c) = enqueue_counts id p less (ground (arith, v.not_done id)) in
      rw (d, e) (a, b, omega (arith, c, IdSet.length-erase id s.done d))

  -- `RequeueTask` on a partitioned manager either refuses and changes nothing, or adds one pending task,
  -- which comes from the done ones if the task was done and else from the running ones.
  pub requeue_task_counts :
      (id : ℕ)
      → let q = requeue_task id s in
        (q.1 ≡ false) × (q.0 ≡ s)
        ⊎ ((q.1 ≡ true)
            × (is_done s id ≡ true)
            × (pending_count q.0 ≡ pending_count s + 1)
            × (running_count q.0 ≡ running_count s)
            × (done_count q.0 + 1 ≡ done_count s))
        ⊎ ((q.1 ≡ true)
            × (is_done s id ≡ false)
            × (pending_count q.0 ≡ pending_count s + 1)
            × (running_count q.0 + 1 ≡ running_count s)
            × (done_count q.0 ≡ done_count s))
  unfolding requeue_task
  requeue_task_counts id = elim (Option-cases (find_running s id)) [
    | inr (p, e) ↦
        rw (e, requeue_task)
          (let (a, b, c) = stop_running_counts id e in
            inr (inr (refl, ground (arith, v.ended id), a, b, c)))
    | inl e ↦
        rw (e, requeue_task)
          (elim (requeue_done_cases id s) [
            | inl same ↦ inl (ap (λ r. r.1) same, ap (λ r. r.0) same)
            | inr (p, ended, stored, done_so) ↦
                (let (a, b, c) = requeue_done_counts id ended stored in
                  inr (inl (done_so, ended, a, b, c)))
          ])
  ]

  claim_first_counts :
      (w : WorkerId) (q : List Task) → s.pending ≡ q → IsClaim s (claim_first w s q)
  unfolding claim_first
  claim_first_counts w [] e = refl
  claim_first_counts w ((id, p) ∷ q) e =
      start_running_counts w id p q (ground (arith, v.queued id)) (omega (arith, ap length e))

  -- `ClaimNextPendingForWorker` on a partitioned manager either returns no task and changes nothing, or
  -- returns one and moves one task from the pending to the running ones.
  pub claim_next_counts : (w : WorkerId) → IsClaim s (claim_next w s)
  unfolding claim_next
  claim_next_counts w = claim_first_counts w s.pending refl

  recover_task_counts :
      (id : ℕ)
      → (pending_count (recover_task id s).0 ≡ pending_count s + length (recover_task id s).1)
        × (running_count (recover_task id s).0 + length (recover_task id s).1 ≡ running_count s)
        × (done_count (recover_task id s).0 ≡ done_count s)
  unfolding recover_task
  recover_task_counts id = elim (Option-cases (find_running s id)) [
    | inl e ↦ rw (e, recover_task) (omega arith, omega arith, refl)
    | inr (p, e) ↦
        (let less = record s { running = Dict.erase ℕ_discrete id s.running } in
          let (a, b, c) = enqueue_counts id p less (ground (arith, v.not_running id)) in
          rw (recover_task_running id s e)
            (a, omega (arith, b, Dict.length-erase ℕ_discrete id s.running e), c))
  ]

recover_tasks_counts :
    (ids : IdSet.IdSet) (s : State)
    → IsPartition s
    → (pending_count (recover_tasks ids s).0 ≡ pending_count s + length (recover_tasks ids s).1)
      × (running_count (recover_tasks ids s).0 + length (recover_tasks ids s).1 ≡ running_count s)
      × (done_count (recover_tasks ids s).0 ≡ done_count s)
unfolding recover_tasks
recover_tasks_counts [] s v = (omega arith, omega arith, refl)
recover_tasks_counts (id ∷ ids) s v =
    let (a, b, c) = recover_task_counts s v id in
    let s' = (recover_task id s).0 in
    let (a', b', c') = recover_tasks_counts ids s' (recover_task-IsPartition s v id) in
    let n = length-append (recover_task id s).1 (recover_tasks ids s').1 in
    (omega (arith, a, a', n), omega (arith, b, b', n), c' ∙ c)

-- `RecoverWorkerTasks` on a partitioned manager moves as many tasks from the running to the pending
-- ones as it returns, and no done one.
pub recover_worker_tasks_counts :
    (w : WorkerId) (s : State)
    → IsPartition s
    → let q = recover_worker_tasks w s in
      (pending_count q.0 ≡ pending_count s + length q.1)
      × (running_count q.0 + length q.1 ≡ running_count s)
      × (done_count q.0 ≡ done_count s)
unfolding recover_worker_tasks
recover_worker_tasks_counts w s v = elim (Option-cases (find_tasks s w)) [
  | inl e ↦ rw (e, recover_worker_tasks) (omega arith, omega arith, refl)
  | inr (ids, e) ↦ rw (e, recover_worker_tasks) (recover_tasks_counts ids s v)
]
