-- ===== src/Tasks/Lifecycle.antt =====
-- core/NTaskStateManager.h: the life of a task, as a table of states that each call moves along.
use ndmspc.Base.IdSet
use ndmspc.Base.Dict
use ndmspc.Base.{
  ◌≡◌, refl, ap, ◌∙◌, true, false, Bool, List, [], ◌∷◌, none, ◌==◌, if◌then◌else◌, arith,
  Option-cases, inl, inr,
}
use ndmspc.Tasks.Defs.{
  State, Task, TaskId, TaskPayload, add_pending, clear, task_exists, get_worker_tasks,
}
use ndmspc.Tasks.History.{
  Call, adds, assigns, claims, finishes, fails, requeues, recovers, removes, clears, after, step,
  IsValid, known_done,
}
use ndmspc.Tasks.Invariant.{add_pending_inv}
use ndmspc.Tasks.Phases.{
  Phase, absent, is_absent, pending, running, done, phase, finish, fail, requeue, start,
  phase-mark_done, phase-mark_failed, phase-requeue_task, phase-assign_to_worker,
  phase-recover_worker_tasks, phase-add_pending, phase-claim_next, phase-remove_task_from_worker,
}

abbrev pub appear : Phase → Phase
appear absent = pending
appear q = q

-- Whether a claim takes this task.
abbrev pub is_first : TaskId → List Task → Bool
is_first j [] = false
is_first j (t ∷ ts) = j == t.0

-- Where a call takes a task, from where it is.
abbrev pub moved : State → Call → TaskId → Phase → Phase
moved s (adds id p) j q = if j == id then appear q else q
moved s (assigns w id) j q = if j == id then start q else q
moved s (claims w) j q = if is_first j s.pending then running else q
moved s (finishes id) j q = if j == id then finish q else q
moved s (fails id) j q = if j == id then fail q else q
moved s (requeues id) j q = if j == id then requeue q else q
moved s (recovers w) j q = if IdSet.contains j (get_worker_tasks s w) then fail q else q
moved s (removes w id) j q = q
moved s clears j q = absent

appear_known : (q : Phase) → is_absent q ≡ false → appear q ≡ q
appear_known absent h = cc
appear_known pending h = refl
appear_known running h = refl
appear_known done h = refl

exists-known :
    (s : State) (id : TaskId) → IsValid s → task_exists s id ≡ true → is_absent (phase s id) ≡ false
unfolding task_exists
exists-known s id v h = ground (arith, v.known id)

fresh_absent :
    (s : State) (id : TaskId) → IsValid s → task_exists s id ≡ false → phase s id ≡ absent
unfolding task_exists
fresh_absent s id v h = ground (arith, v.known id)

refused_exists :
    (s : State) (id : TaskId) (p : TaskPayload)
    → add_pending id p s ≡ none
    → task_exists s id ≡ true
unfolding add_pending
refused_exists s id p h = ground arith

add_pending-moved :
    (s : State) (id j : TaskId) (p : TaskPayload)
    → IsValid s
    → phase (after s (add_pending id p s)) j ≡ (if j == id then appear (phase s j) else phase s j)
add_pending-moved s id j p v = elim (Option-cases (add_pending id p s)) [
  | inl e ↦
      rw e
        (ground (arith, appear_known (phase s id) (exists-known s id v (refused_exists s id p e))))
  | inr (t, e) ↦ rw e (
      phase-add_pending id j p s e
      ∙ ground (arith, fresh_absent s id v (add_pending_inv id p s e).0))
]

first_eq :
    (j : TaskId) (q : List Task)
    → elim q as (λ _. Bool) [ [] ↦ false | t ∷ r ↦ j == t.0 ] ≡ is_first j q
first_eq j [] = refl
first_eq j (t ∷ ts) = refl

phase-clear : (j : TaskId) → phase clear j ≡ absent
unfolding IdSet.contains Dict.find
phase-clear j = refl

-- Each call on a manager with a history, `Clear` among them, moves its tasks as the table says and
-- no others, where `AddPending` of a task that has a state is refused.
pub phase-step :
    (s : State) (c : Call) (j : TaskId) → IsValid s → phase (step s c) j ≡ moved s c j (phase s j)
unfolding step
phase-step s (adds id p) j v = add_pending-moved s id j p v
phase-step s (assigns w id) j v = phase-assign_to_worker s v.partition id j w
phase-step s (claims w) j v =
    phase-claim_next w s j v.partition
    ∙ ap (λ b. if b then running else phase s j) (first_eq j s.pending)
phase-step s (finishes id) j v = phase-mark_done s v.partition id j
phase-step s (fails id) j v = phase-mark_failed s v.partition id j
phase-step s (requeues id) j v = phase-requeue_task s v.partition id j (known_done s id v)
phase-step s (recovers w) j v = phase-recover_worker_tasks w s j v.partition
phase-step s (removes w id) j v = phase-remove_task_from_worker w id j s
phase-step s clears j v = phase-clear j
