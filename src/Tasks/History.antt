-- ===== src/Tasks/History.antt =====
-- core/NTaskStateManager.h: histories of calls on one task manager.
use ndmspc.Base.IdSet
use ndmspc.Base.Dict
use ndmspc.Base.{
  All, Bool, false, ◌≡◌, refl, true, List, [], ◌∷◌, none, some, Option, ℕ_discrete, arith, is_some,
  Option-cases, inl, inr, not, ◌≢◌,
}
use ndmspc.Tasks.Defs.{
  State, TaskId, TaskPayload, WorkerId, find_payload, find_running, is_done, add_pending,
  assign_to_worker, claim_next, mark_done, mark_failed, requeue_task, recover_worker_tasks,
  remove_task_from_worker, clear,
}
use ndmspc.Tasks.Partition.{IsPartition, clear-IsPartition}
use ndmspc.Tasks.Invariant
use ndmspc.Tasks.Phases.{
  absent, is_absent, phase, phase-mark_done, phase-mark_failed, phase-requeue_task,
  phase-assign_to_worker, phase-recover_worker_tasks, phase-add_pending, phase-claim_next,
  phase-remove_task_from_worker,
}
use ndmspc.Tasks.Owners.{IsMirrored, clear-IsMirrored}
use ndmspc.Tasks.Owners.Methods
use ndmspc.Tasks.Owners.Recovery
use ndmspc.Tasks.Payloads.{IsStored}
use ndmspc.Tasks.Payloads.Methods as PayloadMethods

pub data Call : Type 0 where
  adds : TaskId → TaskPayload → Call
  assigns : WorkerId → TaskId → Call
  claims : WorkerId → Call
  finishes fails requeues : TaskId → Call
  recovers : WorkerId → Call
  removes : WorkerId → TaskId → Call
  clears : Call

-- A call that throws leaves the object as it was.
abbrev pub after : State → Option State → State
after s none = s
after s (some t) = t

unfoldable pub step : State → Call → State
step s (adds id p) = after s (add_pending id p s)
step s (assigns w id) = (assign_to_worker w id s).0
step s (claims w) = (claim_next w s).0
step s (finishes id) = (mark_done id s).0
step s (fails id) = (mark_failed id s).0
step s (requeues id) = (requeue_task id s).0
step s (recovers w) = (recover_worker_tasks w s).0
step s (removes w id) = (remove_task_from_worker w id s).0
step s clears = clear

unfoldable pub run : State → List Call → State
run s [] = s
run s (c ∷ cs) = run (step s c) cs

-- All that holds of a task manager between calls. `known`: the tasks with a state are those with a
-- stored payload.
pub record IsValid (s : State) : Type 0 where
  pub partition : IsPartition s
  pub mirrored : IsMirrored s
  pub stored : IsStored s
  pub known : (i : TaskId) → is_some (find_payload s i) ≡ not (is_absent (phase s i))

pub clear-IsValid : IsValid clear
unfolding Dict.find IdSet.contains
clear-IsValid = record {
  partition = clear-IsPartition;
  mirrored = clear-IsMirrored;
  stored = record { queue = tt; live = λ i p h. ground arith };
  known = λ i. refl;
}

pub known_done :
    (s : State) (id : TaskId) → IsValid s → is_done s id ≡ true → is_some (find_payload s id) ≡ true
known_done s id v h = ground (arith, v.known id)

known_same :
    (s t : State)
    → t.task_payloads ≡ s.task_payloads
    → ((j : TaskId) → is_absent (phase t j) ≡ is_absent (phase s j))
    → ((i : TaskId) → is_some (find_payload s i) ≡ not (is_absent (phase s i)))
    → (i : TaskId) → is_some (find_payload t i) ≡ not (is_absent (phase t i))
known_same s t e f k i = rw (e, f i) (k i)

module _ (s : State) (v : IsValid s) where
  pub adds-IsValid :
      (id : TaskId) (p : TaskPayload) {s' : State} → add_pending id p s ≡ some s' → IsValid s'
  adds-IsValid id p {s'} h = record {
    partition = Invariant.add_pending-IsPartition s v.partition id p h;
    mirrored = Methods.add_pending-IsMirrored s v.mirrored id p h;
    stored = PayloadMethods.add_pending-IsStored id p s h v.stored;
    known = λ i. ground (
      arith,
      phase-add_pending id i p s h,
      Dict.find-put ℕ_discrete i id p s.task_payloads,
      PayloadMethods.payloads-add_pending id p s h,
      v.known i,
    );
  }

  -- Every method keeps a task manager valid.
  pub step-IsValid : (c : Call) → IsValid (step s c)
  unfolding step
  step-IsValid (adds id p) = elim (Option-cases (add_pending id p s)) [
    | inl e ↦ rw e v
    | inr (t, e) ↦ rw e (adds-IsValid id p e)
  ]
  step-IsValid (assigns w id) = record {
    partition = Invariant.assign_to_worker-IsPartition s v.partition w id;
    mirrored = Methods.assign_to_worker-IsMirrored s v.mirrored v.partition w id;
    stored = PayloadMethods.assign_to_worker-IsStored s v.partition v.stored w id;
    known =
        known_same s (assign_to_worker w id s).0 (PayloadMethods.payloads-assign_to_worker id s w)
          (λ j. ground (arith, phase-assign_to_worker s v.partition id j w)) v.known;
  }
  step-IsValid (claims w) = record {
    partition = Invariant.claim_next-IsPartition s v.partition w;
    mirrored = Methods.claim_next-IsMirrored s v.mirrored v.partition w;
    stored = PayloadMethods.claim_next-IsStored s v.partition v.stored w;
    known =
        known_same s (claim_next w s).0 (PayloadMethods.payloads-claim_next w s)
          (λ j. ground (arith, phase-claim_next w s j v.partition, v.partition.queued j)) v.known;
  }
  step-IsValid (finishes id) = record {
    partition = Invariant.mark_done-IsPartition s v.partition id;
    mirrored = Methods.mark_done-IsMirrored s v.mirrored v.partition id;
    stored = PayloadMethods.mark_done-IsStored s v.partition v.stored id;
    known =
        known_same s (mark_done id s).0 (PayloadMethods.payloads-mark_done id s)
          (λ j. ground (arith, phase-mark_done s v.partition id j)) v.known;
  }
  step-IsValid (fails id) = record {
    partition = Invariant.mark_failed-IsPartition s v.partition id;
    mirrored = Methods.mark_failed-IsMirrored s v.mirrored v.partition id;
    stored = PayloadMethods.mark_failed-IsStored s v.partition v.stored id;
    known =
        known_same s (mark_failed id s).0 (PayloadMethods.payloads-mark_failed id s)
          (λ j. ground (arith, phase-mark_failed s v.partition id j)) v.known;
  }
  step-IsValid (requeues id) = record {
    partition = Invariant.requeue_task-IsPartition s v.partition id;
    mirrored = Methods.requeue_task-IsMirrored s v.mirrored v.partition id;
    stored = PayloadMethods.requeue_task-IsStored s v.partition v.stored id;
    known =
        known_same s (requeue_task id s).0 (PayloadMethods.payloads-requeue_task id s)
          (λ j. ground (arith, phase-requeue_task s v.partition id j (known_done s id v))) v.known;
  }
  step-IsValid (recovers w) = record {
    partition = Invariant.recover_worker_tasks-IsPartition w s v.partition;
    mirrored = Recovery.recover_worker_tasks-IsMirrored w s v.partition.running_distinct v.mirrored;
    stored = PayloadMethods.recover_worker_tasks-IsStored w s v.partition v.stored;
    known =
        known_same s (recover_worker_tasks w s).0 (PayloadMethods.payloads-recover_worker_tasks w s)
          (λ j. ground (arith, phase-recover_worker_tasks w s j v.partition)) v.known;
  }
  step-IsValid (removes w id) = record {
    partition = Invariant.remove_task_from_worker-IsPartition s v.partition w id;
    mirrored = Methods.remove_task_from_worker-IsMirrored s v.mirrored w id;
    stored = PayloadMethods.remove_task_from_worker-IsStored s v.partition v.stored w id;
    known =
        known_same s (remove_task_from_worker w id s).0
          (PayloadMethods.payloads-remove_task_from_worker id s w)
          (λ j. ground (arith, phase-remove_task_from_worker w id j s)) v.known;
  }
  step-IsValid clears = clear-IsValid

-- Every sequence of calls, `Clear` among them, keeps the manager well formed: a task is in one
-- state, the two maps of the assignments mirror each other, and the payloads agree.
pub run-IsValid : (cs : List Call) (s : State) → IsValid s → IsValid (run s cs)
unfolding run
run-IsValid [] s v = v
run-IsValid (c ∷ cs) s v = run-IsValid cs (step s c) (step-IsValid s v c)

-- `Clear` is the call that forgets the tasks.
abbrev pub is_clear : Call → Bool
is_clear clears = true
is_clear c = false

-- A payload that is stored stays.
find_payload-step :
    (s : State) (c : Call) (i : TaskId) (p : TaskPayload)
    → is_clear c ≡ false
    → find_payload s i ≡ some p
    → find_payload (step s c) i ≡ some p
unfolding step
find_payload-step s (adds id q) i p n h = elim (Option-cases (add_pending id q s)) [
  | inl e ↦ rw e h
  | inr (t, e) ↦
      rw (e, PayloadMethods.payloads-add_pending id q s e)
        (let (fresh, _) = Invariant.add_pending_inv id q s e in
          ground (
            arith,
            Dict.find-put ℕ_discrete i id q s.task_payloads,
            Invariant.new_not_stored id s fresh,
          ))
]
find_payload-step s (assigns w id) i p n h = rw (PayloadMethods.payloads-assign_to_worker id s w) h
find_payload-step s (claims w) i p n h = rw (PayloadMethods.payloads-claim_next w s) h
find_payload-step s (finishes id) i p n h = rw (PayloadMethods.payloads-mark_done id s) h
find_payload-step s (fails id) i p n h = rw (PayloadMethods.payloads-mark_failed id s) h
find_payload-step s (requeues id) i p n h = rw (PayloadMethods.payloads-requeue_task id s) h
find_payload-step s (recovers w) i p n h = rw (PayloadMethods.payloads-recover_worker_tasks w s) h
find_payload-step s (removes w id) i p n h =
    rw (PayloadMethods.payloads-remove_task_from_worker id s w) h
find_payload-step s clears i p n h = absurd (ground (arith, n))

find_payload-run :
    (cs : List Call) (s : State) (i : TaskId) (p : TaskPayload)
    → All (λ c. is_clear c ≡ false) cs
    → find_payload s i ≡ some p
    → find_payload (run s cs) i ≡ some p
unfolding run
find_payload-run [] s i p n h = h
find_payload-run (c ∷ cs) s i p n h =
    find_payload-run cs (step s c) i p n.1 (find_payload-step s c i p n.0 h)

-- A task that was added to a manager with a history is not lost before `Clear` is called: after any
-- further calls of the other methods it is pending, running or done, and the payload with which it
-- runs is the one that it was added with.
pub run-adds :
    (before later : List Call) (id : TaskId) (p : TaskPayload) {s : State}
    → add_pending id p (run clear before) ≡ some s
    → All (λ c. is_clear c ≡ false) later
    → (phase (run s later) id ≢ absent)
      × ((q : TaskPayload) → find_running (run s later) id ≡ some q → q ≡ p)
run-adds before later id p {s} h unclear =
    let v =
      run-IsValid later s
        (adds-IsValid (run clear before) (run-IsValid before clear clear-IsValid) id p h) in
    let at : find_payload s id ≡ some p =
      rw (PayloadMethods.payloads-add_pending id p (run clear before) h)
        (ground (arith, Dict.find-put ℕ_discrete id id p (run clear before).task_payloads)) in
    let kept = find_payload-run later s id p unclear at in
    ((λ gone. ground (arith, v.known id)), (λ q e. ground (arith, v.stored.live id q e)))
