-- ===== src/Tests/Managing.antt =====
-- core/NTaskStateManager.cxx: the life of three tasks at two workers.
use ndmspc.Base.Int.{pos}
use ndmspc.Base.{All, false, ℕ, ◌≡◌, ◌≢◌, refl, List, [], ◌∷◌, some, bytes_dec, ℕ_discrete}
use ndmspc.Base.IdSet
use ndmspc.Base.Dict
use ndmspc.Tasks.Defs.{
  State, TaskPayload, WorkerId, clear, add_pending, claim_next, mark_done, requeue_task,
  recover_worker_tasks, find_running, claim_first, enqueue_pending, task_exists, start_running,
  insert_for_worker, release_from_worker, erase_for_worker, drop_if_empty, stop_running,
  requeue_done, recover_tasks, recover_task,
}
use ndmspc.Tasks.History.{
  Call, adds, claims, finishes, fails, requeues, recovers, run, step, IsValid, run-IsValid,
  run-adds, is_clear, clear-IsValid, after,
}
use ndmspc.Tasks.Lifecycle.{moved, phase-step}
use ndmspc.Tasks.Phases.{absent, pending, running, done, phase}

abbrev alice : WorkerId
alice = b'a' ∷ []

abbrev bob : WorkerId
bob = b'b' ∷ []

abbrev point : ℕ → TaskPayload
point n = pos n ∷ []

-- Task 0 is done, 1 runs at alice, 2 is pending.
abbrev calls : List Call
calls =
    adds 0 (point 7)
    ∷ adds 1 (point 8)
    ∷ adds 2 (point 9)
    ∷ claims bob
    ∷ claims alice
    ∷ finishes 0
    ∷ []

abbrev busy : State
busy = run clear calls

busy-IsValid : IsValid busy
busy-IsValid = run-IsValid calls clear clear-IsValid

program : Unit {0}
unfolding run step add_pending task_exists enqueue_pending claim_next claim_first start_running
    insert_for_worker mark_done release_from_worker erase_for_worker drop_if_empty
    recover_worker_tasks recover_tasks recover_task requeue_task requeue_done stop_running bytes_dec
    ℕ_discrete IdSet.contains IdSet.insert IdSet.erase Dict.find Dict.put Dict.erase
program = tt

busy_phases : (phase busy 0 ≡ done) × (phase busy 1 ≡ running) × (phase busy 2 ≡ pending)
unfolding program
busy_phases = (refl, refl, refl)

-- The task of a lost worker is behind the task that was pending.
recovered_queue : (step busy (recovers alice)).pending ≡ (2, point 9) ∷ (1, point 8) ∷ []
unfolding program
recovered_queue = refl

run-IsValid_example : IsValid (run busy (fails 1 ∷ recovers alice ∷ requeues 0 ∷ []))
run-IsValid_example = run-IsValid (fails 1 ∷ recovers alice ∷ requeues 0 ∷ []) busy busy-IsValid

abbrev later : List Call
later = claims bob ∷ recovers bob ∷ claims alice ∷ []

added : add_pending 3 (point 4) busy ≡ some (after busy (add_pending 3 (point 4) busy))
unfolding program
added = refl

no_clear : All (λ c. is_clear c ≡ false) later
no_clear = (refl, (refl, (refl, tt)))

run-adds_example :
    (phase (run (after busy (add_pending 3 (point 4) busy)) later) 3 ≢ absent)
    × ((q : TaskPayload)
        → find_running (run (after busy (add_pending 3 (point 4) busy)) later) 3 ≡ some q
        → q ≡ point 4)
run-adds_example = run-adds calls later 3 (point 4) added no_clear

phase-step_example : phase (step busy (finishes 1)) 1 ≡ moved busy (finishes 1) 1 (phase busy 1)
phase-step_example = phase-step busy (finishes 1) 1 busy-IsValid
