-- ===== src/Supervisor/Balance.antt =====
-- core/NDimensionalExecutor.cxx: the counters of the supervisor against the task manager.
use ndmspc.Base.{ℕ, ◌+◌, ◌≡◌, refl, ap, ◌∙◌, ltb, Bool, is_some, arith, ℕ_discrete, List}
use ndmspc.Base.Dict
use ndmspc.Tasks.Defs.{
  State, TaskId, WorkerId, find_payload, running_count, done_count, total_count,
}
use ndmspc.Tasks.History.{IsValid, clear-IsValid}
use ndmspc.Sweep.Defs.{Executor}
use ndmspc.Supervisor.Defs.{Run, start_run}

-- `outstanding` counts the running tasks and `leak` more, `acked` counts the done ones, and the tasks
-- are those with an id below `nextTaskId`.
pub record Balanced (s : State) (leak outstanding acked next : ℕ) : Type 0 where
  pub valid : IsValid s
  pub live : outstanding ≡ running_count s + leak
  pub credited : acked ≡ done_count s
  pub numbered : total_count s ≡ next
  pub fresh : (i : TaskId) → is_some (find_payload s i) ≡ ltb i next

abbrev pub IsBalanced : ℕ → Run → Type 0
IsBalanced leak r = Balanced r.task_state leak r.outstanding r.acked r.next_task_id

-- A change of the tasks that stores no payload and moves tasks between the three states.
pub rebalance :
    (s t : State) (leak leak' o o' a a' n : ℕ)
    → Balanced s leak o a n
    → IsValid t
    → t.task_payloads ≡ s.task_payloads
    → total_count t ≡ total_count s
    → o' ≡ running_count t + leak'
    → a' ≡ done_count t
    → Balanced t leak' o' a' n
rebalance s t leak leak' o o' a a' n b v same total live credited = record {
  valid = v;
  live = live;
  credited = credited;
  numbered = total ∙ b.numbered;
  fresh = λ i. ap (λ m. is_some (Dict.find ℕ_discrete i m)) same ∙ b.fresh i;
}

-- The counters are in step when the main loop is entered.
pub start_run-IsBalanced :
    (tcp : Bool) (workers : List WorkerId) (indices : Dict.Dict WorkerId ℕ) (e : Executor)
    → IsBalanced 0 (start_run tcp workers indices e)
unfolding start_run Dict.find
start_run-IsBalanced tcp workers indices e = record {
  valid = clear-IsValid;
  live = refl;
  credited = refl;
  numbered = refl;
  fresh = λ i. ground arith;
}
