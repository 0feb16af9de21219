-- ===== src/Supervisor/Loop/Rounds.antt =====
-- core/NDimensionalExecutor.cxx: the counters over a dispatch round and the loss of workers.
use ndmspc.Base.{
  ℕ, zero, suc, ◌+◌, ◌≡◌, ◌==◌, Bool, true, not, ◌&&◌, List, [], ◌∷◌, Option, none, some, arith,
  if_cases, length,
}
use ndmspc.Tasks.Defs.{WorkerId}
use ndmspc.Supervisor.Balance.{IsBalanced}
use ndmspc.Supervisor.Failure.{lose_worker-IsBalanced}
use ndmspc.Supervisor.Rounds.{dispatch_sent-IsBalanced}
use ndmspc.Supervisor.Defs.{Run, Error, goes_on, no_workers, lose_worker}
use ndmspc.Supervisor.Loop.Defs.{
  Settings, fail_run, require_workers, has_workers, search_worker, pick_worker, may_dispatch,
  after_pick, dispatch_round, time_out, starve, lose_failed, workers_to_remove, clean_up,
  is_eligible, worker_at, member,
}

-- The counters are in step unless the run has failed.
abbrev pub IsFine : ℕ → Run → Type 0
IsFine leak r = r.first_error ≡ none → IsBalanced leak r

pub fail_run-IsFine : (leak : ℕ) (e : Error) (r : Run) → IsFine leak (fail_run e r)
fail_run-IsFine leak e r h = absurd (ground arith)

require_workers-IsFine : (leak : ℕ) (r : Run) → IsFine leak r → IsFine leak (require_workers r)
unfolding require_workers
require_workers-IsFine leak r b =
    if_cases (IsFine leak) (has_workers r) (λ y. b) (λ n. fail_run-IsFine leak no_workers r)

module _ (leak : ℕ) where
  pub lost-IsFine :
      (w : WorkerId) (r : Run) → IsBalanced leak r → IsFine leak (require_workers (lose_worker w r))
  lost-IsFine w r b =
      require_workers-IsFine leak (lose_worker w r) (λ h. lose_worker-IsBalanced leak w r b)

  pub time_out-IsFine : (w : WorkerId) (r : Run) → IsBalanced leak r → IsFine leak (time_out w r)
  unfolding time_out
  time_out-IsFine w r b =
      if_cases (IsFine leak) (member w r.failed_tcp_workers) (λ y h. b)
        (λ n. lost-IsFine w (record r { failed_tcp_workers = w ∷ r.failed_tcp_workers }) b)

  lose_failed-IsBalanced :
      (ws : List WorkerId) (r : Run) → IsBalanced leak r → IsBalanced leak (lose_failed ws r)
  unfolding lose_failed
  lose_failed-IsBalanced [] r b = b
  lose_failed-IsBalanced (w ∷ ws) r b =
      lose_failed-IsBalanced ws (lose_worker w r) (lose_worker-IsBalanced leak w r b)

  pub clean_up-IsFine : (r : Run) → IsBalanced leak r → IsFine leak (clean_up r)
  unfolding clean_up
  clean_up-IsFine r b =
      let ws = workers_to_remove r.failed_tcp_workers r.worker_identity_vec in
      if_cases (IsFine leak) (r.is_tcp && not (length r.failed_tcp_workers == 0))
        (λ y. require_workers-IsFine leak (lose_failed ws r) (λ h. lose_failed-IsBalanced ws r b))
        (λ n h. b)

  -- The search for a worker leaves a run that is in step and has not failed.
  abbrev IsOpen : Run × Option WorkerId → Type 0
  IsOpen p = IsBalanced leak p.0 × (p.0.first_error ≡ none)

  search_worker-IsBalanced :
      (k most : ℕ) (r : Run)
      → IsBalanced leak r
      → r.first_error ≡ none
      → IsOpen (search_worker k most r)
  unfolding search_worker
  search_worker-IsBalanced zero most r b e = (b, e)
  search_worker-IsBalanced (suc k) most r b e =
      if_cases IsOpen (is_eligible most (worker_at r) r) (λ y. (b, e))
        (λ n.
          search_worker-IsBalanced k most
            (record r { dispatch_message_id = r.dispatch_message_id + 1 }) b e)

  pick_worker-IsBalanced :
      (most : ℕ) (r : Run) → IsBalanced leak r → r.first_error ≡ none → IsOpen (pick_worker most r)
  unfolding pick_worker
  pick_worker-IsBalanced most r b e =
      if_cases IsOpen r.is_tcp
        (λ y. search_worker-IsBalanced (length r.worker_identity_vec) most r b e) (λ n. (b, e))

  after_pick-IsFine :
      (s : Settings) (poll : ℕ → Bool) (p : Run × Option WorkerId)
      → IsBalanced leak p.0
      → p.0.first_error ≡ none
      → IsFine leak (after_pick s true poll p)
  unfolding after_pick
  after_pick-IsFine s poll (r, none) b e h = b
  after_pick-IsFine s poll (r, some w) b e h =
      (dispatch_sent-IsBalanced leak poll s.effective_batch s.total_tasks w r b e).0

  pub dispatch_round-IsFine :
      (s : Settings) (poll : ℕ → Bool) (r : Run)
      → IsBalanced leak r
      → r.first_error ≡ none
      → IsFine leak (dispatch_round s true poll r)
  unfolding dispatch_round
  dispatch_round-IsFine s poll r b e =
      let (b', e') = pick_worker-IsBalanced s.tcp_max_in_flight r b e in
      if_cases (IsFine leak) (may_dispatch r)
        (λ y. after_pick-IsFine s poll (pick_worker s.tcp_max_in_flight r) b' e') (λ n h. b)

  pub starve-IsFine : (r : Run) → IsBalanced leak r → IsFine leak (starve r)
  unfolding starve
  starve-IsFine r b =
      if_cases (IsFine leak) (goes_on r) (λ y. require_workers-IsFine leak r (λ h. b)) (λ n h. b)
