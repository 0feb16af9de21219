-- ===== src/Supervisor/Rounds.antt =====
-- core/NDimensionalExecutor.cxx: the rounds of the main loop, and how it ends.
use ndmspc.Base.Dict
use ndmspc.Base.Int.{ℤ}
use ndmspc.Base.{
  ℕ, ◌+◌, ◌<◌, ◌≡◌, refl, ap, Bool, true, false, List, [], ◌∷◌, none, arith, ℕ_discrete, is_some,
  Bool-cases, inl, inr, length,
}
use ndmspc.Tasks.Defs.{
  State, Task, TaskId, WorkerId, has_pending, is_done, find_running, running_count, pending_count,
}
use ndmspc.Tasks.Partition.{occurrences}
use ndmspc.Supervisor.Balance.{IsBalanced}
use ndmspc.Supervisor.Batch.{fail_all-Balanced}
use ndmspc.Supervisor.Dispatch.{IsFilled, IsExpected, fill_batch-IsFilled}
use ndmspc.Supervisor.Defs.{Run, fill_batch, dispatch, send_batch, fail_all, goes_on}

send_sent :
    (leak : ℕ) (w : WorkerId) (r : Run) (batch : List Task)
    → IsFilled leak (r, batch)
    → IsBalanced leak (send_batch true w r batch)
      × ((send_batch true w r batch).first_error ≡ r.first_error)
unfolding send_batch
send_sent leak w r [] b = (b.balanced, refl)
send_sent leak w r (t ∷ ts) b = (b.balanced, refl)

send_lost :
    (leak : ℕ) (w : WorkerId) (r : Run) (batch : List Task)
    → IsFilled leak (r, batch)
    → (send_batch false w r batch).first_error ≡ none
    → IsBalanced (leak + length batch) (send_batch false w r batch)
unfolding send_batch fail_all
send_lost leak w r [] b e = fail_all-Balanced [] r.task_state leak _ _ _ b.held b.balanced
send_lost leak w r (t ∷ ts) b e = elim (Bool-cases r.is_tcp) [
  | inl tcp ↦ rw tcp (fail_all-Balanced (t ∷ ts) r.task_state leak _ _ _ b.held b.balanced)
  | inr ipc ↦ absurd (ground arith)
]

-- A round whose message is sent keeps the counters in step with the task manager, and fails for no
-- reason but an interrupt by the user.
pub dispatch_sent-IsBalanced :
    (leak : ℕ) (poll : ℕ → Bool) (effective total : ℕ) (w : WorkerId) (r : Run)
    → IsBalanced leak r
    → r.first_error ≡ none
    → IsBalanced leak (dispatch true poll effective total w r)
      × IsExpected (dispatch true poll effective total w r).first_error
unfolding dispatch
dispatch_sent-IsBalanced leak poll effective total w r b e =
    let full = fill_batch poll effective total w r in
    let f = fill_batch-IsFilled leak poll effective total w r b e in
    elim (Bool-cases (is_some (full.0).first_error)) [
      | inl failed ↦ rw failed (f.balanced, f.expected)
      | inr fine ↦
          (let (b', same) = send_sent leak w full.0 full.1 f in rw (fine, same) (b', f.expected))
    ]

-- A round whose message is not sent and that does not end the run leaves `outstanding` too large, by
-- the size of the batch, for the tasks that then run.
pub dispatch_lost-IsBalanced :
    (leak : ℕ) (poll : ℕ → Bool) (effective total : ℕ) (w : WorkerId) (r : Run)
    → IsBalanced leak r
    → r.first_error ≡ none
    → (dispatch false poll effective total w r).first_error ≡ none
    → IsBalanced
        (leak + length (fill_batch poll effective total w r).1)
        (dispatch false poll effective total w r)
unfolding dispatch
dispatch_lost-IsBalanced leak poll effective total w r b e h =
    let full = fill_batch poll effective total w r in
    let f = fill_batch-IsFilled leak poll effective total w r b e in
    elim (Bool-cases (is_some (full.0).first_error)) [
      | inl failed ↦ absurd (ground arith)
      | inr fine ↦ rw fine (send_lost leak w full.0 full.1 f (rw fine at h))
    ]

-- With the counters in step but for a leak, the main loop does not end while there is no error.
pub goes_on_leaking :
    (leak : ℕ) (r : Run) → IsBalanced leak r → 0 < leak → r.first_error ≡ none → goes_on r ≡ true
unfolding goes_on
goes_on_leaking leak r b h e = ground (arith, b.live)

none_running : (s : State) (i : TaskId) → running_count s ≡ 0 → find_running s i ≡ none
none_running s i h = go s.running h
  where
    go : (m : Dict.Dict TaskId (List ℤ)) → length m ≡ 0 → Dict.find ℕ_discrete i m ≡ none
    go [] h = unfold Dict.find in refl
    go (x ∷ m) h = absurd (omega arith)

none_pending : (s : State) → has_pending s ≡ false → s.pending ≡ []
unfolding has_pending
none_pending s h = ground arith

-- When the test of the main loop fails with no error and the counters are in step with no leak, no task
-- is left: the sweep is at its end, nothing is pending or runs, each task that was made is done, and
-- `acked` is their number.
pub ended-all-done :
    (r : Run)
    → IsBalanced 0 r
    → r.first_error ≡ none
    → goes_on r ≡ false
    → (r.has_more ≡ false)
      × (pending_count r.task_state ≡ 0)
      × (running_count r.task_state ≡ 0)
      × (r.acked ≡ r.next_task_id)
      × ((i : TaskId) → i < r.next_task_id → is_done r.task_state i ≡ true)
unfolding goes_on
ended-all-done r b e h =
    let s = r.task_state in
    let empty : has_pending s ≡ false = ground arith in
    let q = none_pending s empty in
    let idle : running_count s ≡ 0 = ground (arith, b.live) in
    (
      ground arith,
      ap length q,
      idle,
      omega (arith, b.credited, b.numbered, ap length q, idle),
      λ i lt. ground (
        arith,
        b.fresh i,
        b.valid.known i,
        none_running s i idle,
        b.valid.partition.queued i,
        ap (occurrences i) q,
      ),
    )
