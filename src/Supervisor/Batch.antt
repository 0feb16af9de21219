-- ===== src/Supervisor/Batch.antt =====
-- core/NDimensionalExecutor.cxx: the tasks of a batch while it is being filled, and a send that fails.
use ndmspc.Base.Dict
use ndmspc.Base.{
  ℕ, ◌+◌, ◌≤◌, ◌≡◌, refl, ap, ◌==◌, true, false, List, [], ◌∷◌, ◌++◌, none, some, arith, ℕ_discrete,
  is_some, Option-cases, inl, inr, if◌then◌else◌, length, subst,
}
use ndmspc.Tasks.Defs.{
  State, Task, TaskId, TaskPayload, WorkerId, claim_next, claim_first, add_pending, enqueue_pending,
  start_running, mark_failed, stop_running, release_from_worker, find_running, running_count,
  done_count, pending_count,
}
use ndmspc.Tasks.Counts.{stop_running_counts}
use ndmspc.Tasks.History.{IsValid, step, fails, step-IsValid}
use ndmspc.Tasks.Invariant.{add_pending_inv}
use ndmspc.Tasks.Partition.{IsPartition, occurrences, occurrences-append}
use ndmspc.Tasks.Payloads.Methods.{payloads-mark_failed}
use ndmspc.Supervisor.Balance.{Balanced, rebalance}
use ndmspc.Supervisor.Defs.{fail_all}

-- Every task of the batch runs, and none is in it twice.
abbrev pub IsHeld : State → List Task → Type 0
IsHeld s batch = (i : TaskId) → occurrences i batch ≤ (if is_some (find_running s i) then 1 else 0)

claim_first_running :
    (w : WorkerId) (s t : State) (q : List Task) (task : Task)
    → IsPartition s
    → s.pending ≡ q
    → claim_first w s q ≡ (t, some task)
    → (find_running s task.0 ≡ none)
      × ((i : TaskId)
          → is_some (find_running t i) ≡ (if i == task.0 then true else is_some (find_running s i)))
unfolding claim_first start_running
claim_first_running w s t [] task v e h = absurd (ground (arith, ap (λ r. is_some r.1) h))
claim_first_running w s t ((id, p) ∷ q) task v e h =
    let same_id : task.0 ≡ id = ground (arith, ap (λ r. r.1) h) in
    let same_state = ap (λ r. r.0) h in
    (
      rw same_id (v.not_running id (ground (arith, v.queued id, ap (occurrences id) e))),
      λ i. rw (← same_state, same_id) (ground (arith, Dict.find-put ℕ_discrete i id p s.running)),
    )

pub claim-IsHeld :
    (w : WorkerId) (s t : State) (task : Task) (batch : List Task)
    → IsPartition s
    → claim_next w s ≡ (t, some task)
    → IsHeld s batch
    → IsHeld t (batch ++ task ∷ [])
unfolding claim_next
claim-IsHeld w s t (id, p) batch v e h i =
    let (new, runs) = claim_first_running w s t s.pending (id, p) v refl e in
    ground (arith, occurrences-append i batch ((id, p) ∷ []), runs i, h i, h id)

pub add-IsHeld :
    (id : TaskId) (p : TaskPayload) (s t : State) (batch : List Task)
    → add_pending id p s ≡ some t
    → IsHeld s batch
    → IsHeld t batch
unfolding enqueue_pending
add-IsHeld id p s t batch e h i =
    let (fresh, t-is) = add_pending_inv id p s e in rw t-is (ground (arith, h i))

mark_failed_running :
    (id : TaskId) (s : State)
    → IsPartition s
    → (i : TaskId)
    → is_some (find_running (mark_failed id s).0 i)
      ≡ (if i == id then false else is_some (find_running s i))
unfolding mark_failed stop_running release_from_worker enqueue_pending
mark_failed_running id s v i =
    ground (arith, Dict.find-erase ℕ_discrete i id s.running v.running_distinct)

mark_failed_counts :
    (id : TaskId) (s : State)
    → IsPartition s
    → is_some (find_running s id) ≡ true
    → (pending_count (mark_failed id s).0 ≡ pending_count s + 1)
      × (running_count (mark_failed id s).0 + 1 ≡ running_count s)
      × (done_count (mark_failed id s).0 ≡ done_count s)
unfolding mark_failed
mark_failed_counts id s v h = elim (Option-cases (find_running s id)) [
  | inl e ↦ absurd (ground arith)
  | inr (p, e) ↦ rw (e, mark_failed) (stop_running_counts s v id e)
]

mark_failed-IsValid : (id : TaskId) (s : State) → IsValid s → IsValid (mark_failed id s).0
unfolding step
mark_failed-IsValid id s v = step-IsValid s v (fails id)

-- Taking a batch back leaves `outstanding` as it was: it then counts the batch once more.
pub fail_all-Balanced :
    (batch : List Task) (s : State) (leak o a n : ℕ)
    → IsHeld s batch
    → Balanced s leak o a n
    → Balanced (fail_all batch s) (leak + length batch) o a n
unfolding fail_all
fail_all-Balanced [] s leak o a n h b = subst (λ k. Balanced s k o a n) (omega arith) b
fail_all-Balanced ((id, p) ∷ batch) s leak o a n h b =
    let s' = (mark_failed id s).0 in
    let (c, d, e) = mark_failed_counts id s b.valid.partition (ground (arith, h id)) in
    let rest =
      fail_all-Balanced batch s' (leak + 1) o a n
        (λ i. ground (arith, h i, mark_failed_running id s b.valid.partition i))
        (rebalance s s' leak (leak + 1) o o a a n b (mark_failed-IsValid id s b.valid)
          (payloads-mark_failed id s) (omega (arith, c, d, e)) (omega (arith, b.live, d))
          (omega (arith, b.credited, e))) in
    subst (λ k. Balanced (fail_all batch s') k o a n) (omega arith) rest
