-- ===== src/Supervisor/Dispatch.antt =====
-- core/NDimensionalExecutor.cxx: the loops that fill a batch.
use ndmspc.Base.Dict
use ndmspc.Base.{
  ℕ, zero, suc, ◌+◌, ◌<◌, ◌≡◌, refl, ap, ◌∙◌, ltb, Bool, true, ◌&&◌, List, [], ◌∷◌, ◌++◌, Option,
  none, some, arith, ℕ_discrete, is_some, Bool-cases, Option-cases, inl, inr, ◌⊎◌, subst, length,
}
use ndmspc.Tasks.Defs.{
  State, Task, TaskId, WorkerId, claim_next, claim_first, add_pending, has_pending, task_exists,
  running_count, done_count, pending_count, find_payload, TaskPayload,
}
use ndmspc.Tasks.Counts.{claim_next_counts, IsClaim, enqueue_counts}
use ndmspc.Tasks.History.{IsValid, step, claims, step-IsValid, adds-IsValid}
use ndmspc.Tasks.Invariant.{add_pending_inv, new_not_pending}
use ndmspc.Tasks.Payloads.Methods.{payloads-claim_next, payloads-add_pending}
use ndmspc.Supervisor.Batch.{IsHeld, claim-IsHeld, add-IsHeld}
use ndmspc.Supervisor.Balance.{Balanced, IsBalanced, rebalance}
use ndmspc.Supervisor.Defs.{
  Run, Error, interrupted, after_claim, claim_pending, after_new, add_new, fill_batch,
}

claim_next-IsValid : (w : WorkerId) (s : State) → IsValid s → IsValid (claim_next w s).0
unfolding step
claim_next-IsValid w s v = step-IsValid s v (claims w)

-- A task with no stored payload can be added.
add_pending_new :
    (n : ℕ) (p : TaskPayload) (s : State)
    → IsValid s
    → find_payload s n ≡ none
    → is_some (add_pending n p s) ≡ true
unfolding add_pending task_exists
add_pending_new n p s v e = ground (arith, v.known n)

claim_first-ne-none :
    (w : WorkerId) (s : State) (id : TaskId) (p : TaskPayload) (q : List Task) (t : State)
    → claim_first w s ((id, p) ∷ q) ≡ (t, none)
    → ⊥
unfolding claim_first
claim_first-ne-none w s id p q t e = ground (arith, ap (λ r. is_some r.1) e)

claim-some : (w : WorkerId) (s t : State) → claim_next w s ≡ (t, none) → 0 < pending_count s → ⊥
unfolding claim_next
claim-some w s t e h = go s.pending e h
  where
    go : (q : List Task) → claim_first w s q ≡ (t, none) → 0 < length q → ⊥
    go [] e h = omega arith
    go ((id, p) ∷ q) e h = claim_first-ne-none w s id p q t e

-- A successful claim moves one task from the queue to the running ones.
claim-Balanced :
    (w : WorkerId) (s t : State) (task : Task) (leak o a n : ℕ)
    → claim_next w s ≡ (t, some task)
    → Balanced s leak o a n
    → Balanced t leak (o + 1) a n
claim-Balanced w s t task leak o a n e b =
    let t-is : (claim_next w s).0 ≡ t = ap (λ r. r.0) e in
    let (p, q, d) = subst (IsClaim s) e (claim_next_counts s b.valid.partition w) in
    rebalance s t leak leak o (o + 1) a a n b (subst IsValid t-is (claim_next-IsValid w s b.valid))
      (subst (λ x. x.task_payloads ≡ s.task_payloads) t-is (payloads-claim_next w s)) (omega arith)
      (omega (arith, b.live)) (omega (arith, b.credited))

unclaimed-Balanced :
    (w : WorkerId) (s t : State) (leak o a n : ℕ)
    → claim_next w s ≡ (t, none)
    → Balanced s leak o a n
    → Balanced t leak o a n
unclaimed-Balanced w s t leak o a n e b =
    rw (subst (IsClaim s) e (claim_next_counts s b.valid.partition w)) b

-- The errors that a dispatch can end with before the send.
abbrev pub IsExpected : Option Error → Type 0
IsExpected e = (e ≡ none) ⊎ (e ≡ some interrupted)

-- What the loops keep, of the run and the batch.
pub record IsFilled (leak : ℕ) (q : Run × List Task) : Type 0 where
  pub balanced : IsBalanced leak q.0
  pub expected : IsExpected q.0.first_error
  pub held : IsHeld q.0.task_state q.1

after_claim-IsFilled :
    (leak : ℕ) (w : WorkerId) (poll : ℕ → Bool) (again : Run → List Task → Run × List Task)
    (r : Run) (batch : List Task) (c : State × Option Task)
    → ((q : Run) (more : List Task) → IsFilled leak (q, more) → IsFilled leak (again q more))
    → claim_next w r.task_state ≡ c
    → IsFilled leak (r, batch)
    → IsFilled leak (after_claim w poll again r batch c)
unfolding after_claim
after_claim-IsFilled leak w poll again r batch (s, none) k e b = record {
  balanced = unclaimed-Balanced w r.task_state s leak _ _ _ e b.balanced;
  expected = b.expected;
  held =
      rw
        (subst (IsClaim r.task_state) e
          (claim_next_counts r.task_state b.balanced.valid.partition w))
        b.held;
}
after_claim-IsFilled leak w poll again r batch (s, some t) k e b =
    let b' = claim-Balanced w r.task_state s t leak _ _ _ e b.balanced in
    let h = claim-IsHeld w r.task_state s t batch b.balanced.valid.partition e b.held in
    elim (Bool-cases (poll (length (batch ++ t ∷ [])))) [
      | inl stop ↦ rw stop (record { balanced = b'; expected = inr refl; held = h })
      | inr on ↦ rw on (k _ _ (record { balanced = b'; expected = b.expected; held = h }))
    ]

claim_pending-IsFilled :
    (leak k : ℕ) (w : WorkerId) (limit size : ℕ) (poll : ℕ → Bool) (r : Run) (batch : List Task)
    → IsFilled leak (r, batch)
    → IsFilled leak (claim_pending k w limit size poll r batch)
unfolding claim_pending
claim_pending-IsFilled leak zero w limit size poll r batch b = b
claim_pending-IsFilled leak (suc k) w limit size poll r batch b =
    elim (Bool-cases
      (has_pending r.task_state && ltb r.outstanding limit && ltb (length batch) size)) [
        | inr stop ↦ rw stop b
        | inl on ↦ rw on (
            after_claim-IsFilled leak w poll (claim_pending k w limit size poll) r batch _
              (λ q more. claim_pending-IsFilled leak k w limit size poll q more) refl b)
      ]

-- `AddPending` of the next id never throws, and the claim after it always gets a task.
add-Balanced :
    (n : ℕ) (p : TaskPayload) (s : State) (leak o a : ℕ)
    → Balanced s leak o a n
    → (t : State) × (add_pending n p s ≡ some t)
      × Balanced t leak o a (n + 1)
      × (pending_count t ≡ pending_count s + 1)
add-Balanced n p s leak o a b = elim (Option-cases (add_pending n p s)) [
  | inl refused ↦ absurd (ground (arith, add_pending_new n p s b.valid, b.fresh n))
  | inr (t, e) ↦
      (let (fresh, t-is) = add_pending_inv n p s e in
        let (c, d, f) = enqueue_counts n p s (new_not_pending n s fresh) in
        let c' = ap pending_count t-is ∙ c in
        let d' = ap running_count t-is ∙ d in
        let f' = ap done_count t-is ∙ f in
        (
          t,
          e,
          record {
            valid = adds-IsValid s b.valid n p e;
            live = omega (arith, b.live, d');
            credited = omega (arith, b.credited, f');
            numbered = omega (arith, b.numbered, c', d', f');
            fresh = λ i.
                ap (λ m. is_some (Dict.find ℕ_discrete i m)) (payloads-add_pending n p s e)
                ∙ ground (arith, Dict.find-put ℕ_discrete i n p s.task_payloads, b.fresh i);
          },
          c',
        ))
]

after_new-IsFilled :
    (leak : ℕ) (w : WorkerId) (poll : ℕ → Bool) (again : Run → List Task → Run × List Task)
    (r : Run) (batch : List Task) (s : State) (c : State × Option Task)
    → ((q : Run) (more : List Task) → IsFilled leak (q, more) → IsFilled leak (again q more))
    → claim_next w s ≡ c
    → Balanced s leak r.outstanding r.acked (r.next_task_id + 1)
    → 0 < pending_count s
    → IsExpected r.first_error
    → IsHeld s batch
    → IsFilled leak (after_new w poll again r batch c)
unfolding after_new
after_new-IsFilled leak w poll again r batch s (t, none) k e b some_left x h =
    absurd (claim-some w s t e some_left)
after_new-IsFilled leak w poll again r batch s (t, some task) k e b some_left x h =
    let b' = claim-Balanced w s t task leak _ _ _ e b in
    let h' = claim-IsHeld w s t task batch b.valid.partition e h in
    elim (Bool-cases (poll (length (batch ++ task ∷ [])))) [
      | inl stop ↦ rw stop (record { balanced = b'; expected = inr refl; held = h' })
      | inr on ↦ rw on (k _ _ (record { balanced = b'; expected = x; held = h' }))
    ]

add_new-IsFilled :
    (leak k : ℕ) (w : WorkerId) (limit size : ℕ) (poll : ℕ → Bool) (r : Run) (batch : List Task)
    → IsFilled leak (r, batch)
    → IsFilled leak (add_new k w limit size poll r batch)
unfolding add_new
add_new-IsFilled leak zero w limit size poll r batch b = b
add_new-IsFilled leak (suc k) w limit size poll r batch b =
    elim (Bool-cases (r.has_more && ltb r.outstanding limit && ltb (length batch) size)) [
      | inr stop ↦ rw stop b
      | inl on ↦
          (let p = r.executor.current_coords in
            let (s, e, b', more) =
              add-Balanced r.next_task_id p r.task_state leak r.outstanding r.acked b.balanced in
            rw (on, e, add_new)
              (after_new-IsFilled leak w poll (add_new k w limit size poll) r batch s _
                (λ q more. add_new-IsFilled leak k w limit size poll q more) refl b'
                (omega (arith, more)) b.expected
                (add-IsHeld r.next_task_id p r.task_state s batch e b.held)))
    ]

-- Filling a batch keeps the counters in step; the batch then runs, and nothing fails but by an
-- interrupt.
pub fill_batch-IsFilled :
    (leak : ℕ) (poll : ℕ → Bool) (effective total : ℕ) (w : WorkerId) (r : Run)
    → IsBalanced leak r
    → r.first_error ≡ none
    → IsFilled leak (fill_batch poll effective total w r)
unfolding fill_batch
fill_batch-IsFilled leak poll effective total w r b e = add_new-IsFilled leak _ w _ _ poll _ _ (
    claim_pending-IsFilled leak _ w _ _ poll r []
      (record { balanced = b; expected = inl e; held = λ i. omega arith }))
