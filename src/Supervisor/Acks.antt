-- ===== src/Supervisor/Acks.antt =====
-- core/NDimensionalExecutor.cxx: the handlers of `ACK` and `ACKB`.
use ndmspc.Base.Dict
use ndmspc.Base.{
  ℕ, ◌+◌, ◌-◌, ◌≡◌, refl, ◌∙◌, ◌==◌, true, false, List, [], ◌∷◌, Option, none, some, arith,
  bytes_dec, is_some, Bool-cases, Option-cases, inl, inr, ◌≢◌, subst, sym,
}
use ndmspc.Tasks.Defs.{
  State, TaskId, WorkerId, mark_done, get_task_worker, running_count, done_count, pending_count,
  find_running,
}
use ndmspc.Tasks.Counts.{mark_done_counts}
use ndmspc.Tasks.History.{IsValid, step, finishes, step-IsValid}
use ndmspc.Tasks.Payloads.Methods.{payloads-mark_done}
use ndmspc.Supervisor.Balance.{Balanced, IsBalanced, rebalance}
use ndmspc.Supervisor.Defs.{
  Run, count_task, ack_underflow, accept, on_ack, ack_task, count_ack, ack_tokens, ack_batch,
  on_ackb,
}

mark_done-IsValid : (id : TaskId) (s : State) → IsValid s → IsValid (mark_done id s).0
unfolding step
mark_done-IsValid id s v = step-IsValid s v (finishes id)

mark_done_running :
    (id : TaskId) (s : State) → (mark_done id s).1 ≡ true → is_some (find_running s id) ≡ true
unfolding mark_done
mark_done_running id s h = elim (Option-cases (find_running s id)) [
  | inl e ↦ absurd (ground arith)
  | inr (p, e) ↦ rw e refl
]

-- An accepted acknowledgement leaves the counters one task behind.
record IsAccepted (r q : Run) : Type 0 where
  same_counters :
      (q.outstanding ≡ r.outstanding) × (q.acked ≡ r.acked) × (q.next_task_id ≡ r.next_task_id)
  same_error : q.first_error ≡ r.first_error
  valid : IsValid q.task_state
  same : q.task_state.task_payloads ≡ r.task_state.task_payloads
  queued : pending_count q.task_state ≡ pending_count r.task_state
  stopped : running_count q.task_state + 1 ≡ running_count r.task_state
  ended : done_count q.task_state ≡ done_count r.task_state + 1

-- Only an acknowledgement of the owner of a running task is accepted.
pub accept_inv :
    (w : WorkerId) (id : TaskId) (r q : Run)
    → accept w id r ≡ some q
    → (get_task_worker r.task_state id ≡ w)
      × ((mark_done id r.task_state).1 ≡ true)
      × (q ≡ record r {
        task_state = (mark_done id r.task_state).0;
        last_worker_task_counts =
            count_task (Dict.find bytes_dec w r.identity_to_worker) r.last_worker_task_counts;
      })
unfolding accept
accept_inv w id r q h = elim (bytes_dec (get_task_worker r.task_state id) w) [
  | no other ↦ absurd (ground arith)
  | yes own ↦ elim (Bool-cases (mark_done id r.task_state).1) [
    | inr idle ↦ absurd (ground arith)
    | inl live ↦ (own, live, ground arith)
  ]
]

accept-IsAccepted :
    (w : WorkerId) (id : TaskId) (r q : Run)
    → accept w id r ≡ some q
    → IsValid r.task_state
    → IsAccepted r q
accept-IsAccepted w id r q h v =
    let (own, live, e) = accept_inv w id r q h in
    elim (Option-cases (find_running r.task_state id)) [
      | inl idle ↦ absurd (ground (arith, mark_done_running id r.task_state live))
      | inr (p, found) ↦
          (let (a, b, c) = mark_done_counts r.task_state v.partition id found in
            rw e (record {
              same_counters = (refl, refl, refl);
              same_error = refl;
              valid = mark_done-IsValid id r.task_state v;
              same = payloads-mark_done id r.task_state;
              queued = a;
              stopped = b;
              ended = c;
            }))
    ]

-- The counters after an accepted task is taken off `outstanding` and put on `acked`.
settle :
    (leak : ℕ) (r q : Run)
    → IsAccepted r q
    → IsBalanced leak r
    → Balanced q.task_state leak (q.outstanding - 1) (q.acked + 1) q.next_task_id
settle leak r q a b =
    let (o, k, n) = a.same_counters in
    subst (Balanced q.task_state leak (q.outstanding - 1) (q.acked + 1)) (sym n) (
      rebalance r.task_state q.task_state leak leak r.outstanding (q.outstanding - 1) r.acked
        (q.acked + 1) r.next_task_id b a.valid a.same (omega (arith, a.queued, a.stopped, a.ended))
        (omega (arith, o, a.stopped, b.live)) (omega (arith, k, a.ended, b.credited)))

not_underflow :
    (leak : ℕ) (r q : Run) → IsAccepted r q → IsBalanced leak r → (q.outstanding == 0) ≡ false
not_underflow leak r q a b = ground (arith, a.same_counters.0, a.stopped, b.live)

-- The counters agree unless the run has failed, and it has not failed for an `outstanding` that is too
-- small.
abbrev pub IsSound : ℕ → Run → Type 0
IsSound leak r = (r.first_error ≡ none → IsBalanced leak r) × (r.first_error ≢ some ack_underflow)

sound : (leak : ℕ) (r : Run) → IsBalanced leak r → r.first_error ≡ none → IsSound leak r
sound leak r b e = ((λ h. b), λ u. ground arith)

ack_tokens-IsSound :
    (leak : ℕ) (w : WorkerId) (ids : List (Option TaskId)) (r : Run)
    → IsBalanced leak r
    → r.first_error ≡ none
    → IsSound leak (ack_tokens w ids r)
unfolding ack_tokens
ack_tokens-IsSound leak w [] r b n = sound leak r b n
ack_tokens-IsSound leak w (none ∷ ids) r b n = ((λ e. ground arith), λ e. ground arith)
ack_tokens-IsSound leak w (some id ∷ ids) r b n = elim (Option-cases (accept w id r)) [
  | inl e ↦ rw (e, ack_tokens) (ack_tokens-IsSound leak w ids r b n)
  | inr (q, e) ↦
      (let a = accept-IsAccepted w id r q e b.valid in
        rw (e, ack_tokens, not_underflow leak r q a b)
          (ack_tokens-IsSound leak w ids
            (record q { outstanding = q.outstanding - 1; acked = q.acked + 1 })
            (settle leak r q a b) (a.same_error ∙ n)))
]

count_ack-IsSound :
    (leak : ℕ) (w : WorkerId) (r q : Run)
    → IsAccepted r q
    → IsBalanced leak r
    → r.first_error ≡ none
    → IsSound leak (count_ack w q)
unfolding count_ack
count_ack-IsSound leak w r q a b n =
    rw (not_underflow leak r q a b) (elim (Bool-cases (q.outstanding_messages == 0)) [
      | inl empty ↦ rw empty ((λ e. ground arith), λ e. ground arith)
      | inr some_sent ↦ rw some_sent ((λ e. settle leak r q a b), λ u. ground (arith, a.same_error))
    ])

ack_task-IsSound :
    (leak : ℕ) (w : WorkerId) (parsed : Option TaskId) (r : Run)
    → IsBalanced leak r
    → r.first_error ≡ none
    → IsSound leak (ack_task w parsed r)
unfolding ack_task
ack_task-IsSound leak w none r b n = ((λ e. ground arith), λ e. ground arith)
ack_task-IsSound leak w (some id) r b n = elim (Option-cases (accept w id r)) [
  | inl e ↦ rw (e, ack_task) (sound leak r b n)
  | inr (q, e) ↦
      rw (e, ack_task) (count_ack-IsSound leak w r q (accept-IsAccepted w id r q e b.valid) b n)
]

-- Whatever a worker acknowledges by `ACK`, stale, repeated or malformed, the counters stay in step with
-- the task manager unless the run fails, and it never fails for an underflow of `outstanding`.
pub on_ack-IsSound :
    (leak : ℕ) (w : WorkerId) (parsed : Option TaskId) (r : Run)
    → IsBalanced leak r
    → r.first_error ≡ none
    → IsSound leak (on_ack w parsed r)
unfolding on_ack
on_ack-IsSound leak w parsed r b n =
    elim (Bool-cases (is_some (Dict.find bytes_dec w r.identity_to_worker))) [
      | inr gone ↦ rw gone (sound leak r b n)
      | inl here ↦ rw here (ack_task-IsSound leak w parsed r b n)
    ]

ack_batch-IsSound :
    (leak : ℕ) (w : WorkerId) (payload : Option (List (Option TaskId))) (r : Run)
    → IsBalanced leak r
    → r.first_error ≡ none
    → IsSound leak (ack_batch w payload r)
unfolding ack_batch
ack_batch-IsSound leak w none r b n = ((λ e. ground arith), λ e. ground arith)
ack_batch-IsSound leak w (some ids) r b n = elim (Bool-cases (r.outstanding_messages == 0)) [
  | inl empty ↦ rw empty ((λ e. ground arith), λ e. ground arith)
  | inr some_sent ↦ rw some_sent (ack_tokens-IsSound leak w ids _ b n)
]

-- Whatever a worker acknowledges by `ACKB`, stale, repeated or malformed, the counters stay in step
-- with the task manager unless the run fails, and it never fails for an underflow of `outstanding`.
pub on_ackb-IsSound :
    (leak : ℕ) (w : WorkerId) (payload : Option (List (Option TaskId))) (r : Run)
    → IsBalanced leak r
    → r.first_error ≡ none
    → IsSound leak (on_ackb w payload r)
unfolding on_ackb
on_ackb-IsSound leak w payload r b n =
    elim (Bool-cases (is_some (Dict.find bytes_dec w r.identity_to_worker))) [
      | inr gone ↦ rw gone (sound leak r b n)
      | inl here ↦ rw here (ack_batch-IsSound leak w payload r b n)
    ]
