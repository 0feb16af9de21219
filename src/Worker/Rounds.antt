-- ===== src/Worker/Rounds.antt =====
-- core/NDimensionalIpcRunner.cxx: the rule of invariants for the rounds of `TaskLoop`.
use ndmspc.Base.{ℕ, zero, suc, ◌≡◌, refl, ap, Bytes, if_cases, some, ◌⊎◌, inl, inr, ◌∷◌}
use ndmspc.Supervisor.Loop.Defs.{is_bytes, stop}
use ndmspc.Worker.Defs.{Frames, TaskLoop, World}
use ndmspc.Worker.Messages.{
  After, goes_on, breaks, escapes, fail_loop, on_frames, on_setdef, on_setids, on_stop, on_task,
  on_taskb, setdef, setids, task, taskb, round, rounds, end_loop, exit_of,
}

After-cases : (a : After) → (a ≡ goes_on) ⊎ (a ≡ breaks) ⊎ (a ≡ escapes)
After-cases goes_on = inl refl
After-cases breaks = inr (inl refl)
After-cases escapes = inr (inr refl)

-- `I` holds at the start of each round, and `P` behind it.
pub rounds_inv {κ} :
    (w : World) (I : TaskLoop → Type κ) (P : TaskLoop × After → Type κ)
    → ((s : TaskLoop) → I s → P (s, goes_on))
    → ((s : TaskLoop) → I s → P (round w s))
    → ((r : TaskLoop × After) → P r → r.1 ≡ goes_on → I r.0)
    → (n : ℕ) (s : TaskLoop) → I s
    → P (rounds w n s)
unfolding rounds
rounds_inv w I P start step next zero s h = start s h
rounds_inv w I P start step next (suc n) s h =
    let k = step s h in
    elim (After-cases (round w s).1) [
      | inl on ↦
          rw (on, rounds) (rounds_inv w I P start step next n (round w s).0 (next (round w s) k on))
      | inr (inl b) ↦ rw (b, rounds) k
      | inr (inr e) ↦ rw (e, rounds) k
    ]

-- A round that breaks is the last one.
pub rounds_broken :
    (w : World) (n : ℕ) (s : TaskLoop) → (round w s).1 ≡ breaks → rounds w (suc n) s ≡ round w s
unfolding rounds
rounds_broken w n s h = rw (h, rounds) (ap (λ (a : After). ((round w s).0, a)) h)

pub exit_of-breaks :
    (w : World) (r : TaskLoop × After)
    → r.1 ≡ breaks
    → exit_of w r ≡ ((end_loop w r.0).0, some (end_loop w r.0).1)
unfolding exit_of
exit_of-breaks w (s, breaks) h = refl
exit_of-breaks w (s, goes_on) h = absurd (cc)
exit_of-breaks w (s, escapes) h = absurd (cc)

-- A message with a command is handled by one of the handlers.
pub on_frames_cases {κ} :
    (w : World) (P : TaskLoop × After → Type κ) (cmd : Bytes) (rest : Frames) (s : TaskLoop)
    → P (on_stop w rest s)
    → P (on_setdef w rest s)
    → P (on_setids w rest s)
    → P (on_task w rest s)
    → P (on_taskb w rest s)
    → P (fail_loop s)
    → P (on_frames w (cmd ∷ rest) s)
unfolding on_frames
on_frames_cases w P cmd rest s stops defines syncs runs batches fails =
    if_cases P (is_bytes cmd stop) (λ y. stops)
      (λ n.
        if_cases P (is_bytes cmd setdef) (λ y. defines)
          (λ n'.
            if_cases P (is_bytes cmd setids) (λ y. syncs)
              (λ n''.
                if_cases P (is_bytes cmd task) (λ y. runs)
                  (λ n'''. if_cases P (is_bytes cmd taskb) (λ y. batches) (λ m. fails)))))
