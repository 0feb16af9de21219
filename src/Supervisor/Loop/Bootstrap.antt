-- ===== src/Supervisor/Loop/Bootstrap.antt =====
-- core/NDimensionalExecutor.cxx: the slots that `HandleBootstrap` gives to workers.
use ndmspc.Base.Dict
use ndmspc.Base.{
  ℕ, ◌<◌, ◌≤◌, ◌≡◌, ltb, none, some, bytes_dec, arith, if_cases, Option-cases, inl, inr, ite, sym,
  ◌∙◌, Option, ◌⊎◌,
}
use ndmspc.Tasks.Defs.{WorkerId}
use ndmspc.Supervisor.Loop.Defs.{Loop}
use ndmspc.Supervisor.Loop.Messages.{handle_bootstrap, assign_slot}

abbrev pub slot : WorkerId → Loop → Option ℕ
slot id l = Dict.find bytes_dec id l.bootstrap_assignments

-- The slots given so far are below the next one, and no two workers have the same.
pub record IsAssigned (l : Loop) : Type 0 where
  pub capacity : l.bootstrap_next_idx ≤ l.max_workers
  pub below : (id : WorkerId) (n : ℕ) → slot id l ≡ some n → n < l.bootstrap_next_idx
  pub single : (a b : WorkerId) (n : ℕ) → slot a l ≡ some n → slot b l ≡ some n → a ≡ b

slot-assign_slot :
    (a id : WorkerId) (l : Loop)
    → slot a (assign_slot id l) ≡ ite (bytes_dec a id) (some l.bootstrap_next_idx) (slot a l)
unfolding assign_slot
slot-assign_slot a id l = Dict.find-put bytes_dec a id l.bootstrap_next_idx l.bootstrap_assignments

slot-assign_slot_cases :
    (a id : WorkerId) (n : ℕ) (l : Loop)
    → slot a (assign_slot id l) ≡ some n
    → (a ≡ id) × (n ≡ l.bootstrap_next_idx) ⊎ (slot a l ≡ some n)
slot-assign_slot_cases a id n l h = elim (bytes_dec a id) [
  | yes same ↦ inl (same, ground (arith, slot-assign_slot a id l))
  | no other ↦ inr (ground (arith, slot-assign_slot a id l))
]

assign_slot-IsAssigned :
    (id : WorkerId) (l : Loop)
    → IsAssigned l
    → l.bootstrap_next_idx < l.max_workers
    → IsAssigned (assign_slot id l)
unfolding assign_slot
assign_slot-IsAssigned id l v room = record {
  capacity = omega arith;
  below = λ a n h. elim (slot-assign_slot_cases a id n l h) [
    | inl (same, last) ↦ omega arith
    | inr old ↦ omega (arith, v.below a n old)
  ];
  single = λ a b n h k. elim (slot-assign_slot_cases a id n l h) [
    | inl (a-is, last) ↦ elim (slot-assign_slot_cases b id n l k) [
      | inl (b-is, same) ↦ a-is ∙ sym b-is
      | inr old ↦ absurd (omega (arith, v.below b n old))
    ]
    | inr first ↦ elim (slot-assign_slot_cases b id n l k) [
      | inl (b-is, last) ↦ absurd (omega (arith, v.below a n first))
      | inr second ↦ v.single a b n first second
    ]
  ];
}

-- What an answer to `BOOTSTRAP` has to be, given the slot that the worker had: the slots stay distinct and within the capacity, a slot that
-- is told is the one that is stored, and a worker that has one is told it again.
abbrev pub IsAnswer : WorkerId → Loop → Option ℕ → Loop × Option ℕ → Type 0
IsAnswer id l old (after, answer) =
    IsAssigned after
    × ((n : ℕ) → answer ≡ some n → (n < l.max_workers) × (slot id after ≡ some n))
    × ((n : ℕ) → old ≡ some n → answer ≡ some n)

-- `HandleBootstrap` keeps the slots of the workers distinct and below the number of workers, tells a
-- worker the slot that it stores for it, and tells a worker that asks again the same slot.
pub handle_bootstrap-IsAnswer :
    (id : WorkerId) (l : Loop) → IsAssigned l → IsAnswer id l (slot id l) (handle_bootstrap id l)
unfolding handle_bootstrap assign_slot
handle_bootstrap-IsAnswer id l v = elim (Option-cases (slot id l)) [
  | inr (idx, known) ↦
      rw (known, handle_bootstrap)
        (v, λ n h. (ground (arith, v.capacity, v.below id idx known), known ∙ h), λ n h. h)
  | inl new ↦
      rw (new, handle_bootstrap)
        (if_cases (IsAnswer id l none) (ltb l.bootstrap_next_idx l.max_workers)
          (λ room. (
            assign_slot-IsAssigned id l v (ground arith),
            λ n h. (ground arith, slot-assign_slot id id l ∙ ground arith),
            λ n h. absurd (ground arith),
          ))
          (λ full. (v, (λ n h. absurd (ground arith)), λ n h. absurd (ground arith))))
]
