-- ===== src/Supervisor/Finish/Confirmed.antt =====
-- core/NDimensionalExecutor.cxx: where the indices that `FinishProcessIpc` leaves come from.
use ndmspc.Base.IdSet
use ndmspc.Base.Dict
use ndmspc.Base.Dict.{Dict}
use ndmspc.Base.{
  ℕ, ◌≡◌, refl, ap, ◌∙◌, Bool, true, false, not, ◌&&◌, ◌||◌, List, [], ◌∷◌, some, bytes_dec, arith,
  Option-cases, Bool-cases, inl, inr, sym, ℕ_discrete,
}
use ndmspc.Tasks.Defs.{WorkerId}
use ndmspc.Supervisor.Loop.Defs.{is_bytes, member, add_member, done}
use ndmspc.Supervisor.Finish.Defs.{
  Finish, FinishEvent, hears, ends, knows, keep_known, begin_finish, awaits, on_finish_message,
  finish_step, finish, collect_indices, last_done_worker_indices,
}

-- Whether one of the messages is a `DONE` of the worker.
abbrev pub says_done : WorkerId → FinishEvent → Bool
says_done w (hears (id ∷ cmd ∷ rest)) = is_bytes cmd done && is_bytes w id
says_done w _ = false

pub sent_done : WorkerId → List FinishEvent → Bool
sent_done w [] = false
sent_done w (e ∷ es) = says_done w e || sent_done w es

member-add_member :
    (w id : WorkerId) (ws : List WorkerId)
    → member w (add_member id ws) ≡ true
    → (is_bytes w id || member w ws) ≡ true
unfolding add_member member
member-add_member w id ws h = elim (Bool-cases (member id ws)) [
  | inl old ↦ ground arith
  | inr new ↦ ground arith
]

member-keep_known :
    (m : Dict WorkerId ℕ) (w : WorkerId) (ws : List WorkerId)
    → member w (keep_known m ws) ≡ true
    → member w ws ≡ true
unfolding keep_known member
member-keep_known m w [] h = h
member-keep_known m w (u ∷ us) h = elim (Bool-cases (knows u m)) [
  | inl known ↦ ground (arith, member-keep_known m w us)
  | inr unknown ↦ ground (arith, member-keep_known m w us)
]

abbrev IsHeard : WorkerId → FinishEvent → Finish → Finish → Type 0
IsHeard w e f g =
    (member w g.done_workers ≡ true → (member w f.done_workers || says_done w e) ≡ true)
    × (g.identity_to_worker ≡ f.identity_to_worker)

finish_step-IsHeard :
    (w : WorkerId) (e : FinishEvent) (f : Finish) → IsHeard w e f (finish_step e f)
unfolding finish_step on_finish_message
finish_step-IsHeard w (hears (id ∷ cmd ∷ rest)) f = elim (Bool-cases (is_bytes cmd done)) [
  | inr other ↦ ((λ h. ground arith), ground arith)
  | inl is_done ↦ ((λ h. ground (arith, member-add_member w id f.done_workers)), ground arith)
]
finish_step-IsHeard w (hears []) f = ((λ h. ground arith), refl)
finish_step-IsHeard w (hears (id ∷ [])) f = ((λ h. ground arith), refl)
finish_step-IsHeard w ends f = ((λ h. ground arith), refl)

finish-IsHeard :
    (w : WorkerId) (es : List FinishEvent) (f : Finish)
    → (member w (finish es f).done_workers ≡ true
        → (member w f.done_workers || sent_done w es) ≡ true)
      × ((finish es f).identity_to_worker ≡ f.identity_to_worker)
unfolding finish sent_done
finish-IsHeard w [] f = ((λ h. ground arith), refl)
finish-IsHeard w (e ∷ es) f =
    let (heard, same) = finish_step-IsHeard w e f in
    let (heard', same') = finish-IsHeard w es (finish_step e f) in
    elim (Bool-cases (awaits f && not f.is_failed)) [
      | inl more ↦ rw more ((λ h. ground (arith, heard, heard' h)), same' ∙ same)
      | inr over ↦ rw over ((λ h. ground arith), refl)
    ]

contains-collect_indices :
    (m : Dict WorkerId ℕ) (i : ℕ) (ws : List WorkerId)
    → IdSet.contains i (collect_indices m ws) ≡ true
    → (w : WorkerId) × (member w ws ≡ true) × (Dict.find bytes_dec w m ≡ some i)
unfolding collect_indices member
contains-collect_indices m i [] h = absurd (unfold IdSet.contains in ground arith)
contains-collect_indices m i (u ∷ us) h = elim (Option-cases (Dict.find bytes_dec u m)) [
  | inl gone ↦
      (let (w, listed, found) = contains-collect_indices m i us (rw (gone, collect_indices) at h) in
        (w, ground (arith, listed), found))
  | inr (j, here) ↦ elim (ℕ_discrete i j) [
    | yes same ↦ (u, ground arith, here ∙ ap some (sym same))
    | no other ↦
        (let rest : IdSet.contains i (collect_indices m us) ≡ true =
            ground (arith, IdSet.contains-insert i j (collect_indices m us)) in
          let (w, listed, found) = contains-collect_indices m i us rest in
          (w, ground (arith, listed), found))
  ]
]

-- Each index that the wait leaves for the merge is the index of a registered worker that was done early
-- or from which a `DONE` came during the wait.
pub last_done_worker_indices-finish :
    (m : Dict WorkerId ℕ) (early : List WorkerId) (es : List FinishEvent) (i : ℕ)
    → IdSet.contains i (last_done_worker_indices (finish es (begin_finish m early))) ≡ true
    → (w : WorkerId) × (Dict.find bytes_dec w m ≡ some i)
      × ((member w early || sent_done w es) ≡ true)
unfolding last_done_worker_indices begin_finish
last_done_worker_indices-finish m early es i h =
    let f = finish es (begin_finish m early) in
    let (w, listed, found) = contains-collect_indices f.identity_to_worker i f.done_workers h in
    let (heard, same) = finish-IsHeard w es (begin_finish m early) in
    (
      w,
      ap (Dict.find bytes_dec w) (sym same) ∙ found,
      ground (arith, heard listed, member-keep_known m w early),
    )
