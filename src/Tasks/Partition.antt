-- ===== src/Tasks/Partition.antt =====
-- core/NTaskStateManager.cxx: the state that a task is in, and its entry in the queue.
use ndmspc.Base.IdSet
use ndmspc.Base.Dict
use ndmspc.Base.{
  ℕ, ◌+◌, ◌≡◌, refl, ◌==◌, true, false, List, [], ◌∷◌, ◌++◌, none, ℕ_discrete, if◌then◌else◌, arith,
  Bool-cases, Option-cases, inl, inr,
}
use ndmspc.Tasks.Defs.{
  State, Task, TaskId, TaskPayload, WorkerId, is_pending, find_running, find_worker, is_done,
  enqueue_pending, release_from_worker, clear,
}

abbrev pub occurrences : ℕ → List Task → ℕ
occurrences i [] = 0
occurrences i ((j, p) ∷ q) = (if i == j then 1 else 0) + occurrences i q

pub record IsPartition (s : State) : Type 0 where
  pub ids_sorted : IdSet.IsSorted s.pending_ids
  pub done_sorted : IdSet.IsSorted s.done
  pub running_distinct : Dict.IsDistinct ℕ_discrete s.running
  pub queued : (i : ℕ) → occurrences i s.pending ≡ (if is_pending s i then 1 else 0)
  pub not_running : (i : ℕ) → is_pending s i ≡ true → find_running s i ≡ none
  pub not_done : (i : ℕ) → is_pending s i ≡ true → is_done s i ≡ false
  pub ended : (i : ℕ) → is_done s i ≡ true → find_running s i ≡ none

pub occurrences-append :
    (i : ℕ) (q r : List Task) → occurrences i (q ++ r) ≡ occurrences i q + occurrences i r
occurrences-append i [] r = omega arith
occurrences-append i ((j, p) ∷ q) r = omega (arith, occurrences-append i q r)

-- `EnqueuePending` of a task that neither runs nor is done.
pub enqueue_pending-IsPartition :
    (id : ℕ) (p : TaskPayload) (s : State)
    → find_running s id ≡ none
    → is_done s id ≡ false
    → IsPartition s
    → IsPartition (enqueue_pending id p s)
unfolding enqueue_pending
enqueue_pending-IsPartition id p s r d v = elim (Bool-cases (is_pending s id)) [
  | inl old ↦ rw old v
  | inr new ↦ rw new (record {
    ids_sorted = IdSet.insert-IsSorted id s.pending_ids v.ids_sorted;
    done_sorted = v.done_sorted;
    running_distinct = v.running_distinct;
    queued = λ i. ground (
      arith,
      v.queued i,
      occurrences-append i s.pending ((id, p) ∷ []),
      IdSet.contains-insert i id s.pending_ids,
    );
    not_running = λ i h. ground (arith, v.not_running i, IdSet.contains-insert i id s.pending_ids);
    not_done = λ i h. ground (arith, v.not_done i, IdSet.contains-insert i id s.pending_ids);
    ended = v.ended;
  })
]

-- What the other maps hold does not matter here.
pub maps-IsPartition :
    (s : State) (wt : Dict.Dict WorkerId IdSet.IdSet) (tw : Dict.Dict TaskId WorkerId)
    (tp : Dict.Dict TaskId TaskPayload)
    → IsPartition s
    → IsPartition (record s { worker_to_tasks = wt; task_to_worker = tw; task_payloads = tp })
maps-IsPartition s wt tw tp v = record {
  ids_sorted = v.ids_sorted;
  done_sorted = v.done_sorted;
  running_distinct = v.running_distinct;
  queued = v.queued;
  not_running = v.not_running;
  not_done = v.not_done;
  ended = v.ended;
}

module _ (id : ℕ) (s : State) where
  pub erase_running-IsPartition :
      IsPartition s → IsPartition (record s { running = Dict.erase ℕ_discrete id s.running })
  erase_running-IsPartition v = record {
    ids_sorted = v.ids_sorted;
    done_sorted = v.done_sorted;
    running_distinct = Dict.erase-IsDistinct ℕ_discrete id s.running v.running_distinct;
    queued = v.queued;
    not_running = λ i h.
        ground
          (arith, v.not_running i, Dict.find-erase ℕ_discrete i id s.running v.running_distinct);
    not_done = v.not_done;
    ended = λ i h.
        ground (arith, v.ended i, Dict.find-erase ℕ_discrete i id s.running v.running_distinct);
  }

  pub put_running-IsPartition :
      (p : TaskPayload)
      → is_pending s id ≡ false
      → is_done s id ≡ false
      → IsPartition s
      → IsPartition (record s { running = Dict.put ℕ_discrete id p s.running })
  put_running-IsPartition p np nd v = record {
    ids_sorted = v.ids_sorted;
    done_sorted = v.done_sorted;
    running_distinct = Dict.put-IsDistinct ℕ_discrete id p s.running v.running_distinct;
    queued = v.queued;
    not_running = λ i h. ground (arith, v.not_running i, Dict.find-put ℕ_discrete i id p s.running);
    not_done = v.not_done;
    ended = λ i h. ground (arith, v.ended i, Dict.find-put ℕ_discrete i id p s.running);
  }

  pub insert_done-IsPartition :
      is_pending s id ≡ false
      → find_running s id ≡ none
      → IsPartition s
      → IsPartition (record s { done = IdSet.insert id s.done })
  insert_done-IsPartition np nr v = record {
    ids_sorted = v.ids_sorted;
    done_sorted = IdSet.insert-IsSorted id s.done v.done_sorted;
    running_distinct = v.running_distinct;
    queued = v.queued;
    not_running = v.not_running;
    not_done = λ i h. ground (arith, v.not_done i, IdSet.contains-insert i id s.done);
    ended = λ i h. ground (arith, v.ended i, IdSet.contains-insert i id s.done);
  }

  pub erase_done-IsPartition :
      IsPartition s → IsPartition (record s { done = IdSet.erase id s.done })
  erase_done-IsPartition v = record {
    ids_sorted = v.ids_sorted;
    done_sorted = IdSet.erase-IsSorted id s.done v.done_sorted;
    running_distinct = v.running_distinct;
    queued = v.queued;
    not_running = v.not_running;
    not_done = λ i h. ground (arith, v.not_done i, IdSet.contains-erase i id s.done v.done_sorted);
    ended = λ i h. ground (arith, v.ended i, IdSet.contains-erase i id s.done v.done_sorted);
  }

  pub dequeue-IsPartition :
      (rest : List Task)
      → ((i : ℕ) → occurrences i s.pending ≡ (if i == id then 1 else 0) + occurrences i rest)
      → IsPartition s
      → IsPartition (record s { pending = rest; pending_ids = IdSet.erase id s.pending_ids })
  dequeue-IsPartition rest split v = record {
    ids_sorted = IdSet.erase-IsSorted id s.pending_ids v.ids_sorted;
    done_sorted = v.done_sorted;
    running_distinct = v.running_distinct;
    queued = λ i.
        ground (arith, v.queued i, split i, IdSet.contains-erase i id s.pending_ids v.ids_sorted);
    not_running = λ i h.
        ground (arith, v.not_running i, IdSet.contains-erase i id s.pending_ids v.ids_sorted);
    not_done =
        λ i h. ground (arith, v.not_done i, IdSet.contains-erase i id s.pending_ids v.ids_sorted);
    ended = v.ended;
  }

pub release_from_worker-IsPartition :
    (id : ℕ) (s : State) → IsPartition s → IsPartition (release_from_worker id s)
unfolding release_from_worker
release_from_worker-IsPartition id s v = elim (Option-cases (find_worker s id)) [
  | inl e ↦ rw (e, release_from_worker) v
  | inr (w, e) ↦ rw (e, release_from_worker) (maps-IsPartition s _ _ _ v)
]

pub clear-IsPartition : IsPartition clear
unfolding IdSet.contains Dict.find
clear-IsPartition = record {
  ids_sorted = tt;
  done_sorted = tt;
  running_distinct = tt;
  queued = λ i. refl;
  not_running = λ i h. refl;
  not_done = λ i h. refl;
  ended = λ i h. refl;
}
