-- ===== src/Supervisor/Finish/Defs.antt =====
-- core/NDimensionalExecutor.cxx: `FinishProcessIpc` over TCP, which waits until the workers are done and
-- keeps the indices of those whose results are merged.
use ndmspc.Base.IdSet
use ndmspc.Base.IdSet.{IdSet}
use ndmspc.Base.Dict
use ndmspc.Base.Dict.{Dict}
use ndmspc.Base.{
  ℕ, ltb, Bool, true, false, not, ◌&&◌, ◌||◌, List, [], ◌∷◌, none, some, Bytes, bytes_dec,
  if◌then◌else◌, is_some, length,
}
use ndmspc.Tasks.Defs.{WorkerId}
use ndmspc.Supervisor.Loop.Defs.{is_bytes, add_member, done, shutdown}

-- The variables of the wait; `is_failed` says that `finishError` is set.
pub record Finish : Type 0 where
  pub identity_to_worker : Dict WorkerId ℕ
  pub done_workers : List WorkerId
  pub shutdown_workers : List WorkerId
  pub is_failed : Bool

abbrev pub knows : WorkerId → Dict WorkerId ℕ → Bool
knows w m = is_some (Dict.find bytes_dec w m)

-- The workers that were done early and are still registered.
unfoldable pub keep_known : Dict WorkerId ℕ → List WorkerId → List WorkerId
keep_known m [] = []
keep_known m (w ∷ ws) = let rest = keep_known m ws in if knows w m then w ∷ rest else rest

unfoldable pub begin_finish : Dict WorkerId ℕ → List WorkerId → Finish
begin_finish m early = record {
  identity_to_worker = m;
  done_workers = keep_known m early;
  shutdown_workers = [];
  is_failed = false;
}

-- The test of the wait.
unfoldable pub awaits : Finish → Bool
awaits f =
    ltb (length f.done_workers) (length f.identity_to_worker)
    || ltb (length f.shutdown_workers) (length f.identity_to_worker)

-- A message; `READY` and `BOOTSTRAP` are only replied to.
unfoldable pub on_finish_message : WorkerId → Bytes → Finish → Finish
on_finish_message id cmd f =
    if is_bytes cmd done
    then if knows id f.identity_to_worker
      then record f { done_workers = add_member id f.done_workers }
      else f
    else if is_bytes cmd shutdown && knows id f.identity_to_worker
    then record f { shutdown_workers = add_member id f.shutdown_workers }
    else f

-- A message, or that the time is over or the socket fails.
pub data FinishEvent : Type 0 where
  hears : List Bytes → FinishEvent
  ends : FinishEvent

unfoldable pub finish_step : FinishEvent → Finish → Finish
finish_step (hears (id ∷ cmd ∷ rest)) f = on_finish_message id cmd f
finish_step (hears _) f = f
finish_step ends f = record f { is_failed = true }

unfoldable pub finish : List FinishEvent → Finish → Finish
finish [] f = f
finish (e ∷ es) f =
    let rest = finish es (finish_step e f) in if awaits f && not f.is_failed then rest else f

unfoldable pub collect_indices : Dict WorkerId ℕ → List WorkerId → IdSet
collect_indices m [] = []
collect_indices m (w ∷ ws) = elim (Dict.find bytes_dec w m) [
  | none ↦ collect_indices m ws
  | some i ↦ IdSet.insert i (collect_indices m ws)
]

-- `fLastDoneWorkerIndices`
unfoldable pub last_done_worker_indices : Finish → IdSet
last_done_worker_indices f = collect_indices f.identity_to_worker f.done_workers
