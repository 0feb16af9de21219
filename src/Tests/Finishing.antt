-- ===== src/Tests/Finishing.antt =====
-- core/NDimensionalExecutor.cxx: a session with one worker, which says `DONE` and `SHUTDOWN`.
use ndmspc.Base.IdSet
use ndmspc.Base.Dict
use ndmspc.Base.Dict.{Dict}
use ndmspc.Base.{ℕ, ◌≡◌, refl, true, false, ◌||◌, List, [], ◌∷◌, some, bytes_dec, ℕ_discrete}
use ndmspc.Tasks.Defs.{WorkerId}
use ndmspc.Supervisor.Loop.Defs.{member, add_member, done, shutdown}
use ndmspc.Supervisor.Finish.Confirmed.{sent_done, last_done_worker_indices-finish}
use ndmspc.Supervisor.Finish.Defs.{
  FinishEvent, hears, keep_known, begin_finish, awaits, on_finish_message, finish_step, finish,
  collect_indices, last_done_worker_indices,
}
use ndmspc.Tests.Supervising.{worker}

abbrev registered : Dict WorkerId ℕ
registered = (worker, 3) ∷ []

abbrev farewell : List FinishEvent
farewell = hears (worker ∷ done ∷ []) ∷ hears (worker ∷ shutdown ∷ []) ∷ []

-- The wait is over after the two messages, without an error.
ended :
    (awaits (finish farewell (begin_finish registered [])) ≡ false)
    × ((finish farewell (begin_finish registered [])).is_failed ≡ false)
unfolding finish finish_step on_finish_message begin_finish keep_known awaits add_member member
    bytes_dec ℕ_discrete Dict.find
ended = (refl, refl)

confirmed :
    IdSet.contains 3 (last_done_worker_indices (finish farewell (begin_finish registered [])))
    ≡ true
unfolding last_done_worker_indices collect_indices finish finish_step on_finish_message begin_finish
    keep_known awaits add_member member bytes_dec ℕ_discrete Dict.find IdSet.contains IdSet.insert
confirmed = refl

last_done_worker_indices-finish_example :
    (w : WorkerId) × (Dict.find bytes_dec w registered ≡ some 3)
    × ((member w [] || sent_done w farewell) ≡ true)
last_done_worker_indices-finish_example =
    last_done_worker_indices-finish registered [] farewell 3 confirmed
