-- ===== src/Tasks/Defs.antt =====
-- core/NTaskStateManager.h and .cxx: the fields of the class and its methods. A method that can
-- throw or that returns a value has it beside the new state.
use mathlib.Core.Option
use ndmspc.Base.IdSet
use ndmspc.Base.IdSet.{IdSet}
use ndmspc.Base.Dict
use ndmspc.Base.Dict.{Dict}
use ndmspc.Base.Int.{ℤ}
use ndmspc.Base.{
  ℕ, ◌+◌, ◌==◌, Bool, true, false, ◌||◌, not, List, [], ◌∷◌, ◌++◌, Option, none, some, Bytes,
  bytes_dec, ℕ_discrete, if◌then◌else◌, is_some, length,
}

abbrev pub TaskId : Type 0
TaskId = ℕ

abbrev pub WorkerId : Type 0
WorkerId = Bytes

abbrev pub TaskPayload : Type 0
TaskPayload = List ℤ

abbrev pub Task : Type 0
Task = TaskId × TaskPayload

pub record State : Type 0 where
  pub pending : List Task
  pub pending_ids : IdSet
  pub running : Dict TaskId TaskPayload
  pub done : IdSet
  pub worker_to_tasks : Dict WorkerId IdSet
  pub task_to_worker : Dict TaskId WorkerId
  pub task_payloads : Dict TaskId TaskPayload

-- The lookups on the fields, as the methods write them.
abbrev pub is_pending : State → TaskId → Bool
is_pending s id = IdSet.contains id s.pending_ids

abbrev pub find_running : State → TaskId → Option TaskPayload
find_running s id = Dict.find ℕ_discrete id s.running

abbrev pub find_worker : State → TaskId → Option WorkerId
find_worker s id = Dict.find ℕ_discrete id s.task_to_worker

abbrev pub find_tasks : State → WorkerId → Option IdSet
find_tasks s w = Dict.find bytes_dec w s.worker_to_tasks

abbrev pub find_payload : State → TaskId → Option TaskPayload
find_payload s id = Dict.find ℕ_discrete id s.task_payloads

unfoldable pub enqueue_pending : TaskId → TaskPayload → State → State
enqueue_pending id payload s = if is_pending s id then s else record s {
  pending = s.pending ++ (id, payload) ∷ [];
  pending_ids = IdSet.insert id s.pending_ids;
}

unfoldable pub task_exists : State → TaskId → Bool
task_exists s id =
    is_pending s id
    || is_some (find_running s id)
    || IdSet.contains id s.done
    || is_some (find_payload s id)

-- `none` is the std::runtime_error.
unfoldable pub add_pending : TaskId → TaskPayload → State → Option State
add_pending id payload s =
    if task_exists s id
    then none
    else (let q = enqueue_pending id payload s in
        some (record q { task_payloads = Dict.put ℕ_discrete id payload q.task_payloads }))

-- `fWorkerToTasks[worker].insert(id)`
unfoldable pub insert_for_worker : WorkerId → TaskId → Dict WorkerId IdSet → Dict WorkerId IdSet
insert_for_worker w id m =
    Dict.put bytes_dec w (IdSet.insert id (Option.get_or (Dict.find bytes_dec w m) [])) m

-- The three statements that make a task run at a worker.
unfoldable pub start_running : WorkerId → TaskId → TaskPayload → State → State
start_running w id payload s = record s {
  running = Dict.put ℕ_discrete id payload s.running;
  worker_to_tasks = insert_for_worker w id s.worker_to_tasks;
  task_to_worker = Dict.put ℕ_discrete id w s.task_to_worker;
}

-- The loop of `AssignToWorker` over the queue: what leaves it, and what is queued again in order.
unfoldable pub take_task : TaskId → List Task → Option TaskPayload × List Task
take_task id [] = (none, [])
take_task id ((i, p) ∷ q) =
    if i == id then (some p, q) else (let (found, rest) = take_task id q in (found, (i, p) ∷ rest))

unfoldable pub after_take :
    WorkerId → TaskId → State → Option TaskPayload × List Task → State × Bool
after_take w id s (none, rest) = (record s { pending = rest }, false)
after_take w id s (some p, rest) = (
  start_running w id p (record s { pending = rest; pending_ids = IdSet.erase id s.pending_ids }),
  true,
)

unfoldable pub assign_to_worker : WorkerId → TaskId → State → State × Bool
unfolding after_take
assign_to_worker w id s =
    if not (is_pending s id) then (s, false) else after_take w id s (take_task id s.pending)

unfoldable pub claim_first : WorkerId → State → List Task → State × Option Task
claim_first w s [] = (s, none)
claim_first w s ((id, p) ∷ q) = (
  start_running w id p (record s { pending = q; pending_ids = IdSet.erase id s.pending_ids }),
  some (id, p),
)

-- The task that is claimed is returned by the two output arguments.
unfoldable pub claim_next : WorkerId → State → State × Option Task
unfolding claim_first
claim_next w s = claim_first w s s.pending

-- `fWorkerToTasks[worker].erase(id)`, and the entry goes if the set is then empty.
unfoldable pub drop_if_empty : WorkerId → IdSet → Dict WorkerId IdSet → Dict WorkerId IdSet
drop_if_empty w [] m = Dict.erase bytes_dec w m
drop_if_empty w (x ∷ xs) m = Dict.put bytes_dec w (x ∷ xs) m

unfoldable pub erase_for_worker : WorkerId → TaskId → Dict WorkerId IdSet → Dict WorkerId IdSet
unfolding drop_if_empty
erase_for_worker w id m =
    drop_if_empty w (IdSet.erase id (Option.get_or (Dict.find bytes_dec w m) [])) m

-- "Remove from worker assignment", at the end of `MarkDone`, `MarkFailed` and `RequeueTask`.
unfoldable pub release_from_worker : TaskId → State → State
release_from_worker id s = elim (find_worker s id) [
  | none ↦ s
  | some w ↦ record s {
    worker_to_tasks = erase_for_worker w id s.worker_to_tasks;
    task_to_worker = Dict.erase ℕ_discrete id s.task_to_worker;
  }
]

unfoldable pub mark_done : TaskId → State → State × Bool
mark_done id s = elim (find_running s id) [
  | none ↦ (s, false)
  | some p ↦ (
    release_from_worker id
        (record s { done = IdSet.insert id s.done; running = Dict.erase ℕ_discrete id s.running }),
    true,
  )
]

-- Running to pending.
unfoldable pub stop_running : TaskId → TaskPayload → State → State
stop_running id p s =
    release_from_worker id
      (enqueue_pending id p (record s { running = Dict.erase ℕ_discrete id s.running }))

unfoldable pub mark_failed : TaskId → State → State × Bool
mark_failed id s = elim (find_running s id) [
  | none ↦ (s, false)
  | some p ↦ (stop_running id p s, true)
]

-- Done to pending, from the stored payload.
unfoldable pub requeue_done : TaskId → State → State × Bool
requeue_done id s =
    if IdSet.contains id s.done
    then elim (find_payload s id) [
      | none ↦ (s, false)
      | some p ↦ (enqueue_pending id p (record s { done = IdSet.erase id s.done }), true)
    ]
    else (s, false)

unfoldable pub requeue_task : TaskId → State → State × Bool
requeue_task id s = elim (find_running s id) [
  | none ↦ requeue_done id s
  | some p ↦ (stop_running id p s, true)
]

unfoldable pub get_worker_tasks : State → WorkerId → IdSet
get_worker_tasks s w = Option.get_or (find_tasks s w) []

-- `none` is the invalid pair of id 0 and an empty payload.
unfoldable pub get_next_pending : State → Task
get_next_pending s = elim s.pending [ [] ↦ (0, []) | t ∷ q ↦ t ]

unfoldable pub has_pending : State → Bool
has_pending s = elim s.pending [ [] ↦ false | t ∷ q ↦ true ]

-- One round of the loop of `RecoverWorkerTasks`; the new queue entry, if the task was running, is
-- also what the method returns for it.
unfoldable pub recover_task : TaskId → State → State × List Task
recover_task id s = elim (find_running s id) [
  | none ↦ (record s { task_to_worker = Dict.erase ℕ_discrete id s.task_to_worker }, [])
  | some p ↦
      (let q = enqueue_pending id p s in
        (
          record q {
            running = Dict.erase ℕ_discrete id q.running;
            task_to_worker = Dict.erase ℕ_discrete id q.task_to_worker;
          },
          (id, p) ∷ [],
        ))
]

unfoldable pub recover_tasks : IdSet → State → State × List Task
recover_tasks [] s = (s, [])
recover_tasks (id ∷ ids) s =
    let (s', r) = recover_task id s in let (s'', rs) = recover_tasks ids s' in (s'', r ++ rs)

unfoldable pub recover_worker_tasks : WorkerId → State → State × List Task
recover_worker_tasks w s = elim (find_tasks s w) [
  | none ↦ (s, [])
  | some ids ↦
      (let (q, recovered) = recover_tasks ids s in
        (record q { worker_to_tasks = Dict.erase bytes_dec w q.worker_to_tasks }, recovered))
]

unfoldable pub remove_task_from_worker : WorkerId → TaskId → State → State × Bool
remove_task_from_worker w id s = elim (find_tasks s w) [
  | none ↦ (s, false)
  | some ids ↦
      if IdSet.contains id ids
      then (
        record s {
          worker_to_tasks = erase_for_worker w id s.worker_to_tasks;
          task_to_worker = Dict.erase ℕ_discrete id s.task_to_worker;
        },
        true,
      )
      else (s, false)
]

-- The empty string stands for a task that does not run.
unfoldable pub get_task_worker : State → TaskId → WorkerId
get_task_worker s id = Option.get_or (find_worker s id) []

abbrev pub is_done : State → TaskId → Bool
is_done s id = IdSet.contains id s.done

abbrev pub pending_count : State → ℕ
pending_count s = length s.pending

abbrev pub running_count : State → ℕ
running_count s = length s.running

abbrev pub done_count : State → ℕ
done_count s = length s.done

abbrev pub total_count : State → ℕ
total_count s = pending_count s + running_count s + done_count s

-- The state after `Clear` and of a new object.
abbrev pub clear : State
clear = record {
  pending = [];
  pending_ids = [];
  running = [];
  done = [];
  worker_to_tasks = [];
  task_to_worker = [];
  task_payloads = [];
}
