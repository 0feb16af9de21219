-- ===== src/Tasks/WorkerSets.antt =====
-- core/NTaskStateManager.cxx: `fWorkerToTasks` as the set of each worker, empty if it has no entry.
use mathlib.Core.Option
use ndmspc.Base.IdSet
use ndmspc.Base.IdSet.{IdSet}
use ndmspc.Base.Dict
use ndmspc.Base.Dict.{Dict}
use ndmspc.Base.{ℕ, ◌≡◌, ◌≢◌, [], ◌∷◌, some, bytes_dec, arith, ite}
use ndmspc.Tasks.Defs.{WorkerId, TaskId, insert_for_worker, erase_for_worker, drop_if_empty}

abbrev pub tasks_of : WorkerId → Dict WorkerId IdSet → IdSet
tasks_of w m = Option.get_or (Dict.find bytes_dec w m) []

pub record IsTidy (m : Dict WorkerId IdSet) : Type 0 where
  pub distinct : Dict.IsDistinct bytes_dec m
  pub sorted : (w : WorkerId) → IdSet.IsSorted (tasks_of w m)
  pub no_empty : (w : WorkerId) → Dict.find bytes_dec w m ≢ some []

insert-ne-nil : (a : ℕ) (s : IdSet) → IdSet.insert a s ≢ []
unfolding IdSet.insert
insert-ne-nil a [] h = ground arith
insert-ne-nil a (x ∷ xs) h = ground arith

module _ (w : WorkerId) (id : TaskId) (m : Dict WorkerId IdSet) where
  pub tasks_of-insert :
      (u : WorkerId)
      → tasks_of u (insert_for_worker w id m)
        ≡ ite (bytes_dec u w) (IdSet.insert id (tasks_of w m)) (tasks_of u m)
  unfolding insert_for_worker
  tasks_of-insert u = ground (arith, Dict.find-put bytes_dec u w (IdSet.insert id (tasks_of w m)) m)

  pub insert_for_worker-IsTidy : IsTidy m → IsTidy (insert_for_worker w id m)
  unfolding insert_for_worker
  insert_for_worker-IsTidy t = record {
    distinct = Dict.put-IsDistinct bytes_dec w _ m t.distinct;
    sorted = λ u. ground (
      arith,
      Dict.find-put bytes_dec u w (IdSet.insert id (tasks_of w m)) m,
      IdSet.insert-IsSorted id (tasks_of w m) (t.sorted w),
      t.sorted u,
    );
    no_empty = λ u h. ground (
      arith,
      Dict.find-put bytes_dec u w (IdSet.insert id (tasks_of w m)) m,
      insert-ne-nil id (tasks_of w m),
      t.no_empty u,
    );
  }

drop-IsTidy :
    (w : WorkerId) (ids : IdSet) (m : Dict WorkerId IdSet)
    → IdSet.IsSorted ids
    → IsTidy m
    → IsTidy (drop_if_empty w ids m)
unfolding drop_if_empty
drop-IsTidy w [] m h t = record {
  distinct = Dict.erase-IsDistinct bytes_dec w m t.distinct;
  sorted = λ u. ground (arith, Dict.find-erase bytes_dec u w m t.distinct, t.sorted u);
  no_empty = λ u e. ground (arith, Dict.find-erase bytes_dec u w m t.distinct, t.no_empty u);
}
drop-IsTidy w (x ∷ xs) m h t = record {
  distinct = Dict.put-IsDistinct bytes_dec w _ m t.distinct;
  sorted = λ u. ground (arith, Dict.find-put bytes_dec u w (x ∷ xs) m, t.sorted u);
  no_empty = λ u e. ground (arith, Dict.find-put bytes_dec u w (x ∷ xs) m, t.no_empty u);
}

tasks_of-drop :
    (w : WorkerId) (ids : IdSet) (m : Dict WorkerId IdSet) (u : WorkerId)
    → IsTidy m
    → tasks_of u (drop_if_empty w ids m) ≡ ite (bytes_dec u w) ids (tasks_of u m)
unfolding drop_if_empty
tasks_of-drop w [] m u t = ground (arith, Dict.find-erase bytes_dec u w m t.distinct)
tasks_of-drop w (x ∷ xs) m u t = ground (arith, Dict.find-put bytes_dec u w (x ∷ xs) m)

module _ (w : WorkerId) (id : TaskId) (m : Dict WorkerId IdSet) (t : IsTidy m) where
  pub tasks_of-erase :
      (u : WorkerId)
      → tasks_of u (erase_for_worker w id m)
        ≡ ite (bytes_dec u w) (IdSet.erase id (tasks_of w m)) (tasks_of u m)
  unfolding erase_for_worker
  tasks_of-erase u = tasks_of-drop w (IdSet.erase id (tasks_of w m)) m u t

  pub erase_for_worker-IsTidy : IsTidy (erase_for_worker w id m)
  unfolding erase_for_worker
  erase_for_worker-IsTidy =
      drop-IsTidy w _ m (IdSet.erase-IsSorted id (tasks_of w m) (t.sorted w)) t

pub erase_worker-IsTidy :
    (w : WorkerId) (m : Dict WorkerId IdSet) → IsTidy m → IsTidy (Dict.erase bytes_dec w m)
unfolding drop_if_empty
erase_worker-IsTidy w m t = drop-IsTidy w [] m tt t

pub tasks_of-erase_worker :
    (w u : WorkerId) (m : Dict WorkerId IdSet)
    → IsTidy m
    → tasks_of u (Dict.erase bytes_dec w m) ≡ ite (bytes_dec u w) [] (tasks_of u m)
unfolding drop_if_empty
tasks_of-erase_worker w u m t = tasks_of-drop w [] m u t
