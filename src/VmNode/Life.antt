-- ===== src/VmNode/Life.antt =====
-- The life of an executor in the tables of src/primihub/node/node_impl.cc: from the ADD message of its
-- task to the queues of the threads that destroy it.
use primihub.Prelude.{
  ◌≡◌, refl, ◌≢◌, inl, inr, Option, none, some, List, [], ◌∷◌, ◌++◌, append-nil, append_assoc,
  arith, Option-cases, Bytes,
}
use primihub.Prelude.Keys.{
  IsUnique, contents, assign-IsUnique, erase-IsUnique, contents-erase, contents-assign_new,
  contents-assign_more, exchange,
}
use mathlib.Core.List.Perm
use mathlib.Core.List.{perm_append_comm, Perm}
use primihub.Prelude.Dict.{
  lookup-assign_self, lookup-erase_self, lookup, lookup-assign, lookup-erase, assign, erase,
}
use primihub.VmNode.{
  VmNode, Executor, Manage, OperateTaskType, operate, execute_add, execute_del, execute_kill,
  switch, add_some, get_worker, empty,
}
use primihub.Queue.{push}

-- One entry for each id, and no entry without an executor.
abbrev IsWellFormed : VmNode → Type 0
IsWellFormed n =
    IsUnique n.task_executor_map × ((k : Bytes) → lookup k n.task_executor_map ≢ some [])

-- The manage thread's work on a sequence of messages.
unfoldable pub operate_all : List Manage → VmNode → VmNode
operate_all [] n = n
operate_all (m ∷ ms) n = operate_all ms (operate m n)

snoc_ne_nil : (q : List Executor) (x : Executor) → q ++ x ∷ [] ≢ []
snoc_ne_nil [] x h = ground (arith, h)
snoc_ne_nil (y ∷ q) x h = ground (arith, h)

execute_add-IsWellFormed :
    (k : Bytes) (x : Executor) (n : VmNode) → IsWellFormed n → IsWellFormed (execute_add k x n)
unfolding execute_add
execute_add-IsWellFormed k x n w = elim (Option-cases (lookup k n.task_executor_map)) [
  | inl e ↦
      rw (e, execute_add)
        (
          assign-IsUnique k (x ∷ []) n.task_executor_map w.0,
          λ j h. ground (arith, h, w.1 j, lookup-assign k j (x ∷ []) n.task_executor_map),
        )
  | inr (q, e) ↦
      rw (e, execute_add)
        (
          assign-IsUnique k (q ++ x ∷ []) n.task_executor_map w.0,
          λ j h. ground (
            arith,
            h,
            w.1 j,
            snoc_ne_nil q x,
            lookup-assign k j (q ++ x ∷ []) n.task_executor_map,
          ),
        )
]

execute_del-IsWellFormed :
    (k : Bytes) (n : VmNode) → IsWellFormed n → IsWellFormed (execute_del k n)
unfolding execute_del
execute_del-IsWellFormed k n w = elim (Option-cases (lookup k n.task_executor_map)) [
  | inl e ↦ rw (e, execute_del) w
  | inr (q, e) ↦
      rw (e, execute_del)
        (
          erase-IsUnique k n.task_executor_map w.0,
          λ j h. ground (arith, h, w.1 j, lookup-erase k j n.task_executor_map),
        )
]

execute_kill-IsWellFormed :
    (k : Bytes) (n : VmNode) → IsWellFormed n → IsWellFormed (execute_kill k n)
unfolding execute_kill
execute_kill-IsWellFormed k n w = elim (Option-cases (lookup k n.task_executor_map)) [
  | inl e ↦ rw (e, execute_kill) w
  | inr (q, e) ↦
      rw (e, execute_kill)
        (
          erase-IsUnique k n.task_executor_map w.0,
          λ j h. ground (arith, h, w.1 j, lookup-erase k j n.task_executor_map),
        )
]

add_some-IsWellFormed :
    (k : Bytes) (x : Option Executor) (n : VmNode) → IsWellFormed n → IsWellFormed (add_some k x n)
add_some-IsWellFormed k none n w = w
add_some-IsWellFormed k (some x) n w = execute_add-IsWellFormed k x n w

switch-IsWellFormed :
    (o : OperateTaskType) (k : Bytes) (x : Option Executor) (n : VmNode)
    → IsWellFormed n
    → IsWellFormed (switch o k x n)
unfolding switch
switch-IsWellFormed OperateTaskType.unknown k x n w = w
switch-IsWellFormed OperateTaskType.add k x n w = add_some-IsWellFormed k x n w
switch-IsWellFormed OperateTaskType.del k x n w = execute_del-IsWellFormed k n w
switch-IsWellFormed OperateTaskType.kill k x n w = execute_kill-IsWellFormed k n w

operate_all-IsWellFormed :
    (ms : List Manage) (n : VmNode) → IsWellFormed n → IsWellFormed (operate_all ms n)
unfolding operate_all
operate_all-IsWellFormed [] n w = w
operate_all-IsWellFormed (m ∷ ms) n w =
    operate_all-IsWellFormed ms (operate m n)
      (switch-IsWellFormed m.operation m.worker_id m.executor n w)

pub empty-IsWellFormed : IsWellFormed empty
unfolding lookup
empty-IsWellFormed = (tt, λ j e. ground (arith, e))

-- Whatever messages the manage thread has worked off since the node started, `GetWorker` never reads
-- the front of an empty queue of executors.
pub get_worker_never_empty :
    (ms : List Manage) (k : Bytes) → get_worker k (operate_all ms empty) ≢ some none
unfolding get_worker lookup
get_worker_never_empty ms k h =
    let w : IsWellFormed (operate_all ms empty) =
      operate_all-IsWellFormed ms empty empty-IsWellFormed in
    ground (arith, h, w.1 k)

abbrev concat : List (List Executor) → List Executor
concat [] = []
concat (q ∷ r) = q ++ concat r

-- All executors of the node: those in the map, and those on their way to their destruction.
abbrev pub held : VmNode → List Executor
held n =
    contents n.task_executor_map
    ++ (concat n.finished_task_queue.items ++ concat n.kill_task_queue.items)

abbrev pub brought : OperateTaskType → Option Executor → List Executor
brought OperateTaskType.add (some x) = x ∷ []
brought OperateTaskType.add none = []
brought OperateTaskType.del x = []
brought OperateTaskType.kill x = []
brought OperateTaskType.unknown x = []

abbrev brought_all : List Manage → List Executor
brought_all [] = []
brought_all (m ∷ ms) = brought m.operation m.executor ++ brought_all ms

concat-snoc : (q : List Executor) (r : List (List Executor)) → concat (r ++ q ∷ []) ≡ concat r ++ q
concat-snoc q [] = append-nil q
concat-snoc q (p ∷ r) = rw (concat-snoc q r, append_assoc p (concat r) q) refl

execute_add-held :
    (k : Bytes) (x : Executor) (n : VmNode) → Perm (held (execute_add k x n)) (x ∷ held n)
unfolding execute_add
execute_add-held k x n = elim (Option-cases (lookup k n.task_executor_map)) [
  | inl e ↦
      rw (e, execute_add) (Perm.append_right _ (contents-assign_new k x n.task_executor_map e))
  | inr (q, e) ↦
      rw (e, execute_add) (Perm.append_right _ (contents-assign_more k x q n.task_executor_map e))
]

to_finished : (q c f g : List Executor) → Perm (c ++ ((f ++ q) ++ g)) ((q ++ c) ++ (f ++ g))
to_finished q c f g = rw (append_assoc q c (f ++ g)) (
    Perm.trans (Perm.append_left c (Perm.append_right g (perm_append_comm f q)))
      (rw (append_assoc q f g) (exchange c q (f ++ g))))

to_killed : (q c f g : List Executor) → Perm (c ++ (f ++ (g ++ q))) ((q ++ c) ++ (f ++ g))
to_killed q c f g = rw (append_assoc q c (f ++ g)) (
    Perm.trans (Perm.append_left c (Perm.append_left f (perm_append_comm g q)))
      (Perm.trans (Perm.append_left c (exchange f q g)) (exchange c q (f ++ g))))

execute_del-held :
    (k : Bytes) (n : VmNode) → IsWellFormed n → Perm (held (execute_del k n)) (held n)
unfolding execute_del push
execute_del-held k n w = elim (Option-cases (lookup k n.task_executor_map)) [
  | inl e ↦ rw (e, execute_del) (Perm.refl _)
  | inr (q, e) ↦
      rw (e, execute_del, concat-snoc q n.finished_task_queue.items)
        (Perm.trans
          (to_finished q (contents (erase k n.task_executor_map))
            (concat n.finished_task_queue.items) (concat n.kill_task_queue.items))
          (Perm.append_right _ (contents-erase k q n.task_executor_map w.0 e)))
]

execute_kill-held :
    (k : Bytes) (n : VmNode) → IsWellFormed n → Perm (held (execute_kill k n)) (held n)
unfolding execute_kill push
execute_kill-held k n w = elim (Option-cases (lookup k n.task_executor_map)) [
  | inl e ↦ rw (e, execute_kill) (Perm.refl _)
  | inr (q, e) ↦
      rw (e, execute_kill, concat-snoc q n.kill_task_queue.items)
        (Perm.trans
          (to_killed q (contents (erase k n.task_executor_map)) (concat n.finished_task_queue.items)
            (concat n.kill_task_queue.items))
          (Perm.append_right _ (contents-erase k q n.task_executor_map w.0 e)))
]

switch-held :
    (o : OperateTaskType) (k : Bytes) (x : Option Executor) (n : VmNode)
    → IsWellFormed n
    → Perm (held (switch o k x n)) (brought o x ++ held n)
unfolding switch
switch-held OperateTaskType.unknown k x n w = Perm.refl _
switch-held OperateTaskType.add k none n w = Perm.refl _
switch-held OperateTaskType.add k (some x) n w = execute_add-held k x n
switch-held OperateTaskType.del k x n w = execute_del-held k n w
switch-held OperateTaskType.kill k x n w = execute_kill-held k n w

-- No executor is lost and none is doubled: after any sequence of manage messages on a well-formed
-- node, the executors in the map, in the queue of finished tasks and in the queue of killed tasks are,
-- as a multiset, those of before and those that the ADD messages brought.
pub operate_all-held :
    (ms : List Manage) (n : VmNode)
    → IsWellFormed n
    → Perm (held (operate_all ms n)) (brought_all ms ++ held n)
unfolding operate_all
operate_all-held [] n w = Perm.refl _
operate_all-held (m ∷ ms) n w =
    rw (append_assoc (brought m.operation m.executor) (brought_all ms) (held n)) (
      Perm.trans
        (operate_all-held ms (operate m n)
          (switch-IsWellFormed m.operation m.worker_id m.executor n w))
        (Perm.trans
          (Perm.append_left (brought_all ms) (switch-held m.operation m.worker_id m.executor n w))
          (exchange (brought_all ms) (brought m.operation m.executor) (held n))))

abbrev pub add_of : Bytes → Executor → Manage
add_of k x = record { worker_id = k; executor = some x; operation = OperateTaskType.add }

abbrev pub del_of : Bytes → Manage
del_of k = record { worker_id = k; executor = none; operation = OperateTaskType.del }

-- On a node that has no worker of its id, a task whose DEL message overtakes its ADD message stays
-- registered: the executor of the finished task is the worker that the node finds. In the order in which they are meant, none is found.
del_before_add :
    (k : Bytes) (x : Executor) (n : VmNode)
    → lookup k n.task_executor_map ≡ none
    → (get_worker k (operate_all (del_of k ∷ add_of k x ∷ []) n) ≡ some (some x))
      × (get_worker k (operate_all (add_of k x ∷ del_of k ∷ []) n) ≡ none)
unfolding get_worker execute_add execute_del switch operate_all
del_before_add k x n h = (
  ground (arith, h, lookup-assign_self k (x ∷ []) n.task_executor_map),
  ground (
    arith,
    h,
    lookup-assign_self k (x ∷ []) n.task_executor_map,
    lookup-erase_self k (assign k (x ∷ []) n.task_executor_map),
  ),
)
