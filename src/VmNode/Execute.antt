-- ===== src/VmNode/Execute.antt =====
-- src/primihub/node/node_impl.cc: `ExecuteTask` and the thread that it starts, on the node of a party.
-- The worker of the task and its run are arguments.
use primihub.Prelude.{
  ℕ, ◌≡◌, refl, ap, Bool, true, false, Option, none, some, List, [], ◌∷◌, ◌++◌, arith,
  if◌then◌else◌, Bytes, Retcode, success, fail,
}
use primihub.Prelude.Dict.{lookup, assign, erase, lookup-assign_self, lookup-erase_self}
use primihub.Queue.{push, wait_and_pop}
use primihub.Worker.{StatusCode}
use primihub.VmNode.{
  VmNode, Executor, OperateTaskType, clean_duplicate_task_id_filter, is_duplicate_task,
  cache_last_task_status, manage_step, get_worker, is_finished_task, switch, execute_add,
  execute_del,
}
use primihub.VmNode.Exchange.{stop_task}

-- Up to the creation of the worker: whether the task is refused as a duplicate.
unfoldable pub admit : ℕ → Bytes → Bytes → VmNode → Bool × VmNode
admit now request_id sub_task_id n =
    is_duplicate_task now request_id sub_task_id (clean_duplicate_task_id_filter now n)

-- After the start of the thread: `ready` is what `waitForTaskReady` returns. The code of the call, the
-- statuses sent to the scheduler, and the node with an ADD message for the manage thread.
unfoldable save_handler : Bytes → Executor → Retcode → VmNode → Retcode × List StatusCode × VmNode
save_handler worker_id x ready n = elim ready [
  | fail ↦ (fail, StatusCode.fail ∷ [], n)
  | success ↦ (
    success,
    [],
    record n {
      task_manage_queue =
          push
            (record { worker_id = worker_id; executor = some x; operation = OperateTaskType.add })
            n.task_manage_queue;
    },
  )
]

-- `std::async` with `executor_func`: from here on the worker of this id runs the task, in a thread of its
-- own.
unfoldable pub start_thread : Bytes → VmNode → VmNode
start_thread worker_id n = record n { started = n.started ++ worker_id ∷ [] }

unfoldable pub execute_task :
    ℕ → Bytes → Bytes → Executor → Retcode → VmNode → Retcode × List StatusCode × VmNode
unfolding admit save_handler start_thread
execute_task now request_id sub_task_id x ready n =
    let (duplicate, m) = admit now request_id sub_task_id n in
    if duplicate then (fail, [], m) else save_handler request_id x ready (start_thread request_id m)

-- The status of a run that returned a code, or that threw.
abbrev last_status : Option Retcode → StatusCode
last_status none = StatusCode.fail
last_status (some success) = StatusCode.success
last_status (some fail) = StatusCode.fail

-- The thread: the statuses that it sends, and the node that it leaves.
unfoldable pub executor_func : Bool → ℕ → Bytes → Option Retcode → VmNode → List StatusCode × VmNode
executor_func manual_launch now worker_id result n =
    let status = last_status result in
    (
      StatusCode.running ∷ status ∷ [],
      if manual_launch
          then n
          else stop_task worker_id (cache_last_task_status now worker_id status n),
    )

-- The manage thread's next two rounds.
unfoldable pub manage_twice : VmNode → Option VmNode
unfolding manage_step
manage_twice n = elim (manage_step n) [ none ↦ none | some m ↦ manage_step m ]

-- The node runs, and no message waits for its manage thread.
pub record IsIdle (n : VmNode) : Type 0 where
  pub running : n.stop ≡ false
  pub no_messages : n.task_manage_queue ≡ record { items = []; stop = false }

-- The node on which the thread of a task has just started.
abbrev at_start : ℕ → Bytes → Bytes → VmNode → VmNode
at_start now r s n = start_thread r (admit now r s n).1

at_start-rest :
    (now : ℕ) (r s : Bytes) (n : VmNode)
    → let m = at_start now r s n in
      m ≡ record n {
        duplicate_task_id_filter = m.duplicate_task_id_filter;
        started = n.started ++ r ∷ [];
      }
unfolding admit is_duplicate_task clean_duplicate_task_id_filter start_thread
at_start-rest now r s n = ground arith

-- The node after the rounds for ADD and DEL.
abbrev after_del : ℕ → Bytes → Executor → Option Retcode → VmNode → VmNode
after_del later r x result m = record m {
  task_executor_map = erase r (assign r (x ∷ []) m.task_executor_map);
  finished_task_queue = push (x ∷ []) m.finished_task_queue;
  finished_task_status = assign r (last_status result, later) m.finished_task_status;
  write_flag = false;
}

manage-after_del :
    (later : ℕ) (r : Bytes) (x : Executor) (result : Option Retcode) (m : VmNode)
    → IsIdle m
    → lookup r m.task_executor_map ≡ none
    → let (ret, sent, v) = save_handler r x success m in
      manage_twice (executor_func false later r result v).1 ≡ some (after_del later r x result m)
unfolding save_handler executor_func manage_twice manage_step switch execute_add execute_del push
    wait_and_pop stop_task cache_last_task_status
manage-after_del later r x result m i h =
    ground (arith, i.running, i.no_messages, h, lookup-assign_self r (x ∷ []) m.task_executor_map)

-- The node after the round for ADD.
abbrev with_executor : Bytes → Executor → VmNode → VmNode
with_executor r x m = record m {
  task_executor_map = assign r (x ∷ []) m.task_executor_map;
  write_flag = false;
}

manage-with_executor :
    (later : ℕ) (r : Bytes) (x : Executor) (result : Option Retcode) (m : VmNode)
    → IsIdle m
    → lookup r m.task_executor_map ≡ none
    → let (ret, sent, v) = save_handler r x success m in
      manage_step (executor_func true later r result v).1 ≡ some (with_executor r x m)
unfolding save_handler executor_func manage_step switch execute_add push wait_and_pop
manage-with_executor later r x result m i h = ground (arith, i.running, i.no_messages, h)

-- A task that is not a duplicate and whose worker gets ready, on a node that is idle and has no worker of
-- its id, if the thread ends after the call has saved its handler: the call succeeds and has started
-- one thread. If the task was not launched by hand, then after the manage thread's two rounds the node
-- has no worker of the id, its executor is the last to be destroyed, and the id counts as finished
-- with the status of the run. If it was, then after one round the node has the worker, whose thread
-- has ended.
pub task_ends :
    (now later : ℕ) (r s : Bytes) (x : Executor) (result : Option Retcode) (n : VmNode)
    → IsIdle n
    → (admit now r s n).0 ≡ false
    → lookup r n.task_executor_map ≡ none
    → let (ret, sent, m) = execute_task now r s x success n in
      (ret ≡ success)
      × (m.started ≡ n.started ++ r ∷ [])
      × ((k : VmNode) × (manage_twice (executor_func false later r result m).1 ≡ some k)
          × (get_worker r k ≡ none)
          × (k.finished_task_queue.items ≡ n.finished_task_queue.items ++ (x ∷ []) ∷ [])
          × (is_finished_task r k ≡ (true, last_status result)))
      × ((k : VmNode) × (manage_step (executor_func true later r result m).1 ≡ some k)
          × (get_worker r k ≡ some (some x)))
unfolding execute_task
task_ends now later r s x result n i d h =
    let m = at_start now r s n in
    let same = at_start-rest now r s n in
    let e : execute_task now r s x success n ≡ save_handler r x success m = ground (arith, d) in
    let idle : IsIdle m = record {
      running = cc (same, i.running);
      no_messages = cc (same, i.no_messages);
    } in
    let there : lookup r m.task_executor_map ≡ none = cc (same, h) in
    let queue : m.finished_task_queue ≡ n.finished_task_queue = cc same in
    let threads : m.started ≡ n.started ++ r ∷ [] = cc same in
    rw e (
      unfold save_handler in refl,
      unfold save_handler in threads,
      (
        after_del later r x result m,
        manage-after_del later r x result m idle there,
        unfold get_worker in
            ground (arith, lookup-erase_self r (assign r (x ∷ []) m.task_executor_map)),
        unfold push in ap (λ q. q.items ++ (x ∷ []) ∷ []) queue,
        unfold is_finished_task in
            ground (arith, lookup-assign_self r (last_status result, later) m.finished_task_status),
      ),
      (
        with_executor r x m,
        manage-with_executor later r x result m idle there,
        unfold get_worker in ground (arith, lookup-assign_self r (x ∷ []) m.task_executor_map),
      ),
    )

-- The node after the rounds for DEL and ADD.
abbrev after_add : ℕ → Bytes → Executor → Option Retcode → VmNode → VmNode
after_add later r x result m = record m {
  task_executor_map = assign r (x ∷ []) m.task_executor_map;
  finished_task_status = assign r (last_status result, later) m.finished_task_status;
  write_flag = false;
}

-- The call and its thread race: on an idle node that has no worker of the id, if the thread ends before the call has saved its
-- handler, the worker that ended is still the one that the node finds after the manage thread's two
-- rounds, while the id counts as finished.
task_stays :
    (later : ℕ) (r : Bytes) (x : Executor) (result : Option Retcode) (m : VmNode)
    → IsIdle m
    → lookup r m.task_executor_map ≡ none
    → let (ret, sent, v) = save_handler r x success (executor_func false later r result m).1 in
      (k : VmNode) × (manage_twice v ≡ some k)
      × (get_worker r k ≡ some (some x))
      × (is_finished_task r k ≡ (true, last_status result))
unfolding save_handler executor_func manage_twice manage_step switch execute_add execute_del push
    wait_and_pop stop_task cache_last_task_status get_worker is_finished_task
task_stays later r x result m i h = (
  after_add later r x result m,
  ground (arith, i.running, i.no_messages, h),
  ground (arith, lookup-assign_self r (x ∷ []) m.task_executor_map),
  ground (arith, lookup-assign_self r (last_status result, later) m.finished_task_status),
)
