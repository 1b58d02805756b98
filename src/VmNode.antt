-- ===== src/VmNode.antt =====
-- src/primihub/node/node_impl.{h,cc}: the tables of a `VMNodeImpl` and the operations on them. Time is
-- an argument. The worker of a task and its future are one `Executor`, of which the node uses the
-- link context.
pub mod Life
pub mod Exchange
pub mod Requests
pub mod Dispatch
pub mod Recipients
pub mod Execute
pub mod Verdict
pub mod Shutdown
pub mod Cleanup
pub mod Tables
pub mod Tests
use primihub.Prelude.{
  ℕ, ◌-◌, Bool, true, false, Option, none, some, List, [], ◌∷◌, ◌++◌, ltb, if◌then◌else◌, is_set,
  Bytes,
}
use primihub.Prelude.Dict.{Dict, lookup, assign, erase, insert}
use primihub.Queue.{Queue, push, wait_and_pop, blocked, stopped, popped}
use primihub.Link.{LinkContext}
use primihub.Worker.{Worker, StatusCode}

pub data OperateTaskType : Type 0 where
  unknown : OperateTaskType
  add : OperateTaskType
  del : OperateTaskType
  kill : OperateTaskType

-- `task_executor_t`. The link context is null for a task that runs without one.
pub record Executor : Type 0 where
  pub handle : ℕ
  pub link : Option LinkContext

-- `task_manage_t`: the worker's id, the executor (null for DEL and KILL), and the operation.
pub record Manage : Type 0 where
  pub worker_id : Bytes
  pub executor : Option Executor
  pub operation : OperateTaskType

-- `VMNodeImpl`. `started` has the workers' ids of the threads that were started to run tasks, in their
-- order.
pub record VmNode : Type 0 where
  pub task_executor_map : Dict (List Executor)
  pub task_scheduler_map : Dict Worker
  pub finished_task_status : Dict (StatusCode × ℕ)
  pub duplicate_task_id_filter : Dict ℕ
  pub started : List Bytes
  pub task_manage_queue : Queue Manage
  pub finished_task_queue : Queue (List Executor)
  pub kill_task_queue : Queue (List Executor)
  pub finished_scheduler_workers : Queue Bytes
  pub finished_workers : Queue Bytes
  pub write_flag : Bool
  pub stop : Bool

abbrev pub empty : VmNode
empty = record {
  task_executor_map = [];
  task_scheduler_map = [];
  finished_task_status = [];
  duplicate_task_id_filter = [];
  started = [];
  task_manage_queue = record { items = []; stop = false };
  finished_task_queue = record { items = []; stop = false };
  kill_task_queue = record { items = []; stop = false };
  finished_scheduler_workers = record { items = []; stop = false };
  finished_workers = record { items = []; stop = false };
  write_flag = false;
  stop = false;
}

-- `ExecuteAddTaskOperation`: behind the executors of the worker's id, or as the first of them. The
-- executor of an ADD is never null.
unfoldable pub execute_add : Bytes → Executor → VmNode → VmNode
execute_add worker_id x n = elim (lookup worker_id n.task_executor_map) [
  | some q ↦ record n { task_executor_map = assign worker_id (q ++ x ∷ []) n.task_executor_map }
  | none ↦ record n {
    task_executor_map = assign worker_id (x ∷ []) n.task_executor_map;
    write_flag = false;
  }
]

-- `ExecuteDelTaskOperation`: the executors go to the thread that destroys them.
unfoldable pub execute_del : Bytes → VmNode → VmNode
execute_del worker_id n = elim (lookup worker_id n.task_executor_map) [
  | some q ↦ record n {
    task_executor_map = erase worker_id n.task_executor_map;
    finished_task_queue = push q n.finished_task_queue;
    write_flag = false;
  }
  | none ↦ record n { write_flag = false }
]

-- `ExecuteKillTaskOperation`: the executors go to the thread that kills them.
unfoldable pub execute_kill : Bytes → VmNode → VmNode
execute_kill worker_id n = elim (lookup worker_id n.task_executor_map) [
  | some q ↦ record n {
    task_executor_map = erase worker_id n.task_executor_map;
    kill_task_queue = push q n.kill_task_queue;
    write_flag = false;
  }
  | none ↦ record n { write_flag = false }
]

abbrev add_some : Bytes → Option Executor → VmNode → VmNode
add_some worker_id none n = n
add_some worker_id (some x) n = execute_add worker_id x n

-- The `switch` of the manage thread.
unfoldable pub switch : OperateTaskType → Bytes → Option Executor → VmNode → VmNode
unfolding execute_add execute_del execute_kill
switch OperateTaskType.add worker_id executor n = add_some worker_id executor n
switch OperateTaskType.del worker_id executor n = execute_del worker_id n
switch OperateTaskType.kill worker_id executor n = execute_kill worker_id n
switch OperateTaskType.unknown worker_id executor n = n

abbrev pub operate : Manage → VmNode → VmNode
operate m n = switch m.operation m.worker_id m.executor n

-- One round of `ManageTaskOperatorThread`; `none` if the thread sleeps or leaves. A queue that is shut
-- down leaves the message as it is, with the operation 0.
unfoldable pub manage_step : VmNode → Option VmNode
unfolding switch
manage_step n = elim (wait_and_pop n.task_manage_queue) [
  | blocked ↦ none
  | stopped ↦ if n.stop then none else some n
  | popped m q ↦ if n.stop then none else some (operate m (record n { task_manage_queue = q }))
]

-- `CacheLastTaskStatus`.
unfoldable pub cache_last_task_status : ℕ → Bytes → StatusCode → VmNode → VmNode
cache_last_task_status now worker_id status n = record n {
  finished_task_status = assign worker_id (status, now) n.finished_task_status;
}

-- `IsFinishedTask`.
unfoldable pub is_finished_task : Bytes → VmNode → Bool × StatusCode
is_finished_task worker_id n = elim (lookup worker_id n.finished_task_status) [
  | some (status, time) ↦ (true, status)
  | none ↦ (false, StatusCode.finished)
]

abbrev pub cached_task_status_timeout : ℕ
cached_task_status_timeout = 5

-- The ids whose entry is older than the limit: the keys that the clean-up loops collect. Times are
-- differences of a signed `time_t`, so an entry from the future is not old.
unfoldable pub timed_out {ℓ} : {V : Type ℓ} → (V → ℕ) → ℕ → ℕ → Dict V → List Bytes
timed_out time limit now [] = []
timed_out time limit now ((k, v) ∷ m) =
    let rest = timed_out time limit now m in if ltb limit (now - time v) then k ∷ rest else rest

unfoldable pub erase_all {ℓ} : {V : Type ℓ} → List Bytes → Dict V → Dict V
erase_all [] m = m
erase_all (k ∷ ks) m = erase_all ks (erase k m)

-- One round of `CleanTimeoutCachedTaskStatusThread`.
unfoldable pub clean_timeout_cached_task_status : ℕ → VmNode → VmNode
unfolding timed_out erase_all
clean_timeout_cached_task_status now n =
    let ids =
      timed_out (λ (s : StatusCode × ℕ). s.1) cached_task_status_timeout now
        n.finished_task_status in
    record n { finished_task_status = erase_all ids n.finished_task_status }

abbrev pub task_id_timeout : ℕ
task_id_timeout = 30

-- `CleanDuplicateTaskIdFilter`.
unfoldable pub clean_duplicate_task_id_filter : ℕ → VmNode → VmNode
unfolding timed_out erase_all
clean_duplicate_task_id_filter now n =
    let ids = timed_out (λ (t : ℕ). t) task_id_timeout now n.duplicate_task_id_filter in
    record n { duplicate_task_id_filter = erase_all ids n.duplicate_task_id_filter }

-- `task_info.request_id() + "_" + task_info.sub_task_id()`.
abbrev pub task_uid : Bytes → Bytes → Bytes
task_uid request_id sub_task_id = request_id ++ (b'_' ∷ sub_task_id)

-- `IsDuplicateTask`: an id that is new is noted.
unfoldable pub is_duplicate_task : ℕ → Bytes → Bytes → VmNode → Bool × VmNode
is_duplicate_task now request_id sub_task_id n =
    let uid = task_uid request_id sub_task_id in
    elim (lookup uid n.duplicate_task_id_filter) [
      | some t ↦ (true, n)
      | none ↦
          (false, record n { duplicate_task_id_filter = insert uid now n.duplicate_task_id_filter })
    ]

-- `GetWorker`: the first executor of the id. An entry with no executor would be a read of an empty
-- queue, `some none`.
unfoldable pub get_worker : Bytes → VmNode → Option (Option Executor)
get_worker worker_id n = elim (lookup worker_id n.task_executor_map) [
  | none ↦ none
  | some [] ↦ some none
  | some (x ∷ r) ↦ some (some x)
]

unfoldable pub get_scheduler_worker : Bytes → VmNode → Option Worker
get_scheduler_worker worker_id n = lookup worker_id n.task_scheduler_map

-- `IsTaskWorkerReady`.
unfoldable pub is_task_worker_ready : Bytes → VmNode → Bool
is_task_worker_ready worker_id n =
    let found : Bool = is_set (lookup worker_id n.task_executor_map) in
    if n.write_flag then false else found
