-- ===== src/VmNode/Exchange.antt =====
-- src/primihub/node/node_impl.cc: the handlers that stop or kill a task and those that carry its data,
-- and the wait for its worker.
use primihub.Prelude.{
  ℕ, Option, none, some, List, [], ◌∷◌, ltb, if◌then◌else◌, Bytes, codes, Retcode, success, fail,
}
use primihub.Prelude.Dict.{lookup, assign}
use primihub.VmNode.{
  VmNode, Executor, OperateTaskType, is_task_worker_ready, is_finished_task, get_worker,
  get_scheduler_worker,
}
use primihub.Worker.{StatusCode, TaskStatus, update_task_status}
use primihub.Queue.{push}
use primihub.Link.{LinkContext, Call, waits, returns, deliver, fetch, forward, await_complete}

-- `StopTask`: a DEL message for the manage thread.
unfoldable pub stop_task : Bytes → VmNode → VmNode
stop_task worker_id n = record n {
  task_manage_queue =
      push (record { worker_id = worker_id; executor = none; operation = OperateTaskType.del })
        n.task_manage_queue;
}

-- `rpc::KillTaskRequest::executor`.
pub data Killer : Type 0 where
  by_client : Killer
  by_scheduler : Killer

-- The status that a kill by the client reports to the worker of the scheduler.
abbrev pub kill_status : Bytes → TaskStatus
kill_status request_id = record {
  request_id = request_id;
  party = codes "SCHEDULER";
  status = StatusCode.fail;
  message = codes "kill task by client actively";
}

-- The worker is shared, so its update shows in the table. `none` is an exception of its promise.
unfoldable pub fail_worker : Bytes → Bytes → VmNode → Option VmNode
fail_worker request_id worker_id n = elim (get_scheduler_worker worker_id n) [
  | none ↦ some n
  | some w ↦ elim (update_task_status (kill_status request_id) w) [
    | none ↦ none
    | some v ↦ some (record n { task_scheduler_map = assign worker_id v n.task_scheduler_map })
  ]
]

unfoldable pub kill_task : Killer → Bytes → Bytes → VmNode → Option VmNode
unfolding fail_worker
kill_task executor request_id worker_id n =
    if (is_finished_task worker_id n).0 then some n else elim executor [
      | by_client ↦ fail_worker request_id worker_id n
      | by_scheduler ↦ some (record n {
        task_manage_queue =
            push
              (record { worker_id = worker_id; executor = none; operation = OperateTaskType.kill })
              n.task_manage_queue;
      })
    ]

-- `WaitUntilWorkerReady` on the nodes that its polls find and the times that its timer shows after the
-- sleep of each poll; no limit is `timeout_ms == -1`. `none`: it polls on.
unfoldable pub wait_until_worker_ready : Bytes → Option ℕ → List (VmNode × ℕ) → Option Retcode
wait_until_worker_ready worker_id timeout_ms [] = none
wait_until_worker_ready worker_id timeout_ms ((n, elapsed) ∷ polls) =
    let rest = wait_until_worker_ready worker_id timeout_ms polls in
    if is_task_worker_ready worker_id n
    then some success
    else elim timeout_ms [ none ↦ rest | some ms ↦ if ltb ms elapsed then some fail else rest ]

-- The guards that the four data handlers share: the task is not finished when the request comes, the
-- wait for its worker succeeds, and the worker that is then found has a link context. The front of an
-- empty queue of executors is not read: `get_worker_never_empty`.
unfoldable pub find_link : Bytes → VmNode → Retcode → VmNode → Option LinkContext
find_link worker_id entry ready n =
    let found : Option LinkContext = elim (get_worker worker_id n) [
      | none ↦ none
      | some none ↦ none
      | some (some x) ↦ x.link
    ] in
    if (is_finished_task worker_id entry).0
    then none
    else elim ready [ fail ↦ none | success ↦ found ]

-- The context is shared with the task, so its update shows in the first executor.
abbrev relink : LinkContext → List Executor → List Executor
relink l [] = []
relink l (x ∷ r) = record x { link = some l } ∷ r

unfoldable pub put_link : Bytes → LinkContext → VmNode → VmNode
put_link worker_id l n = elim (lookup worker_id n.task_executor_map) [
  | none ↦ n
  | some q ↦ record n { task_executor_map = assign worker_id (relink l q) n.task_executor_map }
]

-- `ProcessReceivedData` of a request that comes on the node `entry` and whose wait returns `ready` on
-- the node `n`.
unfoldable pub process_received_data :
    Bytes → Bytes → Bytes → VmNode → Retcode → VmNode → Retcode × VmNode
unfolding find_link put_link
process_received_data worker_id key data_buffer entry ready n =
    elim (find_link worker_id entry ready n) [
      | none ↦ (fail, n)
      | some l ↦ (success, put_link worker_id (deliver key data_buffer l) n)
    ]

pub data Handled {ℓ} (A : Type ℓ) : Type ℓ where
  sleeps : VmNode → Handled A
  replies : Retcode → Option A → VmNode → Handled A

abbrev handle {ℓ} : {A : Type ℓ} → Bytes → VmNode → Call A → Handled A
handle worker_id n (waits l) = sleeps (put_link worker_id l n)
handle worker_id n (returns r a l) = replies success (some a) (put_link worker_id l n)

unfoldable pub process_send_data : Bytes → Bytes → VmNode → Retcode → VmNode → Handled Bytes
unfolding find_link put_link
process_send_data worker_id key entry ready n = elim (find_link worker_id entry ready n) [
  | none ↦ replies fail none n
  | some l ↦ handle worker_id n (fetch key l)
]

unfoldable pub process_forward_data : Bytes → Bytes → VmNode → Retcode → VmNode → Handled Bytes
unfolding find_link put_link
process_forward_data worker_id key entry ready n = elim (find_link worker_id entry ready n) [
  | none ↦ replies fail none n
  | some l ↦ handle worker_id n (forward key l)
]

unfoldable process_complete_status :
    Bytes → Bytes → ℕ → VmNode → Retcode → VmNode → Handled (Unit {0})
unfolding find_link put_link
process_complete_status worker_id key expected_complete_num entry ready n =
    elim (find_link worker_id entry ready n) [
      | none ↦ replies fail none n
      | some l ↦ handle worker_id n (await_complete key expected_complete_num l)
    ]
