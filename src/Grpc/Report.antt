-- ===== src/Grpc/Report.antt =====
-- src/primihub/util/network/grpc_link_context.cc and src/primihub/node/node_interface.cc: the calls that report and
-- end a running task, and that register a dataset. The state `none`: a handler threw an exception, and
-- what comes after it is not modelled.
use primihub.Prelude.{ℕ, ◌≡◌, refl, Option, none, some, List, ◌∷◌, Bytes, Retcode, success}
use primihub.Grpc.Call.{Attempt, replied, unanswered, call_loop, retry_loop}
use primihub.VmNode.{VmNode}
use primihub.VmNode.Dispatch.{update_status}
use primihub.VmNode.Exchange.{Killer, kill_task}
use primihub.Worker.{TaskStatus}
use primihub.Dataset.{Library, Service, MetaInfo, OpType, DatasetReply, new_dataset}

abbrev node_after : Option (Retcode × VmNode) → Option VmNode
node_after none = none
node_after (some (ret, m)) = some m

-- `VMNodeInterface::UpdateTaskStatus`: the status is OK whatever the node's code is.
unfoldable on_update_task_status : Bytes → TaskStatus → ℕ → Option VmNode → Option VmNode × Unit {0}
on_update_task_status worker_id status now none = (none, tt)
on_update_task_status worker_id status now (some n) =
    (node_after (update_status worker_id status n), tt)

-- `GrpcChannel::updateTaskStatus`.
unfoldable send_update_task_status :
    Bytes
    → TaskStatus
    → List Attempt
    → Option VmNode
    → Option (Retcode × Option (Unit {0}) × Option VmNode)
unfolding retry_loop on_update_task_status
send_update_task_status worker_id status = call_loop (on_update_task_status worker_id status) 0

-- `VMNodeInterface::KillTask`.
unfoldable on_kill_task : Killer → Bytes → Bytes → ℕ → Option VmNode → Option VmNode × Unit {0}
on_kill_task executor request_id worker_id now none = (none, tt)
on_kill_task executor request_id worker_id now (some n) =
    (kill_task executor request_id worker_id n, tt)

-- `GrpcChannel::killTask`.
unfoldable send_kill_task :
    Killer
    → Bytes
    → Bytes
    → List Attempt
    → Option VmNode
    → Option (Retcode × Option (Unit {0}) × Option VmNode)
unfolding retry_loop on_kill_task
send_kill_task executor request_id worker_id =
    call_loop (on_kill_task executor request_id worker_id) 0

-- `GrpcChannel::NewDataset` at a node with this service.
unfoldable send_new_dataset :
    {D : Type 0}
    → Library D
    → MetaInfo
    → OpType
    → List Attempt
    → Service D
    → Option (Retcode × Option DatasetReply × Service D)
unfolding retry_loop
send_new_dataset lib info op =
    call_loop (λ now s. let (reply, k) = new_dataset lib info op s in (k, reply)) 0

-- A report may arrive more than once: where an attempt ran but was not answered and the next one is, the
-- call succeeds, and the node has updated the status twice.
update_twice :
    (worker_id : Bytes) (status : TaskStatus) (t u : ℕ) (rest : List Attempt) (n m k : VmNode)
    (r s : Retcode)
    → update_status worker_id status n ≡ some (r, m)
    → update_status worker_id status m ≡ some (s, k)
    → send_update_task_status worker_id status (unanswered t ∷ replied u ∷ rest) (some n)
      ≡ some (success, some tt, some k)
unfolding send_update_task_status on_update_task_status retry_loop
update_twice worker_id status t u rest n m k r s e f = rw (e, f) refl
