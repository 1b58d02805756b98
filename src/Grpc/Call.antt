-- ===== src/Grpc/Call.antt =====
-- src/primihub/util/network/grpc_link_context.cc: the calls of a `GrpcChannel` that send one request and take
-- one reply. The handler of the peer is an argument: it takes the time, and gives its new state and the
-- reply. What befalls each attempt is an argument too.
use primihub.Prelude.{
  ℕ, ◌+◌, Bool, true, false, Option, none, some, List, [], ◌∷◌, ltb, if◌then◌else◌, Bytes, Retcode,
  success, fail,
}
use primihub.Grpc.Client.{retry_max_times}
use primihub.VmNode.{VmNode, Executor}
use primihub.VmNode.Exchange.{stop_task}
use primihub.VmNode.Execute.{execute_task}
use primihub.Grpc.{TaskContext}
use primihub.Common.{Node}

-- How an attempt ends. `replied t`: the handler ran at the time `t`, and its reply came. `refused`: the
-- status is an error, and the handler did not run. `unanswered t`: the status is an error, such as that
-- of a deadline, though the handler ran.
pub data Attempt : Type 0 where
  replied : ℕ → Attempt
  refused : Attempt
  unanswered : ℕ → Attempt

module _ {ℓ κ} {S : Type ℓ} {R : Type κ} (handler : ℕ → S → S × R) where
  -- The loop of a call, with the number of retries so far; `again` is the condition behind its `while`, to
  -- which `continue` leads. `none`: the attempts that are listed do not end it.
  unfoldable pub retry_loop : Bool → ℕ → List Attempt → S → Option (Retcode × Option R × S)
  retry_loop again retry_time [] s = none
  retry_loop again retry_time (replied t ∷ r) s =
      let (m, reply) = handler t s in some (success, some reply, m)
  retry_loop again retry_time (refused ∷ r) s =
      let rest = retry_loop again (retry_time + 1) r s in
      if ltb (retry_time + 1) retry_max_times
      then (if again then rest else some (success, none, s))
      else some (fail, none, s)
  retry_loop again retry_time (unanswered t ∷ r) s =
      let m = (handler t s).0 in
      let rest = retry_loop again (retry_time + 1) r m in
      if ltb (retry_time + 1) retry_max_times
      then (if again then rest else some (success, none, m))
      else some (fail, none, m)

  -- `executeTask`, `StopTask`, `killTask`, `updateTaskStatus`, `fetchTaskStatus`,
  -- `CheckSendCompleteStatus` and `NewDataset`: `do … while (true)`.
  abbrev pub call_loop : ℕ → List Attempt → S → Option (Retcode × Option R × S)
  call_loop retry_time attempts s = retry_loop true retry_time attempts s

  -- `submitTask`: `do … while (0)`.
  unfoldable pub submit_task : List Attempt → S → Option (Retcode × Option R × S)
  unfolding retry_loop
  submit_task attempts s = retry_loop false 0 attempts s

-- `rpc::PushTaskReply`.
pub record PushTaskReply : Type 0 where
  pub task_info : TaskContext
  pub task_server : List Node

abbrev pub server_of : Node → Retcode → List Node
server_of service_node_info success = service_node_info ∷ []
server_of service_node_info fail = []

-- `VMNodeInterface::ExecuteTask`: the status is OK whatever the node's code is. A node that takes the
-- task adds its address to the reply.
unfoldable pub on_execute_task :
    Node → TaskContext → Executor → Retcode → ℕ → VmNode → VmNode × PushTaskReply
on_execute_task service_node_info info x ready now n =
    let (ret, statuses, m) = execute_task now info.request_id info.sub_task_id x ready n in
    (m, record { task_info = info; task_server = server_of service_node_info ret })

-- `GrpcChannel::executeTask`.
unfoldable pub send_execute_task :
    Node
    → TaskContext
    → Executor
    → Retcode
    → List Attempt
    → VmNode
    → Option (Retcode × Option PushTaskReply × VmNode)
unfolding retry_loop on_execute_task
send_execute_task service_node_info info x ready =
    call_loop (on_execute_task service_node_info info x ready) 0

-- `VMNodeInterface::StopTask`.
unfoldable on_stop_task : Bytes → ℕ → VmNode → VmNode × Unit {0}
on_stop_task request_id now n = (stop_task request_id n, tt)

-- `GrpcChannel::StopTask`.
unfoldable send_stop_task :
    Bytes → List Attempt → VmNode → Option (Retcode × Option (Unit {0}) × VmNode)
unfolding retry_loop on_stop_task
send_stop_task request_id = call_loop (on_stop_task request_id) 0
