-- ===== src/Grpc/Server.antt =====
-- src/primihub/node/node_interface.cc: the handlers that read and write streams of messages. What happens at
-- the node while a handler waits for the task's worker is an argument, as for the handlers of the node.
use primihub.Prelude.{
  Bool, true, false, Option, none, some, List, [], ◌∷◌, ◌++◌, Bytes, codes, Retcode, success, fail,
}
use primihub.Grpc.{
  TaskContext, TaskRequest, TaskResponse, no_context, build_task_request, build_task_response,
}
use primihub.VmNode.{VmNode}
use primihub.VmNode.Exchange.{
  process_received_data, Handled, process_forward_data, process_send_data, sleeps, replies,
}

-- The variables of the loop that reads a stream.
pub record Received : Type 0 where
  pub task_info : TaskContext
  pub key : Bytes
  pub received_data : Bytes

abbrev pub nothing : Received
nothing = record { task_info = no_context; key = []; received_data = [] }

-- The loop: the first message has the task and the key, and each adds its bytes.
unfoldable pub read_stream : Bool → Received → List TaskRequest → Received
read_stream recv_meta_info s [] = s
read_stream true s (q ∷ r) =
    read_stream true (record s { received_data = s.received_data ++ q.bytes }) r
read_stream false s (q ∷ r) =
    read_stream true
      (record { task_info = q.task_info; key = q.role; received_data = s.received_data ++ q.bytes })
      r

abbrev empty_response : TaskResponse
empty_response = record { ret_code = success; msg_info = []; data_len = 0; bytes = [] }

-- The last lines of `Send`: what `ret_code` has in the end.
unfoldable pub set_ret_code : Retcode → TaskResponse → TaskResponse
set_ret_code ret response =
    let marked : TaskResponse = elim ret [
      | fail ↦ record response { ret_code = fail }
      | success ↦ response
    ] in
    record marked { ret_code = success }

-- `VMNodeInterface::Send`.
unfoldable pub on_send : List TaskRequest → VmNode → Retcode → VmNode → TaskResponse × VmNode
unfolding read_stream set_ret_code
on_send stream entry ready n =
    let s = read_stream false nothing stream in
    let (ret, m) =
      process_received_data s.task_info.request_id s.key s.received_data entry ready n in
    (set_ret_code ret empty_response, m)

-- What a handler does that answers with a stream: it sleeps, or writes messages and leaves a node.
-- `none` if the loop that cuts the data had no fuel left.
pub data Answer (A : Type 0) : Type 0 where
  asleep : VmNode → Answer A
  writes : Option (List A) → VmNode → Answer A

abbrev no_data : Bytes → Bytes
no_data key = codes "no data is available for key:" ++ key

abbrev pub failure : Bytes → TaskResponse
failure msg = record { ret_code = fail; msg_info = msg; data_len = 0; bytes = [] }

abbrev filled : Option Bytes → Bytes
filled none = []
filled (some b) = b

-- What `Recv` does with the result of `ProcessSendData`.
unfoldable respond : Bytes → Handled Bytes → Answer TaskResponse
respond key (sleeps m) = asleep m
respond key (replies fail o m) = writes (some (failure (no_data key) ∷ [])) m
respond key (replies success o m) = writes (build_task_response (filled o)) m

-- `VMNodeInterface::Recv`.
unfoldable on_recv : TaskContext → Bytes → VmNode → Retcode → VmNode → Answer TaskResponse
unfolding respond
on_recv info key entry ready n = respond key (process_send_data info.request_id key entry ready n)

-- `VMNodeInterface::SendRecv`. Between its two halves the node may change: `later` gives the node on
-- which the second half comes, the code of its wait, and the node then.
unfoldable on_send_recv :
    List TaskRequest
    → VmNode
    → Retcode
    → VmNode
    → (VmNode → VmNode × Retcode × VmNode)
    → Answer TaskResponse
unfolding read_stream on_recv
on_send_recv stream entry ready n later =
    let s = read_stream false nothing stream in
    let (ret, m) =
      process_received_data s.task_info.request_id s.key s.received_data entry ready n in
    let (entry', ready', k) = later m in
    elim ret [
      | fail ↦ writes (some (failure (codes "ProcessReceivedData encountes error") ∷ [])) m
      | success ↦ on_recv s.task_info s.key entry' ready' k
    ]

abbrev empty_request : TaskRequest
empty_request = record { task_info = no_context; role = []; data_len = 0; bytes = [] }

-- What `ForwardRecv` does with the result of `ProcessForwardData`.
unfoldable pub pass_on : TaskContext → Bytes → Handled Bytes → Answer TaskRequest
pass_on info key (sleeps m) = asleep m
pass_on info key (replies fail o m) = writes (some (empty_request ∷ [])) m
pass_on info key (replies success o m) = writes (build_task_request info key (filled o)) m

-- `VMNodeInterface::ForwardRecv`.
unfoldable pub on_forward_recv :
    TaskContext → Bytes → VmNode → Retcode → VmNode → Answer TaskRequest
unfolding pass_on
on_forward_recv info key entry ready n =
    pass_on info key (process_forward_data info.request_id key entry ready n)
