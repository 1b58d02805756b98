-- ===== src/Grpc/Client.antt =====
-- src/primihub/util/network/grpc_link_context.cc: what a `GrpcChannel` does with the data of a task. What
-- befalls each attempt on its way is an argument.
use primihub.Prelude.{
  ℕ, ◌+◌, Bool, true, false, Option, none, some, List, [], ◌∷◌, ◌++◌, ltb, if◌then◌else◌, Bytes,
  take, Retcode, success, fail,
}
use primihub.Grpc.{TaskContext, TaskRequest, TaskResponse, build_task_request}
use primihub.Grpc.Server.{on_send}
use primihub.VmNode.{VmNode}

-- `retry_max_times_`.
abbrev pub retry_max_times : ℕ
retry_max_times = 3

-- How an attempt to send a stream ends. `answered`: the peer read all messages, and its response came.
-- `unreached`: the status is an error, and the peer's handler did not run. `cut k`: the status is an
-- error, and the handler read the first `k` messages before the stream broke, and ran to its end.
pub data Fate : Type 0 where
  answered : Fate
  unreached : Fate
  cut : ℕ → Fate

-- The loop of `GrpcChannel::send` at a peer whose workers are ready, with the number of retries so far.
-- `none`: the attempts that are listed do not end it.
unfoldable pub send_loop : ℕ → List TaskRequest → List Fate → VmNode → Option (Retcode × VmNode)
unfolding on_send
send_loop retry_time requests [] n = none
send_loop retry_time requests (answered ∷ r) n =
    let (response, m) = on_send requests n success n in some (response.ret_code, m)
send_loop retry_time requests (unreached ∷ r) n =
    let rest = send_loop (retry_time + 1) requests r n in
    if ltb (retry_time + 1) retry_max_times then rest else some (fail, n)
send_loop retry_time requests (cut k ∷ r) n =
    let m = (on_send (take k requests) n success n).1 in
    let rest = send_loop (retry_time + 1) requests r m in
    if ltb (retry_time + 1) retry_max_times then rest else some (fail, m)

-- `GrpcChannel::send`.
unfoldable pub send : TaskContext → Bytes → Bytes → List Fate → VmNode → Option (Retcode × VmNode)
unfolding build_task_request send_loop
send info key data_sv fates n = elim (build_task_request info key data_sv) [
  | none ↦ none
  | some requests ↦ send_loop 0 requests fates n
]

-- `send_wrapper`.
unfoldable send_wrapper : TaskContext → Bytes → Bytes → List Fate → VmNode → Option (Bool × VmNode)
unfolding send
send_wrapper info key data_sv fates n = elim (send info key data_sv fates n) [
  | none ↦ none
  | some (success, m) ↦ some (true, m)
  | some (fail, m) ↦ some (false, m)
]

-- The loop of `sendRecv` over the responses that it reads: each adds its bytes.
unfoldable append_responses : Bytes → List TaskResponse → Bytes
append_responses recv_data [] = recv_data
append_responses recv_data (q ∷ r) = append_responses (recv_data ++ q.bytes) r

-- The end of `GrpcChannel::sendRecv`, with the buffer, the responses that came and whether the status is
-- OK.
unfoldable take_responses : Bytes → List TaskResponse → Bool → Retcode × Bytes
unfolding append_responses
take_responses recv_data responses status =
    (if status then success else fail, append_responses recv_data responses)

-- The loop of `forwardRecv`.
unfoldable pub append_requests : Bytes → List TaskRequest → Bytes
append_requests tmp_buff [] = tmp_buff
append_requests tmp_buff (q ∷ r) = append_requests (tmp_buff ++ q.bytes) r

-- `GrpcChannel::forwardRecv`, with the messages that came and whether the status is OK.
unfoldable pub take_forwarded : List TaskRequest → Bool → Bytes
unfolding append_requests
take_forwarded messages status = if status then append_requests [] messages else []
