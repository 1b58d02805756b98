-- ===== src/Grpc.antt =====
-- src/primihub/util/network/grpc_link_context.cc and src/primihub/node/node_interface.cc: the messages in
-- which data travels between two nodes, and the loops that cut data into messages.
pub mod Packages
pub mod Server
pub mod Client
pub mod Deliver
pub mod Faults
pub mod Sequence
pub mod Forward
pub mod Call
pub mod Retry
pub mod Seen
pub mod Once
pub mod Report
pub mod Download
pub mod FirstFile
pub mod Context
pub mod Tests
use primihub.Prelude.{
  ℕ, zero, suc, ◌+◌, ◌-◌, ◌*◌, min, Option, none, some, List, [], ◌∷◌, ltb, if◌then◌else◌, Bytes,
  length, take, drop, Retcode, success,
}

-- `rpc::TaskContext`.
pub record TaskContext : Type 0 where
  pub task_id : Bytes
  pub job_id : Bytes
  pub request_id : Bytes
  pub sub_task_id : Bytes

abbrev pub no_context : TaskContext
no_context = record { task_id = []; job_id = []; request_id = []; sub_task_id = [] }

-- `rpc::TaskRequest`; `bytes` is its field `data`.
pub record TaskRequest : Type 0 where
  pub task_info : TaskContext
  pub role : Bytes
  pub data_len : ℕ
  pub bytes : Bytes

-- `rpc::TaskResponse`.
pub record TaskResponse : Type 0 where
  pub ret_code : Retcode
  pub msg_info : Bytes
  pub data_len : ℕ
  pub bytes : Bytes

abbrev pub limited_package_size : ℕ
limited_package_size = 3 * 1024 * 1024

-- The bytes of the package that starts behind the first `sended_size` ones. The loop keeps
-- `sended_size` at most the length, so the subtraction does not wrap.
abbrev pub part : ℕ → Bytes → ℕ → Bytes
part limit data_sv sended_size =
    take (min limit (length data_sv - sended_size)) (drop sended_size data_sv)

-- The loop that cuts data into messages, each made from its bytes: one round at least, and another
-- while not all has been sent. `none` if the fuel does not suffice.
unfoldable pub build_loop {ℓ} : {A : Type ℓ} → ℕ → ℕ → (Bytes → A) → Bytes → ℕ → Option (List A)
build_loop zero limit make data_sv sended_size = none
build_loop (suc fuel) limit make data_sv sended_size =
    let sent = sended_size + min limit (length data_sv - sended_size) in
    let rest = build_loop fuel limit make data_sv sent in
    let message = make (part limit data_sv sended_size) in
    if ltb sent (length data_sv)
    then elim rest [ none ↦ none | some ms ↦ some (message ∷ ms) ]
    else some (message ∷ [])

-- `GrpcChannel::buildTaskRequest` and `VMNodeInterface::BuildTaskRequest`.
unfoldable pub build_task_request : TaskContext → Bytes → Bytes → Option (List TaskRequest)
build_task_request info key data_sv =
    build_loop (suc (length data_sv)) limited_package_size
      (λ b. record { task_info = info; role = key; data_len = length data_sv; bytes = b }) data_sv 0

-- `VMNodeInterface::BuildTaskResponse`.
unfoldable pub build_task_response : Bytes → Option (List TaskResponse)
build_task_response data_sv =
    build_loop (suc (length data_sv)) limited_package_size
      (λ b. record { ret_code = success; msg_info = []; data_len = length data_sv; bytes = b })
      data_sv 0
