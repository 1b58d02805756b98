-- ===== src/Task/Schedule.antt =====
-- src/primihub/task/semantic/parser.cc and src/primihub/task/semantic/scheduler/scheduler.cc: from the datasets of a task to the messages to its parties.
use Prim.Native.Nat.{ℕ}
use primihub.Prelude.{
  ◌==◌, Bool, true, false, Option, none, some, List, [], ◌∷◌, ◌++◌, map, if◌then◌else◌, Bytes,
  codes, Retcode, success, fail,
}
use primihub.Task.Datasets.{
  DatasetMeta, GetDatasetReply, no_handler, raised, handled, parse_datasets, find_peer_list,
}
use primihub.Task.{PartyNode, merge_party_access_info}
use primihub.Common.{fails, throws, out_of_range, Node, from_string, default_node, node}
use primihub.Grpc.Call.{PushTaskReply}
use primihub.Prelude.Dict.{Dict, assign, lookup}

-- `access_info.fromString(server_info)` on a new node; `none` for an exception or a read out of bounds.
-- Where it fails, the node stays as it was.
unfoldable pub access_info_of : Bytes → Option Node
access_info_of server_info = elim (from_string server_info default_node) [
  | node n ↦ some n
  | fails ↦ some default_node
  | throws ↦ none
  | out_of_range ↦ none
]

-- `metasToPartyAccessInfo`, the loop: a later entry for a party takes the place of an earlier one.
unfoldable pub access_loop : List (DatasetMeta × Bytes) → Dict Node → Option (Dict Node)
unfolding access_info_of
access_loop [] party_access_info = some party_access_info
access_loop ((meta, party_name) ∷ r) party_access_info = elim (access_info_of meta.server_info) [
  | none ↦ none
  | some n ↦ access_loop r (assign party_name n party_access_info)
]

unfoldable pub metas_to_party_access_info : List (DatasetMeta × Bytes) → Option (Dict Node)
unfolding access_loop
metas_to_party_access_info metas = access_loop metas []

-- `metasToPeerList`, the loop, with the peers so far.
abbrev is_new_peer : Bytes → List Node → Bool
is_new_peer id [] = true
is_new_peer id (p ∷ r) = if p.id == id then false else is_new_peer id r

unfoldable peer_loop : List DatasetMeta → List Node → Option (List Node)
unfolding access_info_of
peer_loop [] peers = some peers
peer_loop (meta ∷ r) peers = elim (access_info_of meta.server_info) [
  | none ↦ none
  | some n ↦ peer_loop r (if is_new_peer n.id peers then peers ++ n ∷ [] else peers)
]

unfoldable metas_to_peer_list : List DatasetMeta → Option (List Node)
unfolding peer_loop
metas_to_peer_list metas = peer_loop metas []

-- `metasToPeerDatasetMap`: the datasets of each node, with their parties.
unfoldable metas_to_peer_dataset_map :
    List (DatasetMeta × Bytes) → Dict (List (Bytes × Bytes)) → Option (Dict (List (Bytes × Bytes)))
unfolding access_info_of
metas_to_peer_dataset_map [] m = some m
metas_to_peer_dataset_map ((meta, tag) ∷ r) m = elim (access_info_of meta.server_info) [
  | none ↦ none
  | some n ↦ metas_to_peer_dataset_map r (elim (lookup n.id m) [
    | none ↦ assign n.id ((meta.id, tag) ∷ []) m
    | some q ↦ assign n.id (q ++ (meta.id, tag) ∷ []) m
  ])
]

-- `ParseDatasetToPartyAccessInfo` without the auxiliary server, for the server's replies to the search.
-- The code of the search is not looked at; `none` for an exception.
unfoldable pub find_parties :
    (ℕ → List Bytes → GetDatasetReply)
    → Dict (Dict Bytes)
    → Dict PartyNode
    → Option (Dict PartyNode)
unfolding parse_datasets find_peer_list metas_to_party_access_info
find_parties server party_datasets requested =
    elim (find_peer_list server (parse_datasets party_datasets)) [
      | no_handler ↦ some requested
      | raised ↦ none
      | handled metas ↦ elim (metas_to_party_access_info metas) [
        | none ↦ none
        | some found ↦ some (merge_party_access_info requested found)
      ]
    ]

-- `VMScheduler`: its error flag and the servers of the task.
pub record Scheduler : Type 0 where
  pub error : Bool
  pub task_server : List Node

abbrev pub new_scheduler : Scheduler
new_scheduler = record { error = false; task_server = [] }

-- `parseNotifyServer`: the constructor that it calls leaves the id empty.
unfoldable pub parse_notify_server : PushTaskReply → Scheduler → Scheduler
parse_notify_server reply s = record s {
  task_server = s.task_server ++ map (λ (n : Node). record n { id = [] }) reply.task_server;
}

-- `VMScheduler::ScheduleTask`, what it does with the result of `executeTask`.
unfoldable pub schedule_task : Retcode → Option PushTaskReply → Scheduler → Scheduler
unfolding parse_notify_server
schedule_task fail reply s = record s { error = true }
schedule_task success none s = s
schedule_task success (some reply) s = parse_notify_server reply s

-- The request that one party is sent.
pub record PartyRequest : Type 0 where
  pub party_name : Bytes
  pub party_access_info : Dict PartyNode
  pub auxiliary_server : Dict Node

abbrev scheduler_node : Bytes
scheduler_node = codes "SCHEDULER_NODE"

unfoldable send_request : Node → Bytes → PartyRequest → PartyRequest
send_request local_node party_name request = record request {
  party_name = party_name;
  auxiliary_server = assign scheduler_node local_node request.auxiliary_server;
}

-- `VMScheduler::dispatch`, from the results of `executeTask` for all parties in the order in which the
-- threads come to their ends: its code, and the servers of the task.
unfoldable pub schedule_all : List (Retcode × Option PushTaskReply) → Scheduler → Scheduler
unfolding schedule_task
schedule_all [] s = s
schedule_all ((ret, reply) ∷ r) s = schedule_all r (schedule_task ret reply s)

unfoldable pub dispatch : List (Retcode × Option PushTaskReply) → Retcode × List Node
unfolding schedule_all
dispatch results =
    let s = schedule_all results new_scheduler in (if s.error then fail else success, s.task_server)

-- `scheduleProtoTask` and `schedulePythonTask`, for the parties of the merged request: whether there is a
-- scheduler for the task, and the results for the parties. The code, and the servers for the reply.
unfoldable schedule_proto_task :
    Dict PartyNode → Bool → List (Retcode × Option PushTaskReply) → Retcode × List Node
unfolding dispatch
schedule_proto_task [] has_scheduler results = (fail, [])
schedule_proto_task (p ∷ r) false results = (fail, [])
schedule_proto_task (p ∷ r) true results = dispatch results
