-- ===== src/VmNode/Dispatch.antt =====
-- src/primihub/node/node_impl.cc: the scheduler's node. It dispatches a task, takes the statuses that
-- the parties report, and at the end tells the parties of a failed task to kill it. What the parser of
-- the task returns is an argument.
use primihub.Prelude.{
  ℕ, Bool, not, Option, none, some, List, [], ◌∷◌, ◌++◌, if◌then◌else◌, is_set, Bytes, codes, has,
  length, Retcode, success, fail,
}
use primihub.Prelude.Dict.{Dict, lookup, assign, insert}
use primihub.Common.{Node, to_string}
use primihub.Queue.{push}
use primihub.Worker.{
  Worker, TaskStatus, create, set_party_count, update_task_status, wait_until_task_finish,
}
use primihub.VmNode.{VmNode}

-- The parties in the configuration of a task (`rpc::Task`), in the order in which the maps are walked.
pub record TaskConfig : Type 0 where
  pub party_access_info : Dict Node
  pub auxiliary_server : Dict Node

abbrev aux_compute_node : Bytes
aux_compute_node = codes "AUXILIARY_COMPUTE_NODE"

abbrev values : Dict Node → List Node
values [] = []
values ((k, n) ∷ d) = n ∷ values d

-- `GetAllParties`.
unfoldable pub get_all_parties : TaskConfig → List Node
get_all_parties c =
    values c.party_access_info
    ++ (elim (lookup aux_compute_node c.auxiliary_server) [ none ↦ [] | some n ↦ n ∷ [] ])

-- One round of the loops that collect the nodes to be told: the filter and the nodes so far.
unfoldable pub collect_party : Node → List Bytes × List Node → List Bytes × List Node
collect_party party (filter, parties) =
    let node_info = to_string party in
    if has node_info filter then (filter, parties) else (node_info ∷ filter, parties ++ party ∷ [])

unfoldable pub collect_all : List Node → List Bytes × List Node → List Bytes × List Node
unfolding collect_party
collect_all [] acc = acc
collect_all (p ∷ ps) acc = collect_all ps (collect_party p acc)

-- The nodes that get the kill command: all parties of the task, then those it was dispatched to.
unfoldable pub recv_cmd_party : TaskConfig → List Node → List Node
unfolding collect_all get_all_parties
recv_cmd_party c parties = (collect_all parties (collect_all (get_all_parties c) ([], []))).1

-- The scheduler's thread for one task: `none` while it waits; then the nodes it sends the kill command
-- to, and the node with the task in the queue of finished ones.
unfoldable pub scheduler_func :
    TaskConfig → List Node → Bytes → Worker → VmNode → Option (List Node × VmNode)
unfolding recv_cmd_party
scheduler_func c parties request_id w n =
    let m = record n {
      finished_scheduler_workers = push request_id n.finished_scheduler_workers;
    } in
    elim (wait_until_task_finish w) [
      | none ↦ none
      | some success ↦ some ([], m)
      | some fail ↦ some (recv_cmd_party c parties, m)
    ]

-- `UpdateTaskStatus`: FAIL if there is no worker. `none` is an exception of the worker's promise.
unfoldable pub update_status : Bytes → TaskStatus → VmNode → Option (Retcode × VmNode)
update_status worker_id s n = elim (lookup worker_id n.task_scheduler_map) [
  | none ↦ some (fail, n)
  | some w ↦ elim (update_task_status s w) [
    | none ↦ none
    | some v ↦
        some (success, record n { task_scheduler_map = assign worker_id v n.task_scheduler_map })
  ]
]

unfoldable pub update_statuses : Bytes → List TaskStatus → VmNode → Option VmNode
unfolding update_status
update_statuses worker_id [] n = some n
update_statuses worker_id (s ∷ r) n = elim (update_status worker_id s n) [
  | none ↦ none
  | some (ret, m) ↦ update_statuses worker_id r m
]

-- How the parsing and sending of a task ends.
pub data Parsing : Type 0 where
  no_parser : Parsing
  not_dispatched : Parsing
  exception : Parsing
  dispatched : List Node → Parsing

-- `DispatchTask` up to the parsing: the worker is registered, unless the id is taken.
unfoldable pub register : Bytes → VmNode → VmNode
register worker_id n = record n {
  task_scheduler_map = insert worker_id (create worker_id) n.task_scheduler_map;
}

-- `worker_ptr->setPartyCount`: the new worker is the registered one if the id was free before.
unfoldable pub count_parties : Bytes → ℕ → Bool → VmNode → VmNode
count_parties worker_id count is_new n = elim (lookup worker_id n.task_scheduler_map) [
  | none ↦ n
  | some w ↦
      if is_new
      then record n {
        task_scheduler_map = assign worker_id (set_party_count count w) n.task_scheduler_map;
      }
      else n
]

-- `DispatchTask`, while whose parsing the statuses `early` come in: its code, the code in its reply, and
-- the node. `none` is an exception of a promise.
unfoldable pub dispatch_task :
    Bytes → List TaskStatus → Parsing → VmNode → Option (Retcode × ℕ × VmNode)
unfolding register update_statuses count_parties
dispatch_task worker_id early parsing n =
    let is_new = not (is_set (lookup worker_id n.task_scheduler_map)) in
    elim (update_statuses worker_id early (register worker_id n)) [
      | none ↦ none
      | some m ↦ elim parsing [
        | no_parser ↦ some (fail, 1, m)
        | not_dispatched ↦ some (fail, 1, m)
        | exception ↦ some (success, 2, m)
        | dispatched task_server ↦
            some (success, 0, count_parties worker_id (length task_server) is_new m)
      ]
    ]
