-- ===== src/VmNode/Tests.antt =====
-- Runs and instances for src/primihub/node/node_impl.cc.
use primihub.Prelude.{
  ◌==◌, ◌≡◌, refl, true, false, none, some, List, [], ◌∷◌, ◌++◌, Bytes, codes, has, success, fail,
}
use mathlib.Core.List.{Perm}
use primihub.Common.{Node}
use primihub.Worker.Verdict.{judge}
use primihub.Worker.{TaskStatus}
use primihub.VmNode.{manage_step, is_duplicate_task}
use primihub.VmNode.Dispatch.{
  TaskConfig, dispatch_task, dispatched, update_statuses, recv_cmd_party, get_all_parties,
}
use primihub.VmNode.Recipients.{AllDistinct, names, recv_cmd_party_lem}
use primihub.VmNode.Execute.{admit, execute_task, executor_func, manage_twice, IsIdle, task_ends}
use primihub.VmNode.Verdict.{dispatch-judge}
use primihub.Prelude.Dict.{lookup}
use primihub.Prelude.Keys.{contents}
use primihub.VmNode.{
  VmNode, Executor, Manage, empty, get_worker, is_duplicate_task, clean_duplicate_task_id_filter,
  is_finished_task,
}
use primihub.VmNode.Exchange.{kill_task, by_client}
use primihub.VmNode.Requests.{kill_task_by_client}
use primihub.VmNode.Life.{held, operate_all, operate_all-held, empty-IsWellFormed, add_of, del_of}
use primihub.Worker.{Worker, StatusCode, create, wait_until_task_finish}
use primihub.Link.{LinkContext}

abbrev task : Bytes
task = codes "a_b_c"

abbrev open_link : LinkContext
open_link = record { in_data = []; out_data = []; complete = []; stop = false }

abbrev executor : Executor
executor = record { handle = 7; link = some open_link }

abbrev life : List Manage
life = add_of task executor ∷ del_of task ∷ []

operate_all-held_example : Perm (held (operate_all life empty)) (executor ∷ [])
unfolding contents
operate_all-held_example = operate_all-held life empty empty-IsWellFormed

abbrev scheduling : VmNode
scheduling = record empty { task_scheduler_map = (task, create task) ∷ [] }

kill_task_by_client_example :
    (m : VmNode) × (v : Worker) × (kill_task by_client (codes "a_b") task scheduling ≡ some m)
    × (lookup task m.task_scheduler_map ≡ some v)
    × (wait_until_task_finish v ≡ some fail)
    × (lookup [] m.task_scheduler_map ≡ none)
unfolding lookup ◌==◌ is_finished_task create
kill_task_by_client_example =
    kill_task_by_client (codes "a_b") task (create task) scheduling refl refl refl refl [] refl

abbrev client_node : Node
client_node = record {
  id = codes "n0";
  ip = codes "10.0.0.1";
  port = 50050;
  use_tls = false;
  role = codes "CLIENT";
}

abbrev server_node : Node
server_node = record {
  id = codes "n1";
  ip = codes "10.0.0.2";
  port = 50051;
  use_tls = false;
  role = codes "SERVER";
}

abbrev parties : List Node
parties = client_node ∷ server_node ∷ []

abbrev config : TaskConfig
config = record {
  party_access_info = (codes "CLIENT", client_node) ∷ (codes "SERVER", server_node) ∷ [];
  auxiliary_server = [];
}

abbrev report : Bytes → StatusCode → TaskStatus
report p s = record { request_id = task; party = p; status = s; message = [] }

abbrev both_succeed : List TaskStatus
both_succeed =
    report (codes "CLIENT") StatusCode.success ∷ report (codes "SERVER") StatusCode.success ∷ []

dispatch-judge_example :
    (m₀ m : VmNode) × (v : Worker) × (dispatch_task task [] (dispatched parties) empty
      ≡ some (success, 0, m₀))
    × (update_statuses task both_succeed m₀ ≡ some m)
    × (lookup task m.task_scheduler_map ≡ some v)
    × (wait_until_task_finish v ≡ judge 2 [] both_succeed none)
unfolding lookup
dispatch-judge_example = dispatch-judge task parties both_succeed empty refl

recv_cmd_party_lem_example :
    AllDistinct (names (recv_cmd_party config parties))
    × ((s : Bytes)
        → has s (names (recv_cmd_party config parties))
          ≡ has s (names (get_all_parties config ++ parties)))
recv_cmd_party_lem_example = recv_cmd_party_lem config parties

empty-IsIdle : IsIdle empty
empty-IsIdle = record { running = refl; no_messages = refl }

task_ends_example :
    let (ret, sent, m) = execute_task 100 task (codes "0") executor success empty in
    (ret ≡ success)
    × (m.started ≡ task ∷ [])
    × ((k : VmNode) × (manage_twice (executor_func false 103 task (some success) m).1 ≡ some k)
        × (get_worker task k ≡ none)
        × (k.finished_task_queue.items ≡ (executor ∷ []) ∷ [])
        × (is_finished_task task k ≡ (true, StatusCode.success)))
    × ((k : VmNode) × (manage_step (executor_func true 103 task (some success) m).1 ≡ some k)
        × (get_worker task k ≡ some (some executor)))
unfolding admit is_duplicate_task lookup clean_duplicate_task_id_filter
task_ends_example =
    task_ends 100 103 task (codes "0") executor (some success) empty empty-IsIdle refl refl
