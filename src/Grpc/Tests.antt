-- ===== src/Grpc/Tests.antt =====
-- Runs and instances for src/primihub/util/network/grpc_link_context.cc, src/primihub/node/node_interface.cc and
-- src/primihub/node/ds.cc.
use primihub.Prelude.{
  ◌==◌, ℕ, ◌+◌, ◌-◌, ◌/◌, ◌≡◌, refl, true, false, Option, none, some, List, [], ◌∷◌, ◌++◌, map,
  arith, if◌then◌else◌, Bytes, codes, length, All, success,
}
use primihub.Grpc.{TaskContext, TaskRequest, limited_package_size, build_task_request}
use primihub.Grpc.Packages.{joined, request_bytes, IsPackage, build_task_request_lem}
use primihub.Grpc.Client.{answered, cut, unreached, send, take_forwarded}
use primihub.Grpc.Sequence.{send_many, send_many-recv_many}
use primihub.Grpc.Faults.{send_twice, send_lost}
use primihub.Grpc.Call.{
  replied, refused, unanswered, call_loop, submit_task, PushTaskReply, send_execute_task,
}
use primihub.Grpc.Retry.{left_by, reply_by, until_reply, submit_task_succeeds}
use primihub.Grpc.Once.{executes_once}
use primihub.Grpc.Seen.{IsNew, add_message}
use primihub.Grpc.Download.{DownloadResponse, on_download, download_data, download_impl}
use primihub.Grpc.FirstFile.{download_first}
use primihub.Grpc.Context.{whole, store, IsPlain, get_channel, access, get_channel-access}
use primihub.Prelude.Dict.{lookup}
use primihub.Common.{Node, to_string}
use primihub.VmNode.{VmNode, Executor, empty, is_finished_task, get_worker}
use primihub.VmNode.Requests.{link_of}
use primihub.Link.{LinkContext}
use primihub.Link.Order.{recv_many, pending, addressed, IsOpen}
use primihub.Queue.{push}
use primihub.VmNode.Exchange.{find_link}
use primihub.Grpc.Server.{on_forward_recv, writes}
use primihub.Grpc.Forward.{take_forwarded-on_forward_recv, acknowledged}

abbrev info : TaskContext
info = record {
  task_id = codes "t";
  job_id = codes "j";
  request_id = codes "r";
  sub_task_id = codes "0";
}

abbrev open_link : LinkContext
open_link = record { in_data = []; out_data = []; complete = []; stop = false }

open_link-IsOpen : IsOpen open_link
unfolding lookup
open_link-IsOpen = record { running = refl; open_queues = λ k q e. ground (arith, e) }

abbrev runner : Executor
runner = record { handle = 7; link = some open_link }

abbrev running : VmNode
running = record empty { task_executor_map = (codes "r", runner ∷ []) ∷ [] }

running-link_of : link_of (codes "r") running ≡ some open_link
unfolding lookup ◌==◌ find_link is_finished_task get_worker
running-link_of = refl

empty-link_of : link_of (codes "r") empty ≡ none
unfolding lookup find_link is_finished_task get_worker
empty-link_of = refl

abbrev k : Bytes
k = codes "k"

abbrev sends : List ((Bytes × Bytes) × ℕ)
sends = ((k, 1 ∷ []), 2) ∷ ((codes "j", 2 ∷ []), 0) ∷ ((k, 3 ∷ []), 1) ∷ []

send_many-recv_many_example :
    (m : VmNode) × (v : LinkContext) × (send_many info sends running ≡ some m)
    × (link_of (codes "r") m ≡ some v)
    × (recv_many 2 k v ≡ some ((1 ∷ []) ∷ (3 ∷ []) ∷ []))
unfolding lookup ◌==◌ pending addressed
send_many-recv_many_example =
    send_many-recv_many info k sends open_link running running-link_of open_link-IsOpen refl
      (omega arith)

build_task_request_lem_example :
    (qs : List TaskRequest) × (build_task_request info k (1 ∷ 2 ∷ []) ≡ some qs)
    × (joined (map request_bytes qs) ≡ 1 ∷ 2 ∷ [])
    × All (IsPackage info k (1 ∷ 2 ∷ [])) qs
    × (length qs ≡ 1 + (2 - 1) / limited_package_size)
build_task_request_lem_example = build_task_request_lem info k (1 ∷ 2 ∷ [])

send_twice_example :
    (b : Bytes) × (c : Bytes) × (m : VmNode) × (v : LinkContext) × (b ++ c ≡ 5 ∷ [])
    × (send info k (5 ∷ []) (cut 1 ∷ answered ∷ []) running ≡ some (success, m))
    × (link_of (codes "r") m ≡ some v)
    × (pending k v ≡ pending k open_link ++ b ∷ (5 ∷ []) ∷ [])
send_twice_example =
    send_twice info k (5 ∷ []) 1 [] open_link running running-link_of open_link-IsOpen (omega arith)

send_lost_example : send info k (5 ∷ []) (answered ∷ unreached ∷ []) empty ≡ some (success, empty)
send_lost_example = send_lost info k (5 ∷ []) (unreached ∷ []) empty empty-link_of

abbrev full_link : LinkContext
full_link = record open_link {
  in_data = (k, record { items = (5 ∷ []) ∷ (6 ∷ []) ∷ []; stop = false }) ∷ [];
}

full_link-IsOpen : IsOpen full_link
unfolding lookup ◌==◌
full_link-IsOpen = record { running = refl; open_queues = λ j q e. ground (arith, e) }

abbrev holding : VmNode
holding = record empty {
  task_executor_map = (codes "r", record { handle = 7; link = some full_link } ∷ []) ∷ [];
}

holding-link_of : link_of (codes "r") holding ≡ some full_link
unfolding lookup ◌==◌ find_link is_finished_task get_worker
holding-link_of = refl

take_forwarded-on_forward_recv_example :
    (ms : List TaskRequest) × (m : VmNode) × (v : LinkContext) × (on_forward_recv info k holding
        success holding
      ≡ writes (some ms) m)
    × (take_forwarded ms true ≡ 5 ∷ [])
    × (link_of (codes "r") m ≡ some v)
    × ((j : Bytes) → pending j v ≡ (if j == k then (6 ∷ []) ∷ [] else pending j full_link))
    × ((j : Bytes)
        → acknowledged j v
          ≡ (if j == k then acknowledged k full_link ++ success ∷ [] else acknowledged j full_link))
take_forwarded-on_forward_recv_example =
    take_forwarded-on_forward_recv info k (5 ∷ []) ((6 ∷ []) ∷ []) full_link holding holding-link_of
      full_link-IsOpen (unfold pending lookup ◌==◌ in refl)

submit_task_succeeds_example :
    (submit_task (λ (t s : ℕ). (s + 1, t)) (unanswered 4 ∷ refused ∷ replied 9 ∷ []) 0
      ≡ some (success, none, 1))
    × (call_loop (λ (t s : ℕ). (s + 1, t)) 0 (unanswered 4 ∷ refused ∷ replied 9 ∷ []) 0
        ≡ some (success, some 9, 2))
unfolding left_by reply_by until_reply
submit_task_succeeds_example =
    submit_task_succeeds (λ (t s : ℕ). (s + 1, t)) (unanswered 4) refused (replied 9) [] 0

abbrev party : Node
party = record {
  id = codes "n1";
  ip = codes "10.0.0.1";
  port = 50050;
  use_tls = false;
  role = codes "default";
}

abbrev other : Node
other = record {
  id = codes "n2";
  ip = codes "10.0.0.2";
  port = 50051;
  use_tls = true;
  role = codes "default";
}

empty-IsNew : IsNew info empty
unfolding lookup
empty-IsNew = record { unique = tt; unseen = refl }

executes_once_example :
    (o : Option PushTaskReply) × (m : VmNode) × (send_execute_task party info runner success
        (unanswered 10 ∷ unanswered 15 ∷ replied 20 ∷ [])
        empty
      ≡ some (success, o, m))
    × (m.started ≡ codes "r" ∷ [])
    × (m.task_manage_queue ≡ push (add_message info runner) empty.task_manage_queue)
executes_once_example =
    executes_once party info runner success 10 (unanswered 10) (unanswered 15) (replied 20) [] empty
      (omega arith) empty-IsNew

abbrev files : Bytes → Option Bytes
files f = if f == codes "a" then some (1 ∷ 2 ∷ []) else some (3 ∷ [])

download_first_example :
    (qs : List DownloadResponse) × (ks : List Bytes) × (on_download files 4
        (codes "a" ∷ codes "b" ∷ [])
      ≡ some qs)
    × (download_data qs true ≡ (success, ks))
    × (joined ks ≡ 1 ∷ 2 ∷ [])
unfolding download_impl ◌==◌
download_first_example = download_first files 4 (codes "a") (1 ∷ 2 ∷ []) (codes "b" ∷ []) refl refl

party-IsPlain : IsPlain party
party-IsPlain = omega arith

other-IsPlain : IsPlain other
other-IsPlain = omega arith

get_channel-access_example :
    (get_channel to_string party (access to_string (whole other ∷ store party ∷ []) [])).0
    ≡ to_string party
get_channel-access_example =
    get_channel-access to_string (whole other ∷ store party ∷ []) party
      (other-IsPlain, (party-IsPlain, tt)) party-IsPlain
