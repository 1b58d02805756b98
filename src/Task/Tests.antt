-- ===== src/Task/Tests.antt =====
-- Runs and instances for src/primihub/task.
use primihub.Prelude.{
  ◌==◌, ℕ, zero, suc, ◌<◌, ◌≡◌, refl, Bool, true, false, none, some, List, [], ◌∷◌, map, arith,
  if◌then◌else◌, Bytes, codes, ==_iff, length, success,
}
use primihub.Task.{PartyNode, merge_party_access_info}
use primihub.Task.Names.{or_else}
use primihub.Task.Merge.{node_of, merge_party_access_info_agree}
use primihub.Task.Aby3.{VirtualMachine, plan_links, planned}
use primihub.Task.Links.{IsLink, plan_links-IsLink, plan_links_crossed}
use primihub.Task.Schedule.{find_parties, dispatch}
use primihub.Task.Owners.{find_parties-named_owner}
use primihub.Task.Named.{reply_of, named_owner}
use primihub.Task.Datasets.{GetDatasetReply, not_answered}
use primihub.Grpc.Context.{IsPlain}
use primihub.Task.Dispatched.{Sent, result_of, dispatch_undercounts}
use primihub.Prelude.Dict.{Dict, lookup}
use primihub.Common.{Node, to_string}
use primihub.Common.Decimal.{print}
use primihub.Grpc.{TaskContext}
use primihub.Grpc.Call.{Attempt, replied, refused, unanswered}
use primihub.Grpc.Seen.{IsNew}
use primihub.VmNode.{empty, Executor}

abbrev node_at : Bytes → Node
node_at i = record { id = i; ip = i; port = 50050; use_tls = false; role = codes "default" }

abbrev alice : Bytes
alice = codes "alice"

abbrev bob : Bytes
bob = codes "bob"

abbrev carol : Bytes
carol = codes "carol"

abbrev one_way : Dict PartyNode
one_way =
    (alice, record { node_info = node_at (codes "a"); party_id = 7 })
    ∷ (bob, record { node_info = node_at (codes "b"); party_id = 3 })
    ∷ []

abbrev other_way : Dict PartyNode
other_way =
    (bob, record { node_info = node_at (codes "b"); party_id = 0 })
    ∷ (alice, record { node_info = node_at (codes "a"); party_id = 0 })
    ∷ []

same_nodes : (j : Bytes) → node_of (lookup j one_way) ≡ node_of (lookup j other_way)
unfolding lookup
same_nodes j = ground (arith, ==_iff j alice, ==_iff j bob)

merge_party_access_info_agree_example :
    merge_party_access_info one_way ((carol, node_at (codes "c")) ∷ [])
    ≡ merge_party_access_info other_way ((carol, node_at (codes "c")) ∷ [])
merge_party_access_info_agree_example =
    merge_party_access_info_agree one_way other_way _ _ same_nodes (λ j. refl)

abbrev info : TaskContext
info = record {
  task_id = codes "t";
  job_id = codes "j";
  request_id = codes "r";
  sub_task_id = codes "0";
}

abbrev a : Node
a = node_at (codes "a")

abbrev b : Node
b = node_at (codes "b")

abbrev c : Node
c = node_at (codes "c")

plan_links-IsLink_example :
    (u v w : VirtualMachine) × (plan_links info (
        (alice, record { node_info = a; party_id = 0 })
        ∷ (bob, record { node_info = b; party_id = 1 })
        ∷ (carol, record { node_info = c; party_id = 2 })
        ∷ [])
      ≡ planned (
          record { party_name = alice; party = record { node_info = a; party_id = 0 }; vm = u }
          ∷ record { party_name = bob; party = record { node_info = b; party_id = 1 }; vm = v }
          ∷ record { party_name = carol; party = record { node_info = c; party_id = 2 }; vm = w }
          ∷ []))
    × IsLink a b u.next v.prev
    × IsLink b c v.next w.prev
    × IsLink c a w.next u.prev
unfolding ◌==◌ to_string print
plan_links-IsLink_example =
    plan_links-IsLink info alice bob carol a b c (refl, refl, refl) (refl, refl, refl)

plan_links_crossed_example :
    (u v w : VirtualMachine) × (plan_links info (
        (alice, record { node_info = b; party_id = 1 })
        ∷ (bob, record { node_info = a; party_id = 0 })
        ∷ (carol, record { node_info = c; party_id = 2 })
        ∷ [])
      ≡ planned (
          record { party_name = alice; party = record { node_info = b; party_id = 1 }; vm = v }
          ∷ record { party_name = bob; party = record { node_info = a; party_id = 0 }; vm = u }
          ∷ record { party_name = carol; party = record { node_info = c; party_id = 2 }; vm = w }
          ∷ []))
    × (u.next.ip ≡ codes "a")
    × (v.prev.ip ≡ codes "b")
unfolding ◌==◌ to_string print
plan_links_crossed_example =
    plan_links_crossed info alice bob carol a b c (refl, refl, refl) (refl, refl, refl)

abbrev party_datasets : Dict (Dict Bytes)
party_datasets =
    (alice, (codes "0", codes "d1") ∷ (codes "1", []) ∷ (codes "2", codes "d2") ∷ [])
    ∷ (bob, (codes "0", codes "d3") ∷ [])
    ∷ []

abbrev owner_of : Bytes → Node
owner_of id = if id == codes "d3" then c else (if id == codes "d2" then b else a)

abbrev party_of : Bytes → Bytes
party_of id = if id == codes "d3" then bob else alice

-- The first call is lost.
abbrev meta_server : ℕ → List Bytes → GetDatasetReply
meta_server zero ids = not_answered
meta_server (suc i) ids = reply_of owner_of ids

if-IsPlain : (t : Bool) (n k : Node) → IsPlain n → IsPlain k → IsPlain (if t then n else k)
if-IsPlain true n k h u = h
if-IsPlain false n k h u = u

a-IsPlain : IsPlain a
a-IsPlain = record { address = omega arith; small_port = omega arith }

b-IsPlain : IsPlain b
b-IsPlain = record { address = omega arith; small_port = omega arith }

c-IsPlain : IsPlain c
c-IsPlain = record { address = omega arith; small_port = omega arith }

owner_of-IsPlain : (id : Bytes) → IsPlain (owner_of id)
owner_of-IsPlain id = if-IsPlain _ c _ c-IsPlain (if-IsPlain _ b a b-IsPlain a-IsPlain)

first_lost : (i : ℕ) (ids : List Bytes) → i < 1 → meta_server i ids ≡ not_answered
first_lost zero ids h = refl
first_lost (suc i) ids h = absurd (omega (arith, h))

find_parties-named_owner_example :
    (d : Dict PartyNode) × (find_parties meta_server party_datasets one_way ≡ some d)
    × ((j : Bytes)
        → node_of (lookup j d)
          ≡ or_else (node_of (lookup j one_way)) (named_owner owner_of j party_datasets))
unfolding ◌==◌
find_parties-named_owner_example =
    find_parties-named_owner meta_server owner_of party_of 1 party_datasets one_way (omega arith)
      first_lost (λ ids. refl) ((refl, (tt, (refl, tt))), ((refl, tt), tt)) owner_of-IsPlain

abbrev executor : Executor
executor = record { handle = 1; link = none }

abbrev sent_to : Node → List Attempt → Sent
sent_to n attempts = record {
  attempts = attempts;
  sent_at = 10;
  address = n;
  info = info;
  executor = executor;
  peer = empty;
}

-- The first two answer the first attempt that reaches them, the third only the next.
abbrev sent : List Sent
sent =
    sent_to a (replied 10 ∷ [])
    ∷ sent_to b (refused ∷ replied 15 ∷ [])
    ∷ sent_to c (unanswered 10 ∷ replied 15 ∷ [])
    ∷ []

empty-IsNew : IsNew info empty
unfolding lookup
empty-IsNew = record { unique = tt; unseen = refl }

dispatch_undercounts_example :
    ((dispatch (map result_of sent)).0 ≡ success) × (length (dispatch (map result_of sent)).1 ≡ 2)
dispatch_undercounts_example = dispatch_undercounts sent (
  (omega arith, refl, omega arith, empty-IsNew),
  (
    (omega arith, refl, omega arith, empty-IsNew),
    ((omega arith, refl, omega arith, empty-IsNew), tt),
  ),
)
