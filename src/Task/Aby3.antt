-- ===== src/Task/Aby3.antt =====
-- src/primihub/task/semantic/scheduler/aby3_scheduler.cc: the links that the scheduler lays between the three
-- parties of a protocol.
use Prim.Native.Nat.{max}
use primihub.Prelude.{
  ℕ, ◌+◌, ◌%◌, min, not, Option, none, some, List, [], ◌∷◌, ◌++◌, map, ltb, nat_beq, if◌then◌else◌,
  Bytes, codes, has, length, get_elem?,
}
use primihub.Task.{PartyNode}
use primihub.Grpc.{TaskContext}
use primihub.Prelude.Dict.{Dict}
use primihub.Common.{Node, to_string}
use primihub.Common.Decimal.{print}

pub data LinkType : Type 0 where
  server : LinkType
  client : LinkType

-- `rpc::EndPoint`.
pub record EndPoint : Type 0 where
  pub ip : Bytes
  pub port : ℕ
  pub name : Bytes
  pub link_type : LinkType

-- `rpc::VirtualMachine`.
pub record VirtualMachine : Type 0 where
  pub party_id : ℕ
  pub next : EndPoint
  pub prev : EndPoint

abbrev session_base_port : ℕ
session_base_port = 12120

abbrev underscore : Bytes
underscore = b'_' ∷ []

-- `name_prefix + absl::StrCat(min, max)`.
unfoldable pub link_name : TaskContext → ℕ → ℕ → Bytes
link_name info a b =
    info.job_id
    ++ (underscore ++ (info.task_id ++ (underscore ++ (print (min a b) ++ print (max a b)))))

-- The end of the link to `other` at the party `party_id`, where that has this address.
unfoldable pub end_point : TaskContext → ℕ → ℕ → Bytes → EndPoint
unfolding link_name
end_point info party_id other ip = record {
  ip = ip;
  port = min party_id other + session_base_port;
  name = link_name info party_id other;
  link_type = if ltb party_id other then server else client;
}

abbrev ip_of : Option Node → Option Bytes
ip_of none = none
ip_of (some n) = some n.ip

-- `add_vm`: the addresses are those at the places of the next and the previous party. `none`: a read
-- behind the end of the vector.
unfoldable pub add_vm : TaskContext → ℕ → List Node → Option VirtualMachine
unfolding end_point
add_vm info party_id party_nodes =
    let next = (party_id + 1) % 3 in
    let prev = (party_id + 2) % 3 in
    elim (ip_of (get_elem? party_nodes next)) [
      | none ↦ none
      | some a ↦ elim (ip_of (get_elem? party_nodes prev)) [
        | none ↦ none
        | some b ↦ some (record {
          party_id = party_id;
          next = end_point info party_id next a;
          prev = end_point info party_id prev b;
        })
      ]
    ]

-- What inserting into a `std::set` leaves, without its order.
unfoldable pub distinct : List Bytes → List Bytes
distinct [] = []
distinct (s ∷ r) = let rest = distinct r in if has s rest then rest else s ∷ rest

abbrev nodes_of : Dict PartyNode → List Node
nodes_of [] = []
nodes_of ((k, p) ∷ r) = p.node_info ∷ nodes_of r

abbrev names_of : Dict PartyNode → List Bytes
names_of [] = []
names_of ((k, p) ∷ r) = k ∷ names_of r

-- A party and its links.
pub record Planned : Type 0 where
  pub party_name : Bytes
  pub party : PartyNode
  pub vm : VirtualMachine

-- The preparation of an actor's task in `ABY3Scheduler::dispatch`, on the parties in the order in which
-- their map gives them: a message for an exception, or the parties with their links.
pub data Plan : Type 0 where
  raises : Bytes → Plan
  out_of_bounds : Plan
  planned : List Planned → Plan

unfoldable pub add_vms : TaskContext → List Node → Dict PartyNode → Option (List Planned)
unfolding add_vm
add_vms info party_nodes [] = some []
add_vms info party_nodes ((k, p) ∷ r) =
    let rest = add_vms info party_nodes r in
    elim (add_vm info p.party_id party_nodes) [
      | none ↦ none
      | some v ↦ elim rest [
        | none ↦ none
        | some q ↦ some (record { party_name = k; party = p; vm = v } ∷ q)
      ]
    ]

unfoldable pub plan_links : TaskContext → Dict PartyNode → Plan
unfolding distinct add_vms
plan_links info party_info =
    let party_nodes = nodes_of party_info in
    let count = length (distinct (map to_string party_nodes)) in
    if not (nat_beq count 3)
    then raises (codes "ABY3 protocol need 3 party, but get " ++ print count)
    else if not (nat_beq (length (distinct (names_of party_info))) 3)
    then raises (codes "ABY3 protocol: different party set same name")
    else elim (add_vms info party_nodes party_info) [ none ↦ out_of_bounds | some q ↦ planned q ]
