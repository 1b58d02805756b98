-- ===== src/Psi.antt =====
-- src/primihub/kernel/psi/operator/base_psi.{h,cc}: the part that every PSI protocol shares. The
-- protocol itself (`OnExecute`) and the channels are parameters.
pub mod Message
pub mod Exact
pub mod Result
pub mod Blocks
pub mod Pick
pub mod Sync
pub mod Tee
pub mod TeeExact
pub mod Ecdh
pub mod EcdhExact
pub mod Tests
use primihub.Prelude.{
  ◌==◌, Bool, true, false, Option, none, some, List, [], ◌∷◌, ◌++◌, if◌then◌else◌, Bytes, codes,
  Retcode, success, fail,
}
use primihub.Prelude.Dict.{Dict, lookup}
use primihub.Common.{
  Node, default_node, is_client, is_server, is_tee_compute, party_client, party_server,
}
use primihub.Link.{Channel, recv_from}
use Message.{encode, parse, parsed, over_read, out_of_fuel}
use Result.{PsiResultType}
use primihub.Psi.Message.{Parsed}

pub record Options : Type 0 where
  pub party_info : Dict Node
  pub self_party : Bytes
  pub psi_result_type : PsiResultType
  pub proxy_node : Node

-- What a call does: it returns its code, the result vector, and
-- the messages that it sent, each with the code of its `Send`; or it reads
-- memory that is not its own.
pub data Run : Type 0 where
  finished : Retcode → List Bytes → List (Node × Bytes × Retcode) → Run
  crashed : Run

unfoldable pub ignore_result : Bytes → Bool
unfolding is_tee_compute
ignore_result party_name = is_tee_compute party_name

unfoldable pub ignore_party : Options → Bytes → Bool
unfolding ignore_result
ignore_party o party_name = if party_name == o.self_party then true else ignore_result party_name

unfoldable pub party_list_of : Options → Dict Node → List Node
unfolding ignore_party
party_list_of o [] = []
party_list_of o ((party_name, n) ∷ r) =
    let rest = party_list_of o r in if ignore_party o party_name then rest else n ∷ rest

unfoldable pub broadcast_party_list : Options → List Node
unfolding party_list_of
broadcast_party_list o = party_list_of o o.party_info

abbrev pub key : Bytes
key = codes "default"

-- The loop over the parties: the codes of `Send` are looked at for the log only.
unfoldable pub send_all : (Node → Channel) → Bytes → List Node → List (Node × Bytes × Retcode)
send_all channel msg [] = []
send_all channel msg (n ∷ ns) = (n, msg, (channel n).send key msg) ∷ send_all channel msg ns

unfoldable pub broadcast_result : (Node → Channel) → Options → List Bytes → Run
unfolding broadcast_party_list send_all
broadcast_result channel o result =
    finished success result (send_all channel (encode result) (broadcast_party_list o))

abbrev is_nil : Bytes → Bool
is_nil [] = true
is_nil (b ∷ s) = false

-- The loop of `ReceiveResult` pushes the items behind the result.
abbrev pub append_parsed : List Bytes → Parsed → Run
append_parsed result (parsed xs) = finished success (result ++ xs) []
append_parsed result over_read = crashed
append_parsed result out_of_fuel = crashed

unfoldable pub receive_result : (Node → Channel) → Options → List Bytes → Run
receive_result channel o result =
    let (ret, recv_data_str) = recv_from (channel o.proxy_node) key in
    elim ret [
      | success ↦ append_parsed result (parse recv_data_str)
      | fail ↦
          if is_nil recv_data_str
          then append_parsed result (parse recv_data_str)
          else finished fail result []
    ]

unfoldable pub broadcast_psi_result : (Node → Channel) → Options → List Bytes → Run
unfolding ignore_result broadcast_result receive_result
broadcast_psi_result channel o result =
    let sent = broadcast_result channel o result in
    let received = receive_result channel o result in
    if ignore_result o.self_party
    then finished success result []
    else if is_client o.self_party
    then sent
    else received

-- `on_execute` is the protocol: its code and the result vector that it leaves.
unfoldable pub execute :
    (List Bytes → Retcode × List Bytes) → (Node → Channel) → Options → List Bytes → Bool → Run
unfolding broadcast_psi_result
execute on_execute channel o input sync_result =
    let (ret, result) = on_execute input in
    elim ret [
      | fail ↦ finished fail result []
      | success ↦
          if sync_result then broadcast_psi_result channel o result else finished success result []
    ]

unfoldable pub get_node_by_name : Options → Bytes → Option Node
get_node_by_name o party_name = lookup party_name o.party_info

abbrev or_default : Option Node → Node
or_default none = default_node
or_default (some n) = n

unfoldable pub peer_node : Options → Node
unfolding get_node_by_name
peer_node o =
    if is_client o.self_party
    then or_default (get_node_by_name o party_server)
    else if is_server o.self_party
    then or_default (get_node_by_name o party_client)
    else default_node
