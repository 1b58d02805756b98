-- ===== src/Psi/Sync.antt =====
-- src/primihub/kernel/psi/operator/base_psi.cc: the result goes from the client to the other parties.
use primihub.Prelude.{
  ◌==◌, ◌≡◌, refl, ◌∙◌, ◌≢◌, ◌⊎◌, inl, inr, true, false, List, [], ◌∷◌, arith, Bool-cases, Bytes,
  ==_iff, ==_of_ne, has, All, Retcode, success,
}
use primihub.Psi.{
  Options, send_all, party_list_of, execute, ignore_party, ignore_result, key, finished,
  broadcast_party_list, broadcast_psi_result, receive_result, append_parsed,
}
use primihub.Common.{Node, party_tee_compute, is_client, party_client}
use primihub.Prelude.Dict.{Dict}
use primihub.Link.{Channel, recv_from}
use primihub.Psi.Message.{Fits, encode, parse-encode, parse}

-- The party is in the dictionary, at this node.
abbrev Has : Bytes → Node → Dict Node → Type 0
Has p n [] = ⊥
Has p n ((q, m) ∷ r) = ((p ≡ q) × (n ≡ m)) ⊎ Has p n r

-- The message was sent to the node.
abbrev pub Gets : Node → Bytes → List (Node × Bytes × Retcode) → Type 0
Gets n msg [] = ⊥
Gets n msg ((m, s, ret) ∷ r) = ((n ≡ m) × (msg ≡ s)) ⊎ Gets n msg r

Gets-send_all :
    (channel : Node → Channel) (o : Options) (msg p : Bytes) (n : Node) (d : Dict Node)
    → Has p n d
    → ignore_party o p ≡ false
    → Gets n msg (send_all channel msg (party_list_of o d))
unfolding send_all party_list_of
Gets-send_all channel o msg p n [] h a = h
Gets-send_all channel o msg p n ((q, m) ∷ r) (inl (e, f)) a =
    let c : ignore_party o q ≡ false = rw e at a in rw c (inl (f, refl))
Gets-send_all channel o msg p n ((q, m) ∷ r) (inr h) a =
    let ih = Gets-send_all channel o msg p n r h a in
    elim (Bool-cases (ignore_party o q)) [ inl c ↦ rw c ih | inr c ↦ rw c (inr ih) ]

kept_party :
    (o : Options) (p : Bytes) → p ≢ o.self_party → p ≢ party_tee_compute → ignore_party o p ≡ false
unfolding ignore_party
kept_party o p a b = rw (==_of_ne p o.self_party a) (==_of_ne p party_tee_compute b)

client_not_tee : (p : Bytes) → is_client p ≡ true → ignore_result p ≡ false
unfolding is_client ignore_result
client_not_tee p h =
    let e : p ≡ party_client = (==_iff p party_client).0 h in rw e (unfold ◌==◌ in refl)

-- `LinkContext::Recv` fails only with an empty buffer, and `ReceiveResult` takes a failure with an
-- empty buffer for an empty result: it never returns FAIL. It reads what the proxy gave, be it
-- nothing.
receive_result_never_fails :
    (channel : Node → Channel) (o : Options) (result : List Bytes)
    → receive_result channel o result
      ≡ append_parsed result (parse ((channel o.proxy_node).forward_recv key))
unfolding receive_result recv_from
receive_result_never_fails channel o result = ground arith

execute-success :
    (on_execute : List Bytes → Retcode × List Bytes) (channel : Node → Channel) (o : Options)
    (input xs : List Bytes)
    → on_execute input ≡ (success, xs)
    → execute on_execute channel o input true ≡ broadcast_psi_result channel o xs
unfolding execute
execute-success f channel o input xs e = ground (arith, e)

broadcast-client :
    (channel : Node → Channel) (o : Options) (xs : List Bytes)
    → is_client o.self_party ≡ true
    → broadcast_psi_result channel o xs
      ≡ finished success xs (send_all channel (encode xs) (broadcast_party_list o))
unfolding broadcast_psi_result
broadcast-client channel o xs h = rw (client_not_tee o.self_party h, h)

broadcast-peer :
    (channel : Node → Channel) (o : Options) (xs : List Bytes)
    → is_client o.self_party ≡ false
    → ignore_result o.self_party ≡ false
    → All Fits xs
    → (channel o.proxy_node).forward_recv key ≡ encode xs
    → broadcast_psi_result channel o [] ≡ finished success xs []
unfolding broadcast_psi_result
broadcast-peer channel o xs nc nt fits got =
    rw (nt, nc) (receive_result_never_fails channel o [] ∙ rw (got, parse-encode xs fits))

-- A client whose protocol run found a result sends it to every other party that cares about it, and
-- keeps it as its own result; its code is SUCCESS, whatever the codes of `Send` were. A party that is
-- neither client nor TEE executor, and whose proxy hands it what the client sent, ends with SUCCESS
-- and exactly the client's result, item by item.
pub execute_sync :
    (on_execute : List Bytes → Retcode × List Bytes) (channel : Node → Channel) (o : Options)
    (input xs : List Bytes) (p : Bytes) (n : Node)
    → on_execute input ≡ (success, xs)
    → All Fits xs
    → is_client o.self_party ≡ true
    → Has p n o.party_info
    → p ≢ o.self_party
    → p ≢ party_tee_compute
    → (on_execute_peer : List Bytes → Retcode × List Bytes) (channel_peer : Node → Channel)
      (peer : Options) (input_peer : List Bytes)
    → on_execute_peer input_peer ≡ (success, [])
    → is_client peer.self_party ≡ false
    → ignore_result peer.self_party ≡ false
    → (channel_peer peer.proxy_node).forward_recv key ≡ encode xs
    → ((sent : List (Node × Bytes × Retcode)) × (execute on_execute channel o input true
          ≡ finished success xs sent)
        × Gets n (encode xs) sent)
      × (execute on_execute_peer channel_peer peer input_peer true ≡ finished success xs [])
execute_sync f channel o input xs p n ef fits cl has ns nt g channel_peer peer input_peer eg nc np
      got =
    (
      (
        send_all channel (encode xs) (broadcast_party_list o),
        execute-success f channel o input xs ef ∙ broadcast-client channel o xs cl,
        unfold broadcast_party_list in
            Gets-send_all channel o (encode xs) p n o.party_info has (kept_party o p ns nt),
      ),
      execute-success g channel_peer peer input_peer [] eg
          ∙ broadcast-peer channel_peer peer xs nc np fits got,
    )
