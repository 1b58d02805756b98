-- ===== src/Grpc/Forward.antt =====
-- src/primihub/util/network/grpc_link_context.cc at src/primihub/node/node_interface.cc: `forwardRecv`, by which a
-- task takes messages from another node.
use primihub.Prelude.{
  ◌==◌, ◌≡◌, refl, sym, ap, ◌∙◌, inl, inr, true, Option, none, some, List, [], ◌∷◌, ◌++◌, map,
  append-nil, append_assoc, arith, if◌then◌else◌, Option-cases, Bytes, ==_iff, ==_refl, Retcode,
  success, fail,
}
use primihub.Grpc.{TaskContext, TaskRequest, build_task_request}
use primihub.Grpc.Packages.{request_bytes, joined, build_task_request_lem}
use primihub.Grpc.Server.{on_forward_recv, pass_on, writes, Answer, asleep}
use primihub.Grpc.Client.{take_forwarded, append_requests}
use primihub.VmNode.{VmNode}
use primihub.VmNode.Exchange.{put_link, process_forward_data}
use primihub.VmNode.Requests.{link_of, link_of-put_link}
use primihub.Queue.{new, push}
use primihub.Prelude.Dict.{lookup, assign, lookup-assign}
use primihub.Link.{get_complete_queue}
use primihub.Link.Order.{pending, IsOpen, recv_oldest}
use primihub.Link.{LinkContext, forward, acknowledge, recv, returns, Channel, recv_from}

append_requests-joined :
    (b : Bytes) (qs : List TaskRequest) → append_requests b qs ≡ b ++ joined (map request_bytes qs)
unfolding append_requests joined
append_requests-joined b [] = sym (append-nil b)
append_requests-joined b (q ∷ r) =
    append_requests-joined (b ++ q.bytes) r ∙ append_assoc b q.bytes (joined (map request_bytes r))

pending-acknowledge :
    (k key : Bytes) (l : LinkContext) → pending k (acknowledge key l) ≡ pending k l
unfolding pending acknowledge
pending-acknowledge k key l = ground arith

-- The acknowledgements that wait for the key.
unfoldable pub acknowledged : Bytes → LinkContext → List Retcode
acknowledged key l = elim (lookup key l.complete) [ none ↦ [] | some q ↦ q.items ]

acknowledged-acknowledge :
    (k key : Bytes) (l : LinkContext)
    → acknowledged k (acknowledge key l)
      ≡ (if k == key then acknowledged key l ++ success ∷ [] else acknowledged k l)
unfolding acknowledged acknowledge get_complete_queue push new
acknowledged-acknowledge k key l = elim (Option-cases (lookup key l.complete)) [
  | inl e ↦ ground (
    arith,
    e,
    lookup-assign key k (push success new) (assign key new l.complete),
    lookup-assign key k new l.complete,
    ==_iff k key,
  )
  | inr (q, e) ↦ ground (arith, e, lookup-assign key k (push success q) l.complete, ==_iff k key)
]

forward-returns :
    (key a : Bytes) (l u : LinkContext)
    → recv key l ≡ returns success a u
    → forward key l ≡ returns success a (acknowledge key u)
unfolding forward
forward-returns key a l u e = rw (e, forward)

answer_forward :
    (info : TaskContext) (key a : Bytes) (l v : LinkContext) (n : VmNode)
    → link_of info.request_id n ≡ some l
    → forward key l ≡ returns success a v
    → on_forward_recv info key n success n
      ≡ writes (build_task_request info key a) (put_link info.request_id v n)
unfolding on_forward_recv process_forward_data pass_on
answer_forward info key a l v n h f = rw (h, process_forward_data) (rw (f) refl)

-- What a task receives through a channel from another node: if a message waits there for the key, the
-- handler writes packages from which the channel makes the oldest message, whole; only that one leaves
-- its queue, and the handler adds one acknowledgement to those that wait for the key, and none to those
-- for others. The task runs, and its context is open.
pub take_forwarded-on_forward_recv :
    (info : TaskContext) (key a : Bytes) (rest : List Bytes) (l : LinkContext) (n : VmNode)
    → link_of info.request_id n ≡ some l
    → IsOpen l
    → pending key l ≡ a ∷ rest
    → (ms : List TaskRequest) × (m : VmNode) × (v : LinkContext) × (on_forward_recv info key n
          success n
        ≡ writes (some ms) m)
      × (take_forwarded ms true ≡ a)
      × (link_of info.request_id m ≡ some v)
      × ((k : Bytes) → pending k v ≡ (if k == key then rest else pending k l))
      × ((k : Bytes)
          → acknowledged k v
            ≡ (if k == key then acknowledged key l ++ success ∷ [] else acknowledged k l))
unfolding acknowledged
take_forwarded-on_forward_recv info key a rest l n h o p =
    let (qs, b, j, w, c) = build_task_request_lem info key a in
    let (u, e, v, q, c1) = recv_oldest key a rest l o p in
    let f : forward key l ≡ returns success a (acknowledge key u) = forward-returns key a l u e in
    (
      qs,
      put_link info.request_id (acknowledge key u) n,
      acknowledge key u,
      answer_forward info key a l (acknowledge key u) n h f
          ∙ ap
              (λ (o : Option (List TaskRequest)).
                writes o (put_link info.request_id (acknowledge key u) n))
              b,
      unfold take_forwarded in (append_requests-joined [] qs ∙ j),
      (link_of-put_link info.request_id l (acknowledge key u) n h).0,
      λ k. pending-acknowledge k key u ∙ q k,
      λ k. ground (arith, acknowledged-acknowledge k key u, c1),
    )

-- The messages that an answer writes.
abbrev pub written : Answer TaskRequest → List TaskRequest
written (asleep m) = []
written (writes none m) = []
written (writes (some ms) m) = ms

-- A channel to the node `n`, of which only `forwardRecv` is used.
abbrev channel_to : TaskContext → VmNode → Channel
channel_to info n = record {
  send = λ key b. fail;
  send_recv_peer = λ key b. (fail, []);
  forward_recv = λ key. take_forwarded (written (on_forward_recv info key n success n)) true;
}

-- An empty message is lost: where one waits at the other node, `Recv` from there fails as it does where
-- the task is unknown, and the message has left its queue.
recv_from_empty :
    (info : TaskContext) (key : Bytes) (rest : List Bytes) (l : LinkContext) (n : VmNode)
    → link_of info.request_id n ≡ some l
    → IsOpen l
    → pending key l ≡ [] ∷ rest
    → (m : VmNode) × (v : LinkContext) × (recv_from (channel_to info n) key ≡ (fail, []))
      × ((ms : List TaskRequest) × (on_forward_recv info key n success n ≡ writes (some ms) m))
      × (link_of info.request_id m ≡ some v)
      × (pending key v ≡ rest)
unfolding recv_from
recv_from_empty info key rest l n h o p =
    let (ms, m, v, e, t, k, q, c) = take_forwarded-on_forward_recv info key [] rest l n h o p in
    (m, v, ground (arith, e, t), (ms, e), k, ground (arith, q key, ==_refl key))
