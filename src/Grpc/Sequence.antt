-- ===== src/Grpc/Sequence.antt =====
-- src/primihub/util/network/grpc_link_context.cc at src/primihub/node/node_interface.cc: the messages of a task, one
-- after the other.
use primihub.Prelude.{
  ℕ, ◌<◌, ◌≡◌, Option, none, some, List, [], ◌∷◌, ◌++◌, Bytes, length, All, replicate, success,
  fail,
}
use primihub.Grpc.{TaskContext}
use primihub.Grpc.Client.{answered, unreached, send}
use primihub.VmNode.{VmNode}
use primihub.Link.{LinkContext}
use primihub.VmNode.Requests.{link_of, receive_all, receive_all-deliver_all}
use primihub.Link.Order.{IsOpen, pending, recv_many, addressed, deliver_all, recv_many-deliver_all}
use primihub.Grpc.Deliver.{send_lem, received, receive_all-cons}

-- Messages with their keys, and for each the attempts that do not reach the peer.
abbrev pub tries : List ((Bytes × Bytes) × ℕ) → List (Bytes × Bytes)
tries [] = []
tries ((m, j) ∷ r) = m ∷ tries r

-- The sends of a task to one peer, one after the other, all of which have to succeed.
unfoldable pub send_many : TaskContext → List ((Bytes × Bytes) × ℕ) → VmNode → Option VmNode
unfolding send
send_many info [] n = some n
send_many info (((key, d), j) ∷ r) n =
    elim (send info key d (replicate j unreached ++ answered ∷ []) n) [
      | none ↦ none
      | some (ret, m) ↦ let rest = send_many info r m in elim ret [ success ↦ rest | fail ↦ none ]
    ]

send_many-receive_all :
    (info : TaskContext) (msgs : List ((Bytes × Bytes) × ℕ)) (n m : VmNode)
    → All (λ (p : (Bytes × Bytes) × ℕ). p.1 < 3) msgs
    → receive_all info.request_id (tries msgs) n ≡ some m
    → send_many info msgs n ≡ some m
unfolding send_many receive_all
send_many-receive_all info [] n m h e = e
send_many-receive_all info (((key, d), j) ∷ r) n m h e =
    rw (send_lem info key d j [] n h.0, send_many)
      (send_many-receive_all info r (received info key d n) m h.1
        (receive_all-cons info.request_id key d (tries r) n m e))

-- What a channel sends, the task at the other end receives: if no message needs more than two attempts
-- that fail to reach the peer, all sends succeed, and from the context of the task there `Recv` takes
-- exactly the messages of each key, whole and in their order. The task runs, its context is open and
-- has nothing pending for the key.
pub send_many-recv_many :
    (info : TaskContext) (key : Bytes) (msgs : List ((Bytes × Bytes) × ℕ)) (l : LinkContext)
    (n : VmNode)
    → link_of info.request_id n ≡ some l
    → IsOpen l
    → pending key l ≡ []
    → All (λ (p : (Bytes × Bytes) × ℕ). p.1 < 3) msgs
    → (m : VmNode) × (v : LinkContext) × (send_many info msgs n ≡ some m)
      × (link_of info.request_id m ≡ some v)
      × (recv_many (length (addressed key (tries msgs))) key v ≡ some (addressed key (tries msgs)))
send_many-recv_many info key msgs l n h o p few =
    let (m, e, f, g) = receive_all-deliver_all info.request_id (tries msgs) l n h in
    (
      m,
      deliver_all (tries msgs) l,
      send_many-receive_all info msgs n m few e,
      f,
      (recv_many-deliver_all (tries msgs) key l o p).0,
    )
