-- ===== src/Link.antt =====
-- src/primihub/util/network/link_context.{h,cc}: the queues of a `LinkContext` and the calls on them.
-- The queues' elements are updated in place there; here each call returns the new context.
pub mod Close
pub mod Order
pub mod Memory
pub mod MpcChannel
pub mod Storage
pub mod Ends
pub mod Tests
use primihub.Prelude.{
  ℕ, zero, suc, Bool, true, none, some, [], ◌∷◌, nat_beq, if◌then◌else◌, Bytes, length, Retcode,
  success, fail,
}
use primihub.Prelude.Dict.{Dict, lookup, assign, map_values}
use primihub.Queue.{Queue, blocked, stopped, popped, new, push, wait_and_pop, shutdown}

pub record LinkContext : Type 0 where
  pub in_data : Dict (Queue Bytes)
  pub out_data : Dict (Queue Bytes)
  pub complete : Dict (Queue Retcode)
  pub stop : Bool

-- A call sleeps in the context that it leaves behind, or returns its code and its data.
pub data Call {ℓ} (A : Type ℓ) : Type ℓ where
  waits : LinkContext → Call A
  returns : Retcode → A → LinkContext → Call A

unfoldable pub clean : LinkContext → LinkContext
clean l = record {
  in_data = map_values shutdown l.in_data;
  out_data = map_values shutdown l.out_data;
  complete = map_values shutdown l.complete;
  stop = true;
}

-- `GetRecvQueue`: the queue, and the context in which it is stored.
unfoldable pub get_recv_queue : Bytes → LinkContext → LinkContext × Queue Bytes
get_recv_queue key l = elim (lookup key l.in_data) [
  | some q ↦ (l, q)
  | none ↦
      let q : Queue Bytes = if l.stop then shutdown new else new in
      (record l { in_data = assign key q l.in_data }, q)
]

unfoldable pub get_send_queue : Bytes → LinkContext → LinkContext × Queue Bytes
get_send_queue key l = elim (lookup key l.out_data) [
  | some q ↦ (l, q)
  | none ↦ (record l { out_data = assign key new l.out_data }, new)
]

unfoldable pub get_complete_queue : Bytes → LinkContext → LinkContext × Queue Retcode
get_complete_queue key l = elim (lookup key l.complete) [
  | some q ↦ (l, q)
  | none ↦ (record l { complete = assign key new l.complete }, new)
]

-- `Recv(key, std::string*)`. A queue that is shut down leaves the buffer empty.
unfoldable pub recv : Bytes → LinkContext → Call Bytes
unfolding get_recv_queue
recv key l =
    let (m, q) = get_recv_queue key l in
    elim (wait_and_pop q) [
      | blocked ↦ waits m
      | stopped ↦ returns success [] m
      | popped a rest ↦ returns success a (record m { in_data = assign key rest m.in_data })
    ]

-- `Recv(key, char*, size)`: the same, with the size that the caller expects.
unfoldable pub check_size : ℕ → Call Bytes → Call Bytes
check_size size (waits m) = waits m
check_size size (returns r a m) =
    if nat_beq size (length a) then returns success a m else returns fail [] m

unfoldable pub recv_sized : Bytes → ℕ → LinkContext → Call Bytes
unfolding check_size
recv_sized key size l = check_size size (recv key l)

-- What a data handler of the node does with the context of the task (node_impl.cc).
-- `ProcessReceivedData`, its last lines: the message goes to the receive queue of its key.
unfoldable pub deliver : Bytes → Bytes → LinkContext → LinkContext
unfolding get_recv_queue
deliver key data_buffer l =
    let (m, q) = get_recv_queue key l in
    record m { in_data = assign key (push data_buffer q) m.in_data }

-- `complete_queue.push(retcode::SUCCESS)`.
unfoldable pub acknowledge : Bytes → LinkContext → LinkContext
unfolding get_complete_queue
acknowledge key l =
    let (m, q) = get_complete_queue key l in
    record m { complete = assign key (push success q) m.complete }

-- `ProcessSendData`, its last lines.
unfoldable pub fetch : Bytes → LinkContext → Call Bytes
unfolding get_send_queue acknowledge
fetch key l =
    let (m, q) = get_send_queue key l in
    elim (wait_and_pop q) [
      | blocked ↦ waits m
      | stopped ↦ returns success [] (acknowledge key m)
      | popped a rest ↦
          returns success a (acknowledge key (record m { out_data = assign key rest m.out_data }))
    ]

-- `ProcessForwardData`, its last lines.
unfoldable pub forward : Bytes → LinkContext → Call Bytes
unfolding recv acknowledge
forward key l = elim (recv key l) [
  | waits m ↦ waits m
  | returns r a m ↦ returns success a (acknowledge key m)
]

-- One round of the loop of `ProcessCompleteStatus`.
unfoldable pub take_complete : Bytes → LinkContext → Call (Unit {0})
unfolding get_complete_queue
take_complete key l =
    let (m, q) = get_complete_queue key l in
    elim (wait_and_pop q) [
      | blocked ↦ waits m
      | stopped ↦ returns success tt m
      | popped r rest ↦ returns success tt (record m { complete = assign key rest m.complete })
    ]

-- The loop: one round for each package that is still expected.
unfoldable pub await_complete : Bytes → ℕ → LinkContext → Call (Unit {0})
await_complete key zero l = returns success tt l
await_complete key (suc n) l = elim (take_complete key l) [
  | waits m ↦ waits m
  | returns r u m ↦ await_complete key n m
]

-- `SendRecv(key, send_buf, recv_buf)`, the receiver's side, up to the wait for the peer: it takes the
-- request, fails if the context has been stopped, and offers its answer.
unfoldable pub answer : Bytes → Bytes → LinkContext → Call Bytes
unfolding recv get_send_queue
answer key send_buf l = elim (recv key l) [
  | waits m ↦ waits m
  | returns r a m ↦
      if m.stop
      then returns fail a m
      else let (k, q) = get_send_queue key m in
        returns success a (record k { out_data = assign key (push send_buf q) k.out_data })
]

-- The whole of it: after the answer it waits until the peer has taken that.
unfoldable pub send_recv : Bytes → Bytes → LinkContext → Call Bytes
unfolding answer
send_recv key send_buf l = elim (answer key send_buf l) [
  | waits m ↦ waits m
  | returns r a m ↦ elim r [
    | fail ↦ returns fail a m
    | success ↦ elim (take_complete key m) [
      | waits k ↦ waits k
      | returns c u k ↦ returns success a k
    ]
  ]
]

-- `IChannel`: what a channel to one node can do. Its implementations talk to the network.
pub record Channel : Type 0 where
  pub send : Bytes → Bytes → Retcode
  pub send_recv_peer : Bytes → Bytes → Retcode × Bytes
  pub forward_recv : Bytes → Bytes

-- `Recv(key, dest_node, std::string*)`: what the channel gets is the buffer in any case.
unfoldable pub recv_from : Channel → Bytes → Retcode × Bytes
recv_from ch key = elim (ch.forward_recv key) [ [] ↦ (fail, []) | b ∷ s ↦ (success, b ∷ s) ]

-- `Recv(key, dest_node, char*, size)`.
unfoldable pub recv_from_sized : Channel → Bytes → ℕ → Retcode × Bytes
unfolding recv_from
recv_from_sized ch key size =
    let (ret, buf) = recv_from ch key in
    elim ret [
      | fail ↦ (fail, [])
      | success ↦ if nat_beq (length buf) size then (success, buf) else (fail, [])
    ]
