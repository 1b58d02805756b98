-- ===== src/Link/MpcChannel.antt =====
-- src/primihub/util/network/mpc_channel.{h,cc}: the channel of a protocol between two parties, over a channel to
-- the other node.
use primihub.Prelude.{
  ℕ, suc, ◌≡◌, refl, ◌↔◌, [], ◌∷◌, ◌++◌, arith, nat_beq, if◌then◌else◌, Bytes, length, Retcode,
  success, fail,
}
use primihub.Link.{Channel, recv_from, recv_from_sized}

-- The keys of an `MPCTaskChannel`, and its channels.
pub record MpcTaskChannel : Type 0 where
  pub send_key : Bytes
  pub recv_key : Bytes
  pub send_channel : Channel
  pub recv_channel : Channel

abbrev joined_key : Bytes → Bytes → Bytes → Bytes → Bytes
joined_key request_id sub_task_id from to =
    request_id ++ (b'_' ∷ (sub_task_id ++ (b'_' ∷ (from ++ (b'_' ∷ to)))))

-- The constructors that take the ids from the link context.
unfoldable open_mpc : Bytes → Bytes → Bytes → Bytes → Channel → Channel → MpcTaskChannel
open_mpc request_id sub_task_id local_node_id peer_node_id send_channel recv_channel = record {
  send_key = joined_key request_id sub_task_id local_node_id peer_node_id;
  recv_key = joined_key request_id sub_task_id peer_node_id local_node_id;
  send_channel = send_channel;
  recv_channel = recv_channel;
}

-- `SendImpl`.
unfoldable mpc_send : MpcTaskChannel → Bytes → Retcode
mpc_send ch b = elim (ch.send_channel.send ch.send_key b) [ success ↦ success | fail ↦ fail ]

-- `RecvImpl(std::string*)`.
unfoldable mpc_recv : MpcTaskChannel → Retcode × Bytes
mpc_recv ch = (success, ch.recv_channel.forward_recv ch.recv_key)

-- `RecvImpl(char*, size_t)`.
unfoldable mpc_recv_sized : MpcTaskChannel → ℕ → Retcode × Bytes
mpc_recv_sized ch recv_size =
    let b = ch.recv_channel.forward_recv ch.recv_key in
    if nat_beq (length b) recv_size then (success, b) else (fail, [])

-- `Recv` on the bytes that came, and with a size.
abbrev recv_code : Bytes → Retcode × Bytes
recv_code b = elim b [ [] ↦ (fail, []) | c ∷ s ↦ (success, c ∷ s) ]

abbrev sized : Retcode × Bytes → ℕ → Retcode × Bytes
sized (ret, b) size = elim ret [
  | fail ↦ (fail, [])
  | success ↦ if nat_beq (length b) size then (success, b) else (fail, [])
]

-- The same of the bytes that came.
by_bytes :
    (b : Bytes) (n : ℕ)
    → ((if nat_beq (length b) (suc n) then (success, b) else (fail, []))
        ≡ sized (recv_code b) (suc n))
      × (b ≡ (recv_code b).1)
      × (success ≡ success)
      × (((recv_code b).0 ≡ fail) ↔ (b ≡ []))
by_bytes [] n = (ground arith, refl, refl, (λ h. refl, λ h. refl))
by_bytes (x ∷ b) n = (ground arith, refl, refl, (λ h. cc, λ h. cc))

-- A protocol's channel reads what the link context's `Recv` from the node reads, and with an expected
-- size, unless that is 0, with the same code; without a size it gives the same bytes, but reports
-- SUCCESS also where nothing came and `Recv` fails.
mpc_recv-recv_from :
    (ch : MpcTaskChannel) (n : ℕ)
    → (mpc_recv_sized ch (suc n) ≡ recv_from_sized ch.recv_channel ch.recv_key (suc n))
      × ((mpc_recv ch).1 ≡ (recv_from ch.recv_channel ch.recv_key).1)
      × ((mpc_recv ch).0 ≡ success)
      × (((recv_from ch.recv_channel ch.recv_key).0 ≡ fail) ↔ ((mpc_recv ch).1 ≡ []))
unfolding mpc_recv mpc_recv_sized recv_from recv_from_sized
mpc_recv-recv_from ch n = by_bytes (ch.recv_channel.forward_recv ch.recv_key) n
