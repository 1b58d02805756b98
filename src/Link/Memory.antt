-- ===== src/Link/Memory.antt =====
-- src/primihub/util/network/mem_channel.{h,cc}: a channel between two threads of one process, over queues in
-- memory that they share.
use primihub.Prelude.{
  ℕ, zero, suc, Bool, true, false, Option, none, some, List, [], ◌∷◌, ◌++◌, nat_beq, if◌then◌else◌,
  Bytes, length, Retcode, success, fail,
}
use primihub.Queue.{Queue, new, push, wait_and_pop, blocked, stopped, popped}
use primihub.Prelude.Dict.{Dict, assign, lookup}

-- `StorageType`.
abbrev pub Storage : Type 0
Storage = Dict (Queue Bytes)

-- The keys of a `SimpleMemoryChannel`.
pub record MemoryChannel : Type 0 where
  pub send_key : Bytes
  pub recv_key : Bytes

abbrev pub key_of : Bytes → Bytes → Bytes → Bytes
key_of request_id from to = request_id ++ (b'_' ∷ (from ++ (b'_' ∷ to)))

-- `(*storage)[key]`, for its effect.
unfoldable pub touch : Bytes → Storage → Storage
touch key storage = elim (lookup key storage) [ none ↦ assign key new storage | some q ↦ storage ]

unfoldable pub queue_at : Bytes → Storage → Queue Bytes
queue_at key storage = elim (lookup key storage) [ none ↦ new | some q ↦ q ]

-- The constructor, on a storage that is there.
unfoldable pub open_channel : Bytes → Bytes → Bytes → Storage → MemoryChannel × Storage
unfolding touch
open_channel request_id local_node_id peer_node_id storage =
    let send_key = key_of request_id local_node_id peer_node_id in
    let recv_key = key_of request_id peer_node_id local_node_id in
    (record { send_key = send_key; recv_key = recv_key }, touch recv_key (touch send_key storage))

-- `SendImpl`.
unfoldable pub send_impl : Bytes → MemoryChannel → Storage → Retcode × Storage
unfolding touch queue_at
send_impl send_buf ch storage = (
  success,
  assign ch.send_key (push send_buf (queue_at ch.send_key storage)) (touch ch.send_key storage),
)

-- A call sleeps, or returns its code and its data.
pub data Received : Type 0 where
  sleeps : Storage → Received
  gives : Retcode → Bytes → Storage → Received

-- `RecvImpl(std::string*)`.
unfoldable pub recv_impl : MemoryChannel → Storage → Received
unfolding touch queue_at
recv_impl ch storage = elim (wait_and_pop (queue_at ch.recv_key storage)) [
  | blocked ↦ sleeps (touch ch.recv_key storage)
  | stopped ↦ gives success [] (touch ch.recv_key storage)
  | popped a rest ↦ gives success a (assign ch.recv_key rest (touch ch.recv_key storage))
]

-- `RecvImpl(char*, size_t)`: a message of another size is taken and refused.
unfoldable pub fit : ℕ → Received → Received
fit recv_size (sleeps m) = sleeps m
fit recv_size (gives r a m) =
    if nat_beq (length a) recv_size then gives success a m else gives fail [] m

unfoldable recv_impl_sized : ℕ → MemoryChannel → Storage → Received
unfolding recv_impl fit
recv_impl_sized recv_size ch storage = fit recv_size (recv_impl ch storage)

-- Messages that the two ends of a channel send: those of one end are marked.
unfoldable pub exchange : MemoryChannel → MemoryChannel → List (Bool × Bytes) → Storage → Storage
unfolding send_impl
exchange a b [] st = st
exchange a b ((true, m) ∷ r) st = exchange a b r (send_impl m a st).1
exchange a b ((false, m) ∷ r) st = exchange a b r (send_impl m b st).1

-- `n` calls of `RecvImpl`, and what they give; `none` if one of them sleeps.
unfoldable pub recv_impl_many : ℕ → MemoryChannel → Storage → Option (List Bytes)
unfolding recv_impl
recv_impl_many zero ch st = some []
recv_impl_many (suc n) ch st = elim (recv_impl ch st) [
  | sleeps m ↦ none
  | gives r a m ↦ elim (recv_impl_many n ch m) [ none ↦ none | some xs ↦ some (a ∷ xs) ]
]
