-- ===== src/Link/Storage.antt =====
-- src/primihub/util/network/mem_channel.{h,cc}: the storage of channels in memory as a link context.
use primihub.Prelude.{
  ℕ, zero, suc, ◌≡◌, refl, ap, ◌∙◌, inl, inr, false, Option, none, some, List, [], ◌∷◌, arith,
  Option-cases, Bytes, success,
}
use primihub.Link.{LinkContext, Call, deliver, recv, waits, returns, get_recv_queue}
use primihub.Link.Memory.{
  Storage, MemoryChannel, touch, queue_at, send_impl, Received, sleeps, gives, recv_impl,
  recv_impl_many,
}
use primihub.Link.Order.{recv_many}
use primihub.Queue.{Queue, Wait, wait_and_pop, blocked, stopped, popped}
use primihub.Prelude.Dict.{assign, lookup}

-- The storage as a link context whose receive queues it is.
abbrev pub context : Storage → LinkContext
context storage = record { in_data = storage; out_data = []; complete = []; stop = false }

pub send_impl-deliver :
    (b : Bytes) (ch : MemoryChannel) (st : Storage)
    → context (send_impl b ch st).1 ≡ deliver ch.send_key b (context st)
unfolding send_impl deliver get_recv_queue
send_impl-deliver b ch st = elim (Option-cases (lookup ch.send_key st)) [
  | inl e ↦ ground (arith, e)
  | inr (q, e) ↦ ground (arith, e)
]

abbrev lift : Received → Call Bytes
lift (sleeps m) = waits (context m)
lift (gives r a m) = returns r a (context m)

-- What a wait comes to in both, in the storage `m`.
wait_case :
    (w : Wait Bytes) (key : Bytes) (m : Storage)
    → ◌≡◌ {A = Call Bytes}
        (elim w [
          | blocked ↦ waits (context m)
          | stopped ↦ returns success [] (context m)
          | popped a rest ↦ returns success a (context (assign key rest m))
        ])
        (lift (elim w [
          | blocked ↦ sleeps m
          | stopped ↦ gives success [] m
          | popped a rest ↦ gives success a (assign key rest m)
        ]))
wait_case blocked key m = refl
wait_case stopped key m = refl
wait_case (popped a rest) key m = refl

queue_case :
    (key : Bytes) (st : Storage)
    → get_recv_queue key (context st) ≡ (context (touch key st), queue_at key st)
unfolding get_recv_queue touch queue_at
queue_case key st = elim (Option-cases (lookup key st)) [
  | inl e ↦ ground (arith, e)
  | inr (q, e) ↦ ground (arith, e)
]

recv-recv_impl :
    (ch : MemoryChannel) (st : Storage) → recv ch.recv_key (context st) ≡ lift (recv_impl ch st)
unfolding recv recv_impl
recv-recv_impl ch st =
    ap
      (λ (p : LinkContext × Queue Bytes). elim (wait_and_pop p.1) as (λ w. Call Bytes) [
        | blocked ↦ waits p.0
        | stopped ↦ returns success [] p.0
        | popped a rest ↦
            returns success a (record p.0 { in_data = assign ch.recv_key rest p.0.in_data })
      ])
      (queue_case ch.recv_key st)
    ∙ wait_case (wait_and_pop (queue_at ch.recv_key st)) ch.recv_key (touch ch.recv_key st)

many_case :
    (r : Received) (f : Storage → Option (List Bytes)) (g : LinkContext → Option (List Bytes))
    → ((m : Storage) → f m ≡ g (context m))
    → ◌≡◌ {A = Option (List Bytes)}
        (elim r [
          | sleeps m ↦ none
          | gives c a m ↦ elim (f m) [ none ↦ none | some xs ↦ some (a ∷ xs) ]
        ])
        (elim (lift r) [
          | waits m ↦ none
          | returns c a m ↦ elim (g m) [ none ↦ none | some xs ↦ some (a ∷ xs) ]
        ])
many_case (sleeps m) f g h = refl
many_case (gives c a m) f g h = rw (h m) refl

pub recv_impl_many-recv_many :
    (n : ℕ) (ch : MemoryChannel) (st : Storage)
    → recv_impl_many n ch st ≡ recv_many n ch.recv_key (context st)
unfolding recv_impl_many recv_many
recv_impl_many-recv_many zero ch st = refl
recv_impl_many-recv_many (suc n) ch st =
    rw (recv-recv_impl ch st, recv_many)
      (many_case (recv_impl ch st) _ _ (λ m. recv_impl_many-recv_many n ch m))
