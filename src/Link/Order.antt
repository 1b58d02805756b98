-- ===== src/Link/Order.antt =====
-- src/primihub/util/network/link_context.cc: messages by key, in the order of their arrival.
use primihub.Prelude.{
  ◌==◌, ℕ, zero, suc, ◌≡◌, refl, sym, ap, inl, inr, false, Option, none, some, List, [], ◌∷◌, ◌++◌,
  append-nil, append_assoc, arith, if◌then◌else◌, Bool-cases, Option-cases, Bytes, ==_iff, ==_refl,
  length, success,
}
use primihub.Link.{LinkContext, deliver, get_recv_queue, recv, waits, returns}
use primihub.Queue.{Queue, push, new, shutdown, wait_and_pop}
use primihub.Prelude.Dict.{assign, lookup, lookup-assign}

-- The messages that wait on a key.
unfoldable pub pending : Bytes → LinkContext → List Bytes
pending key l = elim (lookup key l.in_data) [ none ↦ [] | some q ↦ q.items ]

-- No receive queue is shut down.
pub record IsOpen (l : LinkContext) : Type 0 where
  pub running : l.stop ≡ false
  pub open_queues : (k : Bytes) (q : Queue Bytes) → lookup k l.in_data ≡ some q → q.stop ≡ false

get_recv_queue-pending :
    (key : Bytes) (l : LinkContext)
    → IsOpen l
    → ((get_recv_queue key l).1 ≡ record { items = pending key l; stop = false })
      × ((get_recv_queue key l).0.stop ≡ false)
unfolding get_recv_queue pending
get_recv_queue-pending key l v = elim (Option-cases (lookup key l.in_data)) [
  | inl e ↦ unfold new shutdown in ground (arith, e, v.running)
  | inr (q, e) ↦ ground (arith, e, v.open_queues key q e, v.running)
]

-- The other queues stay what they were.
get_recv_queue-lookup :
    (key k : Bytes) (l : LinkContext)
    → (k == key) ≡ false
    → lookup k (get_recv_queue key l).0.in_data ≡ lookup k l.in_data
unfolding get_recv_queue
get_recv_queue-lookup key k l h = elim (Option-cases (lookup key l.in_data)) [
  | inl e ↦ rw (e, get_recv_queue) (rw (lookup-assign key k _ l.in_data, h))
  | inr (q, e) ↦ rw (e, get_recv_queue)
]

-- The context with this queue in place of the one at the key.
abbrev pub stored : Bytes → Queue Bytes → LinkContext → LinkContext
stored key q l = let m = (get_recv_queue key l).0 in record m { in_data = assign key q m.in_data }

stored-complete :
    (key : Bytes) (q : Queue Bytes) (l : LinkContext) → (stored key q l).complete ≡ l.complete
unfolding get_recv_queue
stored-complete key q l = ground arith

lookup-stored :
    (key k : Bytes) (q : Queue Bytes) (l : LinkContext)
    → lookup k (stored key q l).in_data ≡ (if k == key then some q else lookup k l.in_data)
lookup-stored key k q l = elim (Bool-cases (k == key)) [
  | inl e ↦ rw (lookup-assign key k q (get_recv_queue key l).0.in_data, e)
  | inr e ↦
      rw (lookup-assign key k q (get_recv_queue key l).0.in_data, e)
        (get_recv_queue-lookup key k l e)
]

stored-IsOpen :
    (key : Bytes) (q : Queue Bytes) (l : LinkContext)
    → q.stop ≡ false
    → IsOpen l
    → IsOpen (stored key q l)
stored-IsOpen key q l h v = record {
  running = (get_recv_queue-pending key l v).1;
  open_queues = λ k r e. ground (arith, e, lookup-stored key k q l, v.open_queues k r);
}

pending-stored :
    (key k : Bytes) (q : Queue Bytes) (l : LinkContext)
    → pending k (stored key q l) ≡ (if k == key then q.items else pending k l)
unfolding pending
pending-stored key k q l = ground (arith, lookup-stored key k q l)

deliver-IsOpen : (key a : Bytes) (l : LinkContext) → IsOpen l → IsOpen (deliver key a l)
unfolding deliver
deliver-IsOpen key a l v =
    stored-IsOpen key _ l (unfold push in ap (λ q. q.stop) (get_recv_queue-pending key l v).0) v

-- A message goes behind those that wait on its key, and to no other key.
pending-deliver :
    (key k a : Bytes) (l : LinkContext)
    → IsOpen l
    → pending k (deliver key a l) ≡ (if k == key then pending k l ++ a ∷ [] else pending k l)
unfolding deliver
pending-deliver key k a l v =
    unfold push in
    ground (
      arith,
      pending-stored key k (push a (get_recv_queue key l).1) l,
      get_recv_queue-pending key l v,
      ==_iff k key,
    )

-- A receiver on a key with messages gets the oldest, only that one leaves, and the queues of
-- acknowledgements are what they were.
pub recv_oldest :
    (key a : Bytes) (rest : List Bytes) (l : LinkContext)
    → IsOpen l
    → pending key l ≡ a ∷ rest
    → (m : LinkContext) × (recv key l ≡ returns success a m)
      × IsOpen m
      × ((k : Bytes) → pending k m ≡ (if k == key then rest else pending k l))
      × (m.complete ≡ l.complete)
unfolding recv wait_and_pop
recv_oldest key a rest l v h =
    let q : Queue Bytes = record { items = rest; stop = false } in
    let e = get_recv_queue-pending key l v in
    (
      stored key q l,
      ground (arith, e, h),
      stored-IsOpen key q l refl v,
      λ k. pending-stored key k q l,
      stored-complete key q l,
    )

-- A receiver on a key with no message sleeps.
recv_waits :
    (key : Bytes) (l : LinkContext)
    → IsOpen l
    → pending key l ≡ []
    → recv key l ≡ waits (get_recv_queue key l).0
unfolding recv wait_and_pop
recv_waits key l v h = ground (arith, get_recv_queue-pending key l v, h)

unfoldable pub deliver_all : List (Bytes × Bytes) → LinkContext → LinkContext
deliver_all [] l = l
deliver_all ((key, a) ∷ r) l = deliver_all r (deliver key a l)

-- `n` calls of `Recv` on a key, with the messages that they return; `none` if one of them sleeps.
unfoldable pub recv_many : ℕ → Bytes → LinkContext → Option (List Bytes)
recv_many zero key l = some []
recv_many (suc n) key l = elim (recv key l) [
  | waits m ↦ none
  | returns r a m ↦ elim (recv_many n key m) [ none ↦ none | some xs ↦ some (a ∷ xs) ]
]

-- The messages for one key.
unfoldable pub addressed : Bytes → List (Bytes × Bytes) → List Bytes
addressed key [] = []
addressed key ((k, a) ∷ r) = let rest = addressed key r in if key == k then a ∷ rest else rest

pub deliver_all-pending :
    (msgs : List (Bytes × Bytes)) (key : Bytes) (l : LinkContext)
    → IsOpen l
    → IsOpen (deliver_all msgs l)
      × (pending key (deliver_all msgs l) ≡ pending key l ++ addressed key msgs)
unfolding deliver_all addressed
deliver_all-pending [] key l v = (v, sym (append-nil _))
deliver_all-pending ((k, a) ∷ r) key l v =
    let ih = deliver_all-pending r key (deliver k a l) (deliver-IsOpen k a l v) in
    (
      ih.0,
      ground (
        arith,
        ih.1,
        pending-deliver k key a l v,
        append_assoc (pending key l) (a ∷ []) (addressed key r),
      ),
    )

recv_many-pending :
    (xs : List Bytes) (key : Bytes) (l : LinkContext)
    → IsOpen l
    → pending key l ≡ xs
    → (recv_many (length xs) key l ≡ some xs) × (recv_many (suc (length xs)) key l ≡ none)
unfolding recv_many
recv_many-pending [] key l v h = (refl, ground (arith, recv_waits key l v h))
recv_many-pending (a ∷ xs) key l v h =
    let (m, e, w, p, c) = recv_oldest key a xs l v h in
    let ih = recv_many-pending xs key m w (ground (arith, p key, ==_refl key)) in
    (ground (arith, e, ih.0), ground (arith, e, ih.1))

-- Messages arrive on any keys of an open context on which none waits for this key. Then as many calls
-- of `Recv` on the key as it was sent messages return, and give exactly these messages in the order
-- of their arrival, however the other keys' messages were mixed in; one call more sleeps.
pub recv_many-deliver_all :
    (msgs : List (Bytes × Bytes)) (key : Bytes) (l : LinkContext)
    → IsOpen l
    → pending key l ≡ []
    → (recv_many (length (addressed key msgs)) key (deliver_all msgs l) ≡ some (addressed key msgs))
      × (recv_many (suc (length (addressed key msgs))) key (deliver_all msgs l) ≡ none)
recv_many-deliver_all msgs key l v h =
    let (w, p) = deliver_all-pending msgs key l v in
    recv_many-pending (addressed key msgs) key _ w (ground (arith, p, h))
