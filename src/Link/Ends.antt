-- ===== src/Link/Ends.antt =====
-- src/primihub/util/network/mem_channel.{h,cc}: what one end of a channel in memory receives of what the other
-- sends.
use primihub.Prelude.{
  ◌==◌, ℕ, suc, ◌≡◌, refl, sym, ap, subst, ◌∙◌, inl, inr, Bool, true, false, none, some, List, [],
  ◌∷◌, ◌++◌, append_assoc, arith, Option-cases, Bytes, ==_iff, ==_refl, ne_of_==, ==_of_ne, length,
}
use primihub.Link.{LinkContext}
use primihub.Link.Memory.{
  Storage, MemoryChannel, key_of, touch, open_channel, send_impl, exchange, recv_impl_many,
}
use primihub.Link.Order.{pending, IsOpen, deliver_all, addressed, recv_many, recv_many-deliver_all}
use primihub.Common.Split.{Lacks, split, split-Lacks}
use primihub.Queue.{new}
use primihub.Prelude.Dict.{assign, lookup, lookup-assign}
use primihub.Link.Storage.{context, send_impl-deliver, recv_impl_many-recv_many}

-- What the first end sends, under its key, and what the other sends, under its own.
abbrev keyed : MemoryChannel → MemoryChannel → List (Bool × Bytes) → List (Bytes × Bytes)
keyed a b [] = []
keyed a b ((true, m) ∷ r) = (a.send_key, m) ∷ keyed a b r
keyed a b ((false, m) ∷ r) = (b.send_key, m) ∷ keyed a b r

abbrev sent_by_first : List (Bool × Bytes) → List Bytes
sent_by_first [] = []
sent_by_first ((true, m) ∷ r) = m ∷ sent_by_first r
sent_by_first ((false, m) ∷ r) = sent_by_first r

exchange-deliver_all :
    (a b : MemoryChannel) (ms : List (Bool × Bytes)) (st : Storage)
    → context (exchange a b ms st) ≡ deliver_all (keyed a b ms) (context st)
unfolding exchange deliver_all
exchange-deliver_all a b [] st = refl
exchange-deliver_all a b ((true, m) ∷ r) st =
    exchange-deliver_all a b r (send_impl m a st).1
    ∙ ap (deliver_all (keyed a b r)) (send_impl-deliver m a st)
exchange-deliver_all a b ((false, m) ∷ r) st =
    exchange-deliver_all a b r (send_impl m b st).1
    ∙ ap (deliver_all (keyed a b r)) (send_impl-deliver m b st)

addressed-keyed :
    (a b : MemoryChannel) (ms : List (Bool × Bytes))
    → (a.send_key == b.send_key) ≡ false
    → addressed a.send_key (keyed a b ms) ≡ sent_by_first ms
unfolding addressed
addressed-keyed a b [] h = refl
addressed-keyed a b ((true, m) ∷ r) h = ground (arith, addressed-keyed a b r h, ==_refl a.send_key)
addressed-keyed a b ((false, m) ∷ r) h = ground (arith, addressed-keyed a b r h, h)

-- Two texts without the separator, joined by it in both orders.
swap_parts : (a b : Bytes) → Lacks b'_' a → Lacks b'_' b → a ++ (b'_' ∷ b) ≡ b ++ (b'_' ∷ a) → a ≡ b
swap_parts a b h k e =
    let p = split-Lacks b'_' a b h in
    let q = split-Lacks b'_' b a k in cc (p, q, ap (λ (s : Bytes). split s b'_') e)

append_cancel : (x y z : Bytes) → x ++ y ≡ x ++ z → y ≡ z
append_cancel [] y z h = h
append_cancel (c ∷ x) y z h = append_cancel x y z (cc (h))

keys_differ :
    (r a b : Bytes)
    → (a == b) ≡ false
    → Lacks b'_' a
    → Lacks b'_' b
    → (key_of r a b == key_of r b a) ≡ false
keys_differ r a b d h k =
    ==_of_ne (key_of r a b) (key_of r b a)
      (λ e. ne_of_== a b d (swap_parts a b h k (cc (append_cancel r _ _ e))))

-- Creating a queue changes nothing that can be received.
touch_frame :
    (k : Bytes) (st : Storage)
    → IsOpen (context st)
    → IsOpen (context (touch k st))
      × ((j : Bytes) → pending j (context (touch k st)) ≡ pending j (context st))
unfolding touch pending new
touch_frame k st o = elim (Option-cases (lookup k st)) [
  | inl e ↦
      let t : touch k st ≡ assign k new st = ground (arith, e) in
      (
        record {
          running = refl;
          open_queues = λ j q h. ground (arith, h, e, lookup-assign k j new st, o.open_queues j q);
        },
        λ j. ground (arith, e, lookup-assign k j new st, ==_iff j k),
      )
  | inr (q, e) ↦ let t : touch k st ≡ st = ground (arith, e) in (rw t o, λ j. rw t refl)
]

-- The two ends of a channel of a request, and the storage when both have been opened.
abbrev pub first_end : Bytes → Bytes → Bytes → MemoryChannel
first_end r a b = (open_channel r a b []).0

abbrev pub second_end : Bytes → Bytes → Bytes → MemoryChannel
second_end r a b = (open_channel r b a (open_channel r a b []).1).0

abbrev pub both_open : Bytes → Bytes → Bytes → Storage
both_open r a b = (open_channel r b a (open_channel r a b []).1).1

empty_IsOpen : IsOpen (context [])
unfolding lookup
empty_IsOpen = record { running = refl; open_queues = λ k q e. absurd (ground (arith, e)) }

-- Whatever two nodes send each other over a channel in memory, and in whatever order: the second receives
-- exactly what the first has sent, in its order, and then waits. The nodes are different, and their ids
-- have no underscore.
pub recv_impl_many-exchange :
    (r a b : Bytes) (ms : List (Bool × Bytes))
    → (a == b) ≡ false
    → Lacks b'_' a
    → Lacks b'_' b
    → (recv_impl_many
          (length (sent_by_first ms))
          (second_end r a b)
          (exchange (first_end r a b) (second_end r a b) ms (both_open r a b))
        ≡ some (sent_by_first ms))
      × (recv_impl_many
            (suc (length (sent_by_first ms)))
            (second_end r a b)
            (exchange (first_end r a b) (second_end r a b) ms (both_open r a b))
          ≡ none)
unfolding open_channel
recv_impl_many-exchange r a b ms d h k =
    let x : MemoryChannel = record { send_key = key_of r a b; recv_key = key_of r b a } in
    let y : MemoryChannel = record { send_key = key_of r b a; recv_key = key_of r a b } in
    let o = touch_frame (key_of r a b) [] empty_IsOpen in
    let o1 = touch_frame (key_of r b a) _ o.0 in
    let o2 = touch_frame (key_of r b a) _ o1.0 in
    let o3 = touch_frame (key_of r a b) _ o2.0 in
    let p : pending (key_of r a b) (context (both_open r a b)) ≡ [] =
      o3.1 _ ∙ o2.1 _ ∙ o1.1 _ ∙ o.1 _ ∙ unfold pending lookup in refl in
    let e = addressed-keyed x y ms (keys_differ r a b d h k) in
    let m =
      recv_many-deliver_all (keyed x y ms) (key_of r a b) (context (both_open r a b)) o3.0 p in
    let g = exchange-deliver_all x y ms (both_open r a b) in
    let v : LinkContext = deliver_all (keyed x y ms) (context (both_open r a b)) in
    let same = λ (n : ℕ).
      recv_impl_many-recv_many n y (exchange x y ms (both_open r a b))
      ∙ ap (recv_many n (key_of r a b)) g in
    (
      same (length (sent_by_first ms))
          ∙ subst (λ (xs : List Bytes). recv_many (length xs) (key_of r a b) v ≡ some xs) e m.0,
      same (suc (length (sent_by_first ms)))
          ∙ subst (λ (xs : List Bytes). recv_many (suc (length xs)) (key_of r a b) v ≡ none) e m.1,
    )

-- An underscore in an id can make the two keys one: then a node receives what it sent itself.
own_message :
    (r a : Bytes)
    → (first_end r a (a ++ (b'_' ∷ a))).send_key ≡ (first_end r a (a ++ (b'_' ∷ a))).recv_key
unfolding open_channel
own_message r a = ap (λ (s : Bytes). r ++ (b'_' ∷ s)) (sym (append_assoc a (b'_' ∷ a) (b'_' ∷ a)))
