-- ===== src/Grpc/Context.antt =====
-- src/primihub/util/network/grpc_link_context.cc: `GrpcLinkContext::getChannel`, by which a task has one channel
-- to each node. A channel is what `build_channel` gives for its node; threads that ask at once are the
-- two halves of the call, in any order.
use primihub.Prelude.{
  ◌==◌, ◌^◌, ◌<◌, ◌≡◌, refl, sym, ap, ◌∙◌, ◌⊎◌, inl, inr, Option, none, some, List, [], ◌∷◌, arith,
  Bool-cases, Option-cases, Bytes, ==_iff, All,
}
use primihub.Common.{Node, to_string, from_string, default_node, node}
use primihub.Prelude.Dict.{Dict, assign, lookup, lookup-assign}
use primihub.Common.RoundTrip.{IsAddress, from_string-to_string}

-- Threads at work: a whole call, or the second half of a call whose first half found nothing.
pub data Access : Type 0 where
  whole : Node → Access
  store : Node → Access

abbrev pub asked : Access → Node
asked (whole peer) = peer
asked (store peer) = peer

-- The text form of the node can be read back.
pub record IsPlain (n : Node) : Type 0 where
  pub address : IsAddress n
  pub small_port : n.port < 2 ^ 31

to_string_injective : (n k : Node) → IsPlain n → IsPlain k → to_string n ≡ to_string k → n ≡ k
to_string_injective n k v w e =
    let a : from_string (to_string n) default_node ≡ node n =
      ground (arith, from_string-to_string n default_node v.address, v.small_port) in
    let b : from_string (to_string k) default_node ≡ node k =
      ground (arith, from_string-to_string k default_node w.address, w.small_port) in
    cc (a, b, e)

nothing_stored {ℓ} : {C : Type ℓ} (k : Bytes) {c : C} → lookup k [] ≡ some c → ⊥
unfolding lookup
nothing_stored k e = cc

module _ {ℓ} {C : Type ℓ} (build_channel : Node → C) where
  -- Under the shared lock: the channel if there is one.
  unfoldable find_channel : Node → Dict C → Option C
  find_channel peer connection_mgr = lookup (to_string peer) connection_mgr

  -- Under the other lock: a new channel takes its place.
  unfoldable store_channel : Node → Dict C → C × Dict C
  store_channel peer connection_mgr =
      (build_channel peer, assign (to_string peer) (build_channel peer) connection_mgr)

  -- The whole call, where no other thread comes between the two.
  unfoldable pub get_channel : Node → Dict C → C × Dict C
  unfolding find_channel store_channel
  get_channel peer connection_mgr = elim (find_channel peer connection_mgr) [
    | some channel ↦ (channel, connection_mgr)
    | none ↦ store_channel peer connection_mgr
  ]

  -- What such threads leave, one after the other.
  unfoldable pub access : List Access → Dict C → Dict C
  unfolding get_channel store_channel
  access [] m = m
  access (whole peer ∷ r) m = access r (get_channel peer m).1
  access (store peer ∷ r) m = access r (store_channel peer m).1

  -- Each channel was built for a node with the text form by which it is stored.
  abbrev IsBuilt : Dict C → Type ℓ
  IsBuilt m =
      (k : Bytes) (c : C)
      → lookup k m ≡ some c
      → (peer : Node) × IsPlain peer × (to_string peer ≡ k) × (build_channel peer ≡ c)

  store-IsBuilt :
      (peer : Node) (m : Dict C) → IsPlain peer → IsBuilt m → IsBuilt (store_channel peer m).1
  unfolding store_channel
  store-IsBuilt peer m p h k c e = elim (Bool-cases (k == to_string peer)) [
    | inl q ↦ (
      peer,
      p,
      ground (arith, q, ==_iff k (to_string peer)),
      ground (arith, q, e, lookup-assign (to_string peer) k (build_channel peer) m),
    )
    | inr q ↦ h k c (ground (arith, q, e, lookup-assign (to_string peer) k (build_channel peer) m))
  ]

  get_channel-cases :
      (peer : Node) (m : Dict C)
      → ((lookup (to_string peer) m ≡ none) × (get_channel peer m ≡ store_channel peer m))
        ⊎ ((c : C) × (lookup (to_string peer) m ≡ some c) × (get_channel peer m ≡ (c, m)))
  unfolding get_channel find_channel
  get_channel-cases peer m = elim (Option-cases (lookup (to_string peer) m)) [
    | inl e ↦ inl (e, ground (arith, e))
    | inr (c, e) ↦ inr (c, e, ground (arith, e))
  ]

  access-IsBuilt :
      (r : List Access) (m : Dict C)
      → All (λ (a : Access). IsPlain (asked a)) r
      → IsBuilt m
      → IsBuilt (access r m)
  unfolding access
  access-IsBuilt [] m p h = h
  access-IsBuilt (whole peer ∷ r) m p h = elim (get_channel-cases peer m) [
    | inl (e, q) ↦ rw q (access-IsBuilt r _ p.1 (store-IsBuilt peer m p.0 h))
    | inr (c, e, q) ↦ rw q (access-IsBuilt r m p.1 h)
  ]
  access-IsBuilt (store peer ∷ r) m p h = access-IsBuilt r _ p.1 (store-IsBuilt peer m p.0 h)

  -- A task that asks for the channel to a node gets one that was built for exactly that node, whatever
  -- its threads have asked for before, with their calls one after the other or in each other's midst:
  -- no two nodes share a channel. The ids, addresses and roles of the nodes have no colon and the ports
  -- fit in an `int`.
  pub get_channel-access :
      (r : List Access) (peer : Node)
      → All (λ (a : Access). IsPlain (asked a)) r
      → IsPlain peer
      → (get_channel peer (access r [])).0 ≡ build_channel peer
  get_channel-access r peer p v = elim (get_channel-cases peer (access r [])) [
    | inl (e, q) ↦ ap (λ (x : C × Dict C). x.0) q ∙ unfold store_channel in refl
    | inr (c, e, q) ↦
        let (n, w, t, b) =
          access-IsBuilt r [] p (λ k c f. absurd (nothing_stored k f)) (to_string peer) c e in
        ap (λ (x : C × Dict C). x.0) q ∙ sym b ∙ ap build_channel (to_string_injective n peer w v t)
  ]
