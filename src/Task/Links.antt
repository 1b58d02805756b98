-- ===== src/Task/Links.antt =====
-- src/primihub/task/semantic/scheduler/aby3_scheduler.cc: whether the parties' links meet.
use primihub.Prelude.{
  ◌==◌, ℕ, ◌+◌, ◌%◌, ◌≡◌, refl, ◌⊎◌, inl, inr, false, some, [], ◌∷◌, arith, Bytes, length,
}
use primihub.Task.{PartyNode}
use primihub.Task.Aby3.{
  EndPoint, VirtualMachine, server, client, end_point, link_name, add_vm, distinct, add_vms,
  plan_links, planned,
}
use primihub.Common.{Node, to_string}
use primihub.Grpc.{TaskContext}

-- What the two ends of a link have in common, and the addresses at which they reach each other.
pub record IsLink (a b : Node) (x y : EndPoint) : Type 0 where
  pub same_port : x.port ≡ y.port
  pub same_name : x.name ≡ y.name
  pub opposite :
      ((x.link_type ≡ server) × (y.link_type ≡ client))
      ⊎ ((x.link_type ≡ client) × (y.link_type ≡ server))
  pub there : x.ip ≡ b.ip
  pub back : y.ip ≡ a.ip

abbrev AreDistinct : Bytes → Bytes → Bytes → Type 0
AreDistinct x y z = ((x == y) ≡ false) × ((x == z) ≡ false) × ((y == z) ≡ false)

distinct_three : (x y z : Bytes) → AreDistinct x y z → length (distinct (x ∷ y ∷ z ∷ [])) ≡ 3
unfolding distinct
distinct_three x y z d = ground (arith, d.0, d.1, d.2)

-- The machine of a party, where the nodes stand in this order.
abbrev pub machine : TaskContext → ℕ → Bytes → Bytes → VirtualMachine
machine info i next prev = record {
  party_id = i;
  next = end_point info i ((i + 1) % 3) next;
  prev = end_point info i ((i + 2) % 3) prev;
}

plan_three :
    (info : TaskContext) (k l m : Bytes) (p q r : PartyNode) (u v w : VirtualMachine)
    → AreDistinct k l m
    → AreDistinct (to_string p.node_info) (to_string q.node_info) (to_string r.node_info)
    → add_vm info p.party_id (p.node_info ∷ q.node_info ∷ r.node_info ∷ []) ≡ some u
    → add_vm info q.party_id (p.node_info ∷ q.node_info ∷ r.node_info ∷ []) ≡ some v
    → add_vm info r.party_id (p.node_info ∷ q.node_info ∷ r.node_info ∷ []) ≡ some w
    → plan_links info ((k, p) ∷ (l, q) ∷ (m, r) ∷ [])
      ≡ planned (
          record { party_name = k; party = p; vm = u }
          ∷ record { party_name = l; party = q; vm = v }
          ∷ record { party_name = m; party = r; vm = w }
          ∷ [])
unfolding plan_links add_vms
plan_three info k l m p q r u v w d e x y z =
    let f = distinct_three k l m d in let g = distinct_three _ _ _ e in rw (f, g, x, y, z) refl

-- The links of three parties with different names and addresses, if the map of the parties gives them in
-- the order of their ids: what each has for the next party and what that has for its previous one are
-- two ends of one link, with one port and one name, of which one listens, and with each other's
-- addresses.
pub plan_links-IsLink :
    (info : TaskContext) (k l m : Bytes) (a b c : Node)
    → AreDistinct k l m
    → AreDistinct (to_string a) (to_string b) (to_string c)
    → (u v w : VirtualMachine) × (plan_links info (
          (k, record { node_info = a; party_id = 0 })
          ∷ (l, record { node_info = b; party_id = 1 })
          ∷ (m, record { node_info = c; party_id = 2 })
          ∷ [])
        ≡ planned (
            record { party_name = k; party = record { node_info = a; party_id = 0 }; vm = u }
            ∷ record { party_name = l; party = record { node_info = b; party_id = 1 }; vm = v }
            ∷ record { party_name = m; party = record { node_info = c; party_id = 2 }; vm = w }
            ∷ []))
      × IsLink a b u.next v.prev
      × IsLink b c v.next w.prev
      × IsLink c a w.next u.prev
unfolding add_vm end_point link_name
plan_links-IsLink info k l m a b c d e = (
  machine info 0 b.ip c.ip,
  machine info 1 c.ip a.ip,
  machine info 2 a.ip b.ip,
  plan_three info k l m _ _ _ _ _ _ d e refl refl refl,
  record {
    same_port = refl;
    same_name = refl;
    opposite = inl (refl, refl);
    there = refl;
    back = refl;
  },
  record {
    same_port = refl;
    same_name = refl;
    opposite = inl (refl, refl);
    there = refl;
    back = refl;
  },
  record {
    same_port = refl;
    same_name = refl;
    opposite = inr (refl, refl);
    there = refl;
    back = refl;
  },
)

-- Where the map of the parties gives the second before the first, the addresses are crossed: the first
-- party is told to reach the next one at its own address, and the second to reach the previous one at
-- its own.
pub plan_links_crossed :
    (info : TaskContext) (k l m : Bytes) (a b c : Node)
    → AreDistinct k l m
    → AreDistinct (to_string b) (to_string a) (to_string c)
    → (u v w : VirtualMachine) × (plan_links info (
          (k, record { node_info = b; party_id = 1 })
          ∷ (l, record { node_info = a; party_id = 0 })
          ∷ (m, record { node_info = c; party_id = 2 })
          ∷ [])
        ≡ planned (
            record { party_name = k; party = record { node_info = b; party_id = 1 }; vm = v }
            ∷ record { party_name = l; party = record { node_info = a; party_id = 0 }; vm = u }
            ∷ record { party_name = m; party = record { node_info = c; party_id = 2 }; vm = w }
            ∷ []))
      × (u.next.ip ≡ a.ip)
      × (v.prev.ip ≡ b.ip)
unfolding add_vm end_point
plan_links_crossed info k l m a b c d e = (
  machine info 0 a.ip c.ip,
  machine info 1 c.ip b.ip,
  machine info 2 b.ip a.ip,
  plan_three info k l m _ _ _ _ _ _ d e refl refl refl,
  refl,
  refl,
)
