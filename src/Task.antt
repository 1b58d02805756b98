-- ===== src/Task.antt =====
-- src/primihub/task: how the scheduler's side of a task is set up, from the request to the messages to the
-- parties.
pub mod Names
pub mod Merge
pub mod Aby3
pub mod Datasets
pub mod Schedule
pub mod Named
pub mod Owners
pub mod Dispatched
pub mod Links
pub mod Tests
use primihub.Prelude.{◌==◌, ℕ, ◌+◌, Bool, true, false, [], ◌∷◌, ltb, nat_beq, if◌then◌else◌, Bytes}
use primihub.Common.{Node}
use primihub.Prelude.Dict.{Dict}

-- `rpc::Node` as a party's entry: the node, and the id of the party.
pub record PartyNode : Type 0 where
  pub node_info : Node
  pub party_id : ℕ

-- `operator<` of `std::string`, by which `std::map` sorts: bytes in lexicographic order.
unfoldable pub less : Bytes → Bytes → Bool
less xs [] = false
less [] (y ∷ ys) = true
less (x ∷ xs) (y ∷ ys) = let rest = less xs ys in if nat_beq x y then rest else ltb x y

-- `if (m.find(k) == m.end()) m[k] = v` on a `std::map`, whose entries stand in the order of their keys.
unfoldable pub put_new {ℓ} : {V : Type ℓ} → Bytes → V → Dict V → Dict V
unfolding less
put_new k v [] = (k, v) ∷ []
put_new k v ((j, w) ∷ m) =
    let rest = put_new k v m in
    if k == j then (j, w) ∷ m else if less k j then (k, v) ∷ (j, w) ∷ m else (j, w) ∷ rest

-- The two loops of `MergePartyAccessInfo` that fill the map of the parties.
unfoldable pub add_requested : Dict PartyNode → Dict Node → Dict Node
unfolding put_new
add_requested [] m = m
add_requested ((k, p) ∷ r) m = add_requested r (put_new k p.node_info m)

unfoldable pub add_found : Dict Node → Dict Node → Dict Node
unfolding put_new
add_found [] m = m
add_found ((k, n) ∷ r) m = add_found r (put_new k n m)

-- Its last loop, with the next party id.
unfoldable pub refill : ℕ → Dict Node → Dict PartyNode
refill party_id [] = []
refill party_id ((k, n) ∷ r) =
    (k, record { node_info = n; party_id = party_id }) ∷ refill (party_id + 1) r

-- `LanguageParser::MergePartyAccessInfo`: the entries of the request, in the order in which its map gives
-- them, and those found.
unfoldable pub merge_party_access_info : Dict PartyNode → Dict Node → Dict PartyNode
unfolding add_requested add_found refill
merge_party_access_info requested found = refill 0 (add_found found (add_requested requested []))
