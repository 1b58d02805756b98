-- ===== src/Common/RoundTrip.antt =====
-- src/primihub/common/common.h and src/primihub/util/util.cc: a node's address is read back from its
-- text.
use primihub.Prelude.{
  ◌==◌, ◌-◌, ◌^◌, ◌<◌, ◌≡◌, refl, ap, ◌∙◌, ◌⊎◌, Bool, true, false, List, [], ◌∷◌, arith, leb,
  if◌then◌else◌, Bytes, length,
}
use primihub.Common.{
  Node, from_string, is_one, parse_to_node, to_string, colon, node, fails, throws, out_of_range,
}
use primihub.Common.Split.{Lacks, split, split-Lacks, split_last}
use primihub.Common.Decimal.{print, stoi-print, print-Lacks}

-- The parts of an address hold no separator, and the port is a `uint32_t`.
pub record IsAddress (n : Node) : Type 0 where
  pub id_clean : Lacks colon n.id
  pub ip_clean : Lacks colon n.ip
  pub role_clean : Lacks colon n.role

abbrev flag : Bool → Bytes
flag b = (if b then b'1' else b'0') ∷ []

flag-Lacks : (b : Bool) → Lacks colon (flag b)
flag-Lacks true = omega arith
flag-Lacks false = omega arith

flag-is_one : (b : Bool) → is_one (flag b) ≡ b
flag-is_one true = unfold ◌==◌ in refl
flag-is_one false = unfold ◌==◌ in refl

split-to_string :
    (n : Node)
    → IsAddress n
    → split (to_string n) colon ≡ n.id ∷ n.ip ∷ print n.port ∷ flag n.use_tls ∷ n.role ∷ []
unfolding to_string
split-to_string n v =
    split-Lacks colon n.id _ v.id_clean
    ∙ ap (◌∷◌ n.id) (
        split-Lacks colon n.ip _ v.ip_clean
        ∙ ap (◌∷◌ n.ip) (
            split-Lacks colon (print n.port) _ (print-Lacks n.port)
            ∙ ap (◌∷◌ (print n.port)) (
                split-Lacks colon (flag n.use_tls) n.role (flag-Lacks n.use_tls)
                ∙ ap (◌∷◌ (flag n.use_tls)) (split_last colon n.role v.role_clean))))

-- `Node::fromString` reads back every field of what `Node::to_string` writes, if id, address and role
-- hold no colon and the port is an `int`; for a greater port `std::stoi` throws.
pub from_string-to_string :
    (n old : Node)
    → IsAddress n
    → from_string (to_string n) old ≡ (if leb n.port (2 ^ 31 - 1) then node n else throws)
unfolding from_string
from_string-to_string n old v =
    rw (split-to_string n v, from_string) (ground (arith, stoi-print n.port, flag-is_one n.use_tls))

-- `parseToNode` reads back all but the role, which stays what it was, from what `Node::to_string`
-- writes, if id, address and role hold no colon and the port is an `int`; for a greater port it throws.
parse_to_node-to_string :
    (n old : Node)
    → IsAddress n
    → parse_to_node (to_string n) old
      ≡ (if leb n.port (2 ^ 31 - 1) then node (record n { role = old.role }) else throws)
unfolding parse_to_node
parse_to_node-to_string n old v =
    rw (split-to_string n v, parse_to_node)
      (ground (arith, stoi-print n.port, flag-is_one n.use_tls))

-- A text with fewer than three separators is refused by `parseToNode`, while `Node::fromString` reads
-- behind the end of the parts, unless the third part already makes `std::stoi` throw.
short_address :
    (s : Bytes) (old : Node)
    → length (split s colon) < 4
    → (parse_to_node s old ≡ fails)
      × ((from_string s old ≡ out_of_range) ⊎ (from_string s old ≡ throws))
unfolding from_string parse_to_node
short_address s old h = go (split s colon) refl h
  where
    go :
        (parts : List Bytes)
        → split s colon ≡ parts
        → length parts < 4
        → (parse_to_node s old ≡ fails)
          × ((from_string s old ≡ out_of_range) ⊎ (from_string s old ≡ throws))
    go [] e k = ground (arith, e)
    go (a ∷ []) e k = ground (arith, e)
    go (a ∷ b ∷ []) e k = ground (arith, e)
    go (a ∷ b ∷ c ∷ []) e k = ground (arith, e)
    go (a ∷ b ∷ c ∷ d ∷ r) e k = absurd (omega arith)
