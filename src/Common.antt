-- ===== src/Common.antt =====
-- src/primihub/common/common.h and src/primihub/util/util.cc: nodes, party names, and the text form
-- of a node's address.
pub mod Decimal
pub mod Split
pub mod RoundTrip
pub mod Hex
pub mod Tests
use primihub.Prelude.{◌==◌, ℕ, Bool, false, none, some, [], ◌∷◌, ◌++◌, if◌then◌else◌, Bytes, codes}
use primihub.Common.Decimal.{print, stoi}
use primihub.Common.Split.{split}

pub record Node : Type 0 where
  pub id : Bytes
  pub ip : Bytes
  pub port : ℕ  -- uint32_t
  pub use_tls : Bool
  pub role : Bytes

abbrev pub party_client : Bytes
party_client = codes "CLIENT"

abbrev pub party_server : Bytes
party_server = codes "SERVER"

abbrev pub party_tee_compute : Bytes
party_tee_compute = codes "TEE_COMPUTE"

unfoldable pub is_client : Bytes → Bool
is_client party_name = party_name == party_client

unfoldable pub is_server : Bytes → Bool
is_server party_name = party_name == party_server

unfoldable pub is_tee_compute : Bytes → Bool
is_tee_compute party_name = party_name == party_tee_compute

abbrev pub default_node : Node
default_node = record { id = []; ip = []; port = 0; use_tls = false; role = [] }

abbrev pub colon : ℕ
colon = b':'

-- `Node::to_string`.
unfoldable pub to_string : Node → Bytes
to_string n =
    n.id
    ++ (colon
        ∷ (n.ip
            ++ (colon
                ∷ (print n.port
                    ++ (colon ∷ ((if n.use_tls then b'1' else b'0') ∷ (colon ∷ n.role)))))))

-- What reading an address can do: it gives a node, the return code FAIL, an exception from
-- `std::stoi`, or a read behind the end of the vector of parts.
pub data Read : Type 0 where
  node : Node → Read
  fails : Read
  throws : Read
  out_of_range : Read

abbrev pub is_one : Bytes → Bool
is_one s = s == b'1' ∷ []

-- `parseToNode` and `parseTopbNode`: the role is not read.
unfoldable pub parse_to_node : Bytes → Node → Read
parse_to_node node_info old = elim (split node_info colon) [
  | a ∷ b ∷ c ∷ d ∷ r ↦ elim (stoi c) [
    | none ↦ throws
    | some port ↦ node (record old { id = a; ip = b; port = port; use_tls = is_one d })
  ]
  | _ ↦ fails
]

-- `Node::fromString`: the role is read if there are five parts, and the parts are not counted before
-- they are used.
unfoldable pub from_string : Bytes → Node → Read
from_string node_info old = elim (split node_info colon) [
  | a ∷ b ∷ c ∷ r ↦ elim (stoi c) [
    | none ↦ throws
    | some port ↦ elim r [
      | [] ↦ out_of_range
      | d ∷ [] ↦ node (record old { id = a; ip = b; port = port; use_tls = is_one d })
      | d ∷ e ∷ [] ↦ node (record { id = a; ip = b; port = port; use_tls = is_one d; role = e })
      | d ∷ e ∷ f ∷ q ↦ node (record old { id = a; ip = b; port = port; use_tls = is_one d })
    ]
  ]
  | _ ↦ out_of_range
]
