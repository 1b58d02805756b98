-- ===== src/Express/Mode.antt =====
-- src/primihub/executor/express.{h,cc}: `importExpress`, `resolveRunMode` and `createTokenValue`.
use primihub.Prelude.{
  ◌==◌, ℕ, Bool, true, false, ◌||◌, Option, none, some, List, [], ◌∷◌, nat_beq, if◌then◌else◌,
  Bytes,
}
use primihub.Prelude.Dict.{Dict, lookup, insert}
use primihub.Express.Parse.{over, is_operator_token, parse_express, check_express}
use primihub.Express.Config.{
  ColumnConfig, get_column_dtype, get_column_locality, resolve_local_column, has_fp64_column,
}
use primihub.Express.Value.{TokenValue, column, constant, remote}

-- The code, where 1 is -1, and the new `suffix_stk_`; `none` is a read beyond the text.
unfoldable pub import_express : Bytes → List Bytes → Option (ℕ × List Bytes)
unfolding parse_express check_express
import_express expr suffix_stk = elim (parse_express expr suffix_stk) [
  | none ↦ none
  | some suffix ↦ if check_express suffix then some (0, suffix) else some (1, suffix)
]

-- `COLUMN` and `VALUE`.
pub data TokenType : Type 0 where
  column_type value_type : TokenType

abbrev point : ℕ
point = 46

-- `token.find(".")`.
abbrev has_point : Bytes → Bool
has_point [] = false
has_point (c ∷ s) = nat_beq c point || has_point s

-- The loop: the types of the tokens, `has_div_op` and `has_fp64_val`. `none` is an exception.
unfoldable pub resolve_tokens :
    ColumnConfig → List Bytes → Dict TokenType → Bool → Bool → Option (Dict TokenType × Bool × Bool)
unfolding is_operator_token get_column_dtype insert
resolve_tokens cfg [] types has_div_op has_fp64_val = some (types, has_div_op, has_fp64_val)
resolve_tokens cfg (token ∷ suffix) types has_div_op has_fp64_val = elim (is_operator_token token) [
  | true ↦ resolve_tokens cfg suffix types (has_div_op || (token == (over ∷ []))) has_fp64_val
  | false ↦ elim (get_column_dtype token cfg) [
    | none ↦ none
    | some (code, dtype) ↦ elim (nat_beq code 0) [
      | true ↦ resolve_tokens cfg suffix (insert token column_type types) has_div_op has_fp64_val
      | false ↦
          resolve_tokens cfg suffix (insert token value_type types) has_div_op
            (has_fp64_val || has_point token)
    ]
  ]
]

-- The configuration, the types of the tokens, and `fp64_run_`.
unfoldable pub resolve_run_mode :
    List Bytes → ColumnConfig → Dict TokenType → Option (ColumnConfig × Dict TokenType × Bool)
unfolding resolve_local_column resolve_tokens
resolve_run_mode suffix_stk cfg types = elim (resolve_local_column cfg) [
  | none ↦ none
  | some resolved ↦ elim (resolve_tokens resolved suffix_stk types false false) [
    | none ↦ none
    | some (types2, has_div_op, has_fp64_val) ↦
        some (resolved, types2, has_div_op || (has_fp64_column resolved || has_fp64_val))
  ]
]

-- `token_type_map_[token]`, which is `COLUMN` for a token that is not there.
unfoldable pub type_of : Bytes → Dict TokenType → TokenType
unfolding lookup
type_of token types = elim (lookup token types) [ none ↦ column_type | some type ↦ type ]

-- `createTokenValue` of the shared run, in one run mode: `get` is `getColumnValues` in it, `number` is
-- `std::stod` or `atol`. `none` is the code -2 or an exception.
unfoldable pub create_token_value :
    {V Share : Type 0}
    → Dict TokenType
    → ColumnConfig
    → (Bytes → Option (ℕ × List V))
    → (Bytes → Option V)
    → Bytes
    → Option (TokenValue V Share)
unfolding type_of get_column_locality
create_token_value types cfg get number token = elim (type_of token types) [
  | column_type ↦ elim (get_column_locality token cfg) [
    | none ↦ none
    | some false ↦ some (remote token)
    | some true ↦ elim (get token) [
      | none ↦ none
      | some (code, vec) ↦ if nat_beq code 0 then some (column vec) else none
    ]
  ]
  | value_type ↦ elim (number token) [ none ↦ none | some c ↦ some (constant c) ]
]
