-- ===== src/Express/Copy.antt =====
-- src/primihub/executor/express.{h,cc}: `LocalExpressExecutor`, which has the columns of all parties: its
-- configuration, its dictionary of values, and the values of its tokens.
mod Values
use primihub.Prelude.{
  ℕ, Bool, true, Option, none, some, List, [], ◌∷◌, nat_beq, if◌then◌else◌, Bytes,
}
use primihub.Prelude.Dict.{Dict, insert}
use primihub.Express.Config.{ColumnConfig, ColDtype}
use primihub.Express.Feed.{FeedDict, new_feed, import_fp64}
use primihub.Express.Mode.{TokenType, column_type, value_type, type_of}
use primihub.Express.Value.{TokenValue, column, constant}

-- All columns that the shared run knows become local.
unfoldable all_local : Dict Bool → Dict Bool → Dict Bool
unfolding insert
all_local [] local_col = local_col
all_local ((col_name, is_local) ∷ outside) local_col =
    all_local outside (insert col_name true local_col)

unfoldable copy_dtypes : Dict ColDtype → Dict ColDtype → Dict ColDtype
unfolding insert
copy_dtypes [] col_dtype = col_dtype
copy_dtypes ((col_name, dtype) ∷ outside) col_dtype =
    copy_dtypes outside (insert col_name dtype col_dtype)

-- `createNewColumnConfig`.
unfoldable create_new_column_config : ColumnConfig → ColumnConfig
unfolding all_local copy_dtypes
create_new_column_config outside = record {
  party_id = outside.party_id;
  col_owner = [];
  col_dtype = copy_dtypes outside.col_dtype [];
  local_col = all_local outside.local_col [];
}

-- `createTokenValue` of the local executor, in one run mode. `none` is the code -1 or an exception.
unfoldable local_token_value :
    {V Share : Type 0}
    → Dict TokenType
    → (Bytes → Option (ℕ × List V))
    → (Bytes → Option V)
    → Bytes
    → Option (TokenValue V Share)
unfolding type_of
local_token_value types get number token = elim (type_of token types) [
  | column_type ↦ elim (get token) [
    | none ↦ none
    | some (code, vec) ↦ if nat_beq code 0 then some (column vec) else none
  ]
  | value_type ↦ elim (number token) [ none ↦ none | some c ↦ some (constant c) ]
]

module _ {I F : Type 0} where
  -- `importColumnValues` of all columns, whose codes nobody looks at; `none` is an exception.
  unfoldable import_columns : Dict (List F) → FeedDict I F → Option (FeedDict I F)
  unfolding import_fp64
  import_columns [] feed = some feed
  import_columns ((col_name, vec) ∷ col_and_val) feed = elim (import_fp64 col_name vec feed) [
    | none ↦ none
    | some (code, next) ↦ import_columns col_and_val next
  ]

  -- `init` for doubles; `fp64_run` is that of the shared run.
  unfoldable init : ColumnConfig → Bool → Dict (List F) → Option (FeedDict I F)
  unfolding create_new_column_config import_columns
  init outside fp64_run col_and_val =
      import_columns col_and_val (new_feed (create_new_column_config outside) fp64_run)
