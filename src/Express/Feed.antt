-- ===== src/Express/Feed.antt =====
-- src/primihub/executor/express.{h,cc}: `FeedDict`, which has the values of the local columns.
use primihub.Prelude.{
  ℕ, ◌-◌, ◌%◌, ◌^◌, Bool, true, false, not, Option, none, some, List, [], map, nat_beq,
  if◌then◌else◌, is_set, Bytes, length,
}
use primihub.Prelude.Dict.{Dict, lookup, insert}
use primihub.Express.Config.{ColumnConfig, int64, fp64, get_column_locality, get_column_dtype}

-- `I` and `F` are `int64_t` and `double`. The count -1 is `none`.
pub record FeedDict (I F : Type 0) : Type 0 where
  pub float_run : Bool
  pub val_count : Option ℕ
  pub fp64_col : Dict (List F)
  pub int64_col : Dict (List I)
  pub col_config : ColumnConfig

module _ {I F : Type 0} where
  abbrev pub new_feed : ColumnConfig → Bool → FeedDict I F
  new_feed col_config float_run = record {
    float_run = float_run;
    val_count = none;
    fp64_col = [];
    int64_col = [];
    col_config = col_config;
  }

  -- Whether the count is that of the first column, and the new state.
  unfoldable pub set_or_check_value_count : ℕ → FeedDict I F → Bool × FeedDict I F
  set_or_check_value_count new_count feed = elim feed.val_count [
    | none ↦ (true, record feed { val_count = some new_count })
    | some n ↦ (nat_beq n new_count, feed)
  ]

  -- The block at the start of the operations: `none` is an exception, and `some false` the code -1.
  unfoldable pub is_local_column : Bytes → FeedDict I F → Option Bool
  unfolding get_column_locality
  is_local_column col_name feed = get_column_locality col_name feed.col_config

  -- `importColumnValues` of doubles. The code, where `n` is `-n`, and the new state; `none` is an
  -- exception.
  unfoldable pub import_fp64 : Bytes → List F → FeedDict I F → Option (ℕ × FeedDict I F)
  unfolding set_or_check_value_count is_local_column
  import_fp64 col_name fp64_vec feed = elim (is_local_column col_name feed) [
    | none ↦ none
    | some false ↦ some (1, feed)
    | some true ↦
        let (ok, counted) = set_or_check_value_count (length fp64_vec) feed in
        if not ok
        then some (2, counted)
        else if not feed.float_run
        then some (1, counted)
        else if is_set (lookup col_name feed.fp64_col)
        then some (2, counted)
        else some (0, record counted { fp64_col = insert col_name fp64_vec feed.fp64_col })
  ]

  -- The branch for `float_run_`: the second insertion finds the column that the first has made.
  unfoldable pub import_converted :
      (I → F) → Bytes → List I → FeedDict I F → Option (ℕ × FeedDict I F)
  unfolding import_fp64
  import_converted to_double col_name int64_vec feed =
      elim (import_fp64 col_name (map to_double int64_vec) feed) [
        | none ↦ none
        | some (code, next) ↦
            if nat_beq code 0
            then some (
              0,
              record next { fp64_col = insert col_name (map to_double int64_vec) next.fp64_col },
            )
            else some (3, next)
      ]

  -- `importColumnValues` of integers.
  unfoldable pub import_int64 : (I → F) → Bytes → List I → FeedDict I F → Option (ℕ × FeedDict I F)
  unfolding set_or_check_value_count is_local_column get_column_dtype import_converted
  import_int64 to_double col_name int64_vec feed = elim (is_local_column col_name feed) [
    | none ↦ none
    | some false ↦ some (1, feed)
    | some true ↦ elim (get_column_dtype col_name feed.col_config) [
      | none ↦ none
      | some (code, fp64) ↦ some (2, feed)
      | some (code, int64) ↦
          let (ok, counted) = set_or_check_value_count (length int64_vec) feed in
          if not ok
          then some (2, counted)
          else if feed.float_run
          then import_converted to_double col_name int64_vec counted
          else if is_set (lookup col_name feed.int64_col)
          then some (4, counted)
          else some (0, record counted { int64_col = insert col_name int64_vec feed.int64_col })
    ]
  ]

  -- `getColumnValues`, the codes as above; `none` is an exception.
  unfoldable pub get_fp64 : Bytes → FeedDict I F → Option (ℕ × List F)
  unfolding is_local_column
  get_fp64 col_name feed = elim (is_local_column col_name feed) [
    | none ↦ none
    | some false ↦ some (1, [])
    | some true ↦
        if not feed.float_run
        then some (1, [])
        else elim (lookup col_name feed.fp64_col) [ none ↦ some (2, []) | some vec ↦ some (0, vec) ]
  ]

  unfoldable pub get_int64 : Bytes → FeedDict I F → Option (ℕ × List I)
  unfolding is_local_column
  get_int64 col_name feed = elim (is_local_column col_name feed) [
    | none ↦ none
    | some false ↦ some (1, [])
    | some true ↦ if feed.float_run then some (1, []) else elim (lookup col_name feed.int64_col) [
      | none ↦ some (2, [])
      | some vec ↦ some (0, vec)
    ]
  ]

  -- A `uint32_t` of the count, where -1 wraps around.
  unfoldable pub get_column_values_count : FeedDict I F → ℕ
  get_column_values_count feed = elim feed.val_count [ none ↦ 2 ^ 32 - 1 | some n ↦ n % 2 ^ 32 ]
