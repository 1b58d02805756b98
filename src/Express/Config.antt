-- ===== src/Express/Config.antt =====
-- src/primihub/executor/express.{h,cc}: `ColumnConfig`, which knows the owner and the type of each
-- column.
use primihub.Prelude.{
  ℕ, Bool, true, false, not, ◌&&◌, Option, none, some, [], ◌∷◌, nat_beq, if◌then◌else◌, is_set,
  Bytes, length,
}
use primihub.Prelude.Dict.{Dict, lookup, insert}

pub data ColDtype : Type 0 where
  int64 fp64 : ColDtype

pub record ColumnConfig : Type 0 where
  pub party_id : ℕ
  pub col_owner : Dict ℕ
  pub col_dtype : Dict ColDtype
  pub local_col : Dict Bool

abbrev new_config : ℕ → ColumnConfig
new_config party_id = record { party_id = party_id; col_owner = []; col_dtype = []; local_col = [] }

-- A code, where `n` is `-n`, and the new state.
unfoldable pub import_column_dtype : Bytes → ColDtype → ColumnConfig → ℕ × ColumnConfig
unfolding lookup insert
import_column_dtype col_name dtype cfg =
    if is_set (lookup col_name cfg.col_dtype)
    then (1, cfg)
    else (0, record cfg { col_dtype = insert col_name dtype cfg.col_dtype })

-- From here on, `none` is an exception.
unfoldable pub import_column_owner : Bytes → ℕ → ColumnConfig → Option ColumnConfig
unfolding lookup insert
import_column_owner col_name party_id cfg =
    if is_set (lookup col_name cfg.col_owner)
    then none
    else some (record cfg { col_owner = insert col_name party_id cfg.col_owner })

-- The code, which is 0, and the type.
unfoldable pub get_column_dtype : Bytes → ColumnConfig → Option (ℕ × ColDtype)
unfolding lookup
get_column_dtype col_name cfg = elim (lookup col_name cfg.col_dtype) [
  | none ↦ none
  | some dtype ↦ some (0, dtype)
]

-- Whether each owned column has a type.
unfoldable pub all_typed : Dict ℕ → Dict ColDtype → Bool
unfolding lookup
all_typed [] col_dtype = true
all_typed ((col_name, owner) ∷ col_owner) col_dtype =
    is_set (lookup col_name col_dtype) && all_typed col_owner col_dtype

-- The loop that fills `local_col_`.
unfoldable pub insert_localities : ℕ → Dict ℕ → Dict Bool → Dict Bool
unfolding insert
insert_localities party_id [] local_col = local_col
insert_localities party_id ((col_name, owner) ∷ col_owner) local_col =
    insert_localities party_id col_owner (insert col_name (nat_beq owner party_id) local_col)

unfoldable pub resolve_local_column : ColumnConfig → Option ColumnConfig
unfolding all_typed insert_localities
resolve_local_column cfg =
    if not (nat_beq (length cfg.col_dtype) (length cfg.col_owner))
    then none
    else if not (all_typed cfg.col_owner cfg.col_dtype)
    then none
    else some
        (record cfg { local_col = insert_localities cfg.party_id cfg.col_owner cfg.local_col })

unfoldable pub get_column_locality : Bytes → ColumnConfig → Option Bool
unfolding lookup
get_column_locality col_name cfg = lookup col_name cfg.local_col

unfoldable pub has_fp64 : Dict ColDtype → Bool
has_fp64 [] = false
has_fp64 ((col_name, fp64) ∷ col_dtype) = true
has_fp64 ((col_name, int64) ∷ col_dtype) = has_fp64 col_dtype

abbrev pub has_fp64_column : ColumnConfig → Bool
has_fp64_column cfg = has_fp64 cfg.col_dtype

unfoldable clean_config : ColumnConfig → ColumnConfig
clean_config cfg = record cfg { col_owner = []; col_dtype = []; local_col = [] }
