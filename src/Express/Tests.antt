-- ===== src/Express/Tests.antt =====
-- Columns of two rows: A and C are local, B belongs to another party; `A*(B+2)-C`.
use primihub.Prelude.{
  ◌==◌, ℕ, ◌+◌, ◌/◌, ◌<◌, ◌≡◌, refl, true, false, Option, none, some, List, [], ◌∷◌, arith, nat_beq,
  if◌then◌else◌, Bytes, codes, length, get_elem?,
}
use primihub.Express.Parse.{is_operator, parse_express, check_express}
use primihub.Express.Grammar.{
  Expression, leaf, binary, add, sub, mul, print_infix, print_at, suffix, IsPlain, IsName,
  IsWritten,
}
use primihub.Express.RoundTrip.{parse_express-print}
use primihub.Prelude.{
  ◌==◌, ℕ, ◌+◌, ◌/◌, ◌<◌, ◌≡◌, refl, true, false, Option, none, some, List, [], ◌∷◌, arith, nat_beq,
  if◌then◌else◌, Bytes, codes, length, get_elem?,
}
use primihub.Prelude.Dict.{insert, assign}
use primihub.Express.Config.{ColumnConfig, int64, fp64}
use primihub.Express.Feed.{FeedDict, new_feed, import_int64, get_column_values_count}
use primihub.Express.Fed.{IsFed}
use primihub.Express.Imported.{Import, integers, doubles, import_all, import_all-IsFed}
use primihub.Aby3.Operator.{Word, word, Shared, machine_words}
use primihub.Aby3.Library.{mpc_operator}
use primihub.Aby3.Plain.{plain_library}
use primihub.Express.Mode.{resolve_run_mode, import_express}
use primihub.Express.Rows.{IsComputable, row}
use primihub.Express.Value.{Number, TokenValue, column, remote, constant}
use primihub.Express.Mpc.{MpcOperator, run_mpc_evaluate}
use primihub.Express.Local.{run_local_evaluate, run_local_evaluate-row}
use primihub.Express.Refine.{HasNoDivision, run_mpc_evaluate-run_local_evaluate}
use primihub.Express.Agree.{open_tokens}

plain : (c : ℕ) → is_operator c ≡ false → nat_beq c 40 ≡ false → nat_beq c 41 ≡ false → IsPlain c
plain c h a b = (h, λ e. absurd (ground (arith, a, e)), λ e. absurd (ground (arith, b, e)))

one_character : (c : ℕ) → IsPlain c → IsName (c ∷ [])
one_character c h = ((λ e. absurd (ground (arith, e))), (h, tt))

abbrev col_a : Bytes
col_a = codes "A"

abbrev col_b : Bytes
col_b = codes "B"

abbrev col_c : Bytes
col_c = codes "C"

abbrev two : Bytes
two = codes "2"

abbrev product_part : Expression
product_part = binary mul (leaf col_a) (binary add (leaf col_b) (leaf two))

abbrev sample : Expression
sample = binary sub product_part (leaf col_c)

part-IsWritten : IsWritten product_part
unfolding is_operator
part-IsWritten = (
  one_character 65 (plain 65 refl refl refl),
  (one_character 66 (plain 66 refl refl refl), one_character 50 (plain 50 refl refl refl)),
)

c-IsWritten : IsWritten (leaf col_c)
unfolding is_operator
c-IsWritten = one_character 67 (plain 67 refl refl refl)

parse_express-print_example :
    parse_express (codes "A*(B+2)-C") []
    ≡ some (codes "A" ∷ codes "B" ∷ codes "2" ∷ codes "+" ∷ codes "*" ∷ codes "C" ∷ codes "-" ∷ [])
unfolding print_at suffix
parse_express-print_example = parse_express-print sample (part-IsWritten, c-IsWritten)

-- `(A+)B` passes the check, though the operator lacks an operand when it is evaluated.
accepts_misplaced :
    import_express (codes "(A+)B") [] ≡ some (0, codes "A" ∷ codes "+" ∷ codes "B" ∷ [])
unfolding import_express parse_express check_express
accepts_misplaced = refl

abbrev over_words : Word → Word → Word
over_words x y = word (x.0 / y.0)

abbrev numbers : Number Word
numbers = machine_words over_words

abbrev shares : MpcOperator numbers Shared
shares = mpc_operator (plain_library over_words)

-- As party 0 sees them, which owns A; the other two own B and C.
abbrev token_value : Bytes → Option (TokenValue Word Shared)
token_value s =
    if s == codes "A"
    then some (column (word 1 ∷ word 2 ∷ []))
    else if s == codes "B"
    then some (remote (codes "B"))
    else if s == codes "C"
    then some (remote (codes "C"))
    else if s == codes "2"
    then some (constant (word 2))
    else none

abbrev opened_value : Bytes → Option (TokenValue Word Shared)
opened_value s = open_tokens numbers shares token_value s

sample-IsComputable : IsComputable numbers 2 opened_value sample
unfolding ◌==◌
sample-IsComputable = ((refl, (refl, tt, refl), refl), refl, refl)

run_local_evaluate-row_example :
    (xs : List Word) × (run_local_evaluate numbers opened_value (print_infix sample) [] ≡ some xs)
    × (length xs ≡ 2)
    × ((i : ℕ) → i < 2 → get_elem? xs i ≡ row numbers 2 opened_value sample i)
run_local_evaluate-row_example =
    run_local_evaluate-row numbers 2 opened_value sample (part-IsWritten, c-IsWritten)
      sample-IsComputable refl

sample-HasNoDivision : HasNoDivision sample
sample-HasNoDivision = ((tt, (tt, tt, refl), refl), tt, refl)

run_mpc_evaluate-run_local_evaluate_example :
    (xs : List Word) × (run_mpc_evaluate numbers shares (2, 2, 2) token_value (suffix sample)
      ≡ some xs)
    × (run_local_evaluate numbers opened_value (print_infix sample) [] ≡ some xs)
run_mpc_evaluate-run_local_evaluate_example =
    run_mpc_evaluate-run_local_evaluate numbers shares 2 token_value sub product_part (leaf col_c)
      (part-IsWritten, c-IsWritten) sample-IsComputable sample-HasNoDivision

-- Party 0 owns A and C, party 1 owns B; all are of doubles.
abbrev config : ColumnConfig
config = record {
  party_id = 0;
  col_owner = (codes "A", 0) ∷ (codes "B", 1) ∷ [];
  col_dtype = (codes "B", fp64) ∷ (codes "A", int64) ∷ [];
  local_col = [];
}

abbrev resolved_config : ColumnConfig
resolved_config = record config { local_col = (codes "A", true) ∷ (codes "B", false) ∷ [] }

-- Integers in a run of doubles, and then a column of another length, which is refused.
abbrev imports : List (Import (λ (n : ℕ). n + 100))
imports = integers col_a (1 ∷ 2 ∷ []) ∷ doubles col_a (7 ∷ []) ∷ []

abbrev empty_feed : FeedDict ℕ ℕ
empty_feed = new_feed resolved_config true

abbrev fed : FeedDict ℕ ℕ
fed = record empty_feed { val_count = some 2; fp64_col = (col_a, 101 ∷ 102 ∷ []) ∷ [] }

imports-run : import_all (λ n. n + 100) imports empty_feed ≡ some fed
unfolding import_all import_int64 insert assign ◌==◌
imports-run = refl

import_all-IsFed_example : IsFed fed
import_all-IsFed_example =
    import_all-IsFed (λ n. n + 100) resolved_config true imports fed imports-run

import-run : import_int64 (λ n. n + 100) col_a (1 ∷ 2 ∷ []) empty_feed ≡ some (0, fed)
unfolding import_int64 insert assign ◌==◌
import-run = refl

-- The constant in `A+2` makes it throw.
constant_throws : resolve_run_mode (codes "A" ∷ codes "2" ∷ codes "+" ∷ []) config [] ≡ none
unfolding resolve_run_mode insert assign ◌==◌
constant_throws = refl

-- Without a local column, the count of the values is -1, and wraps around.
no_columns_count : get_column_values_count empty_feed ≡ 4294967295
unfolding get_column_values_count
no_columns_count = refl
