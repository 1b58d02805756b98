-- ===== src/Express/Local.antt =====
-- src/primihub/executor/express.cc: `runLocalEvaluate`.
use primihub.Prelude.{
  ℕ, ◌<◌, ◌≡◌, false, Option, none, some, List, [], arith, Bytes, length, get_elem?,
}
use primihub.Express.Parse.{parse_express}
use primihub.Express.Grammar.{Expression, print_infix, IsWritten, suffix}
use primihub.Express.Value.{remote, shared, constant, Number, TokenValue, column, local_calculate}
use primihub.Express.Evaluate.{evaluate, final_value, final_value-suffix}
use primihub.Express.Rows.{row, is_constant, IsComputable, local_meaning, Denotes}
use primihub.Express.RoundTrip.{parse_express-print}

-- `runLocalEvaluate`, as the vector that it leaves in `final_val_double` or `final_val_int64`. `none` is
-- the code -1 or a crash, as when the final token is a constant, whose value is no vector.
unfoldable pub run_local_evaluate :
    {V Share : Type 0}
    → Number V
    → (Bytes → Option (TokenValue V Share))
    → Bytes
    → List Bytes
    → Option (List V)
run_local_evaluate n create expr suffix_stk = elim (parse_express expr suffix_stk) [
  | none ↦ none
  | some tokens ↦
      elim (final_value create (local_calculate n)
        (evaluate create (local_calculate n) tokens ([], [], []))) [
          | some (column xs) ↦ some xs
          | _ ↦ none
        ]
]

-- The value of a written expression that is no mere constant, whose columns all have as many values as
-- there are rows, and in which no operator stands between two constants: one value for each row, the
-- one that the expression has in the row by the meaning of its operators.
pub run_local_evaluate-row :
    {V : Type 0} {Share : Type 0} (n : Number V) (rows : ℕ)
    (create : Bytes → Option (TokenValue V Share)) (e : Expression)
    → IsWritten e
    → IsComputable n rows create e
    → is_constant n rows create e ≡ false
    → (xs : List V) × (run_local_evaluate n create (print_infix e) [] ≡ some xs)
      × (length xs ≡ rows)
      × ((i : ℕ) → i < rows → get_elem? xs i ≡ row n rows create e i)
unfolding run_local_evaluate
run_local_evaluate-row {V = V} {Share = Share} n rows create e w g k =
    let (v, run, h) =
      final_value-suffix create (local_calculate n) (local_meaning n rows create) e [] w g in
    go v run h
  where
    go :
        (v : TokenValue V Share)
        → final_value create
            (local_calculate n)
            (evaluate create (local_calculate n) (suffix e) ([], [], []))
          ≡ some v
        → Denotes n rows create e v
        → (xs : List V) × (run_local_evaluate n create (print_infix e) [] ≡ some xs)
          × (length xs ≡ rows)
          × ((i : ℕ) → i < rows → get_elem? xs i ≡ row n rows create e i)
    go (column xs) run h = (xs, ground (arith, parse_express-print e w, run), h.1, h.2)
    go (constant c) run h = absurd (ground (arith, h.0, k))
    go (remote s) run h = absurd h
    go (shared s) run h = absurd h
