-- ===== src/Express/Grammar.antt =====
-- The expressions that src/primihub/executor/express.cc is meant for, how they are written, and their
-- suffix form.
use primihub.Prelude.{ℕ, suc, ◌≡◌, ◌≢◌, false, List, [], ◌∷◌, ◌++◌, ltb, if◌then◌else◌, Bytes, All}
use primihub.Express.Parse.{plus, minus, times, over, left_bracket, right_bracket, is_operator}

pub data Operator : Type 0 where
  add sub mul div : Operator

pub data Expression : Type 0 where
  -- a column or a constant
  leaf : Bytes → Expression
  -- a constant with a sign, in brackets
  signed : Bytes → Expression
  binary : Operator → Expression → Expression → Expression

abbrev pub symbol : Operator → ℕ
symbol add = plus
symbol sub = minus
symbol mul = times
symbol div = over

abbrev pub rank : Operator → ℕ
rank add = 1
rank sub = 1
rank mul = 2
rank div = 2

-- In brackets.
abbrev pub bracket : Bytes → Bytes
bracket s = left_bracket ∷ (s ++ right_bracket ∷ [])

-- An operand that is written where only operators of rank `p` or above may stand without brackets. The
-- operators associate to the left.
unfoldable pub print_at : ℕ → Expression → Bytes
print_at p (leaf s) = s
print_at p (signed s) = bracket (minus ∷ s)
print_at p (binary o l r) =
    let s = print_at (rank o) l ++ (symbol o ∷ print_at (suc (rank o)) r) in
    if ltb (rank o) p then bracket s else s

abbrev pub print_infix : Expression → Bytes
print_infix e = print_at 0 e

unfoldable pub suffix : Expression → List Bytes
suffix (leaf s) = s ∷ []
suffix (signed s) = (minus ∷ s) ∷ []
suffix (binary o l r) = suffix l ++ (suffix r ++ (symbol o ∷ []) ∷ [])

-- Neither an operator nor a bracket.
abbrev pub IsPlain : ℕ → Type 0
IsPlain c = (is_operator c ≡ false) × (c ≢ left_bracket) × (c ≢ right_bracket)

-- Columns and constants have names of plain characters.
abbrev pub IsName : Bytes → Type 0
IsName s = (s ≢ []) × All IsPlain s

abbrev pub IsWritten : Expression → Type 0
IsWritten (leaf s) = IsName s
IsWritten (signed s) = IsName s
IsWritten (binary o l r) = IsWritten l × IsWritten r
