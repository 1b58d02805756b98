-- ===== src/Express/Value.antt =====
-- src/primihub/executor/express.{h,cc}: the values of tokens, and what `runLocalEvaluate` does to two
-- of them. The code stands there twice, for `int64_t` and for `double`; here the numbers are a
-- parameter.
use primihub.Prelude.{◌≡◌, Option, none, some, List, [], ◌∷◌, Bytes}
use primihub.Express.Grammar.{Operator, add, sub, mul, div}

-- The machine's numbers of one type. Their addition and multiplication are commutative.
pub record Number (V : Type 0) : Type 0 where
  pub plus : V → V → V
  pub minus : V → V → V
  pub times : V → V → V
  pub over : V → V → V
  pub one : V
  pub plus_comm : (x y : V) → plus x y ≡ plus y x
  pub times_comm : (x y : V) → times x y ≡ times y x

-- `TokenValue`: a local column (the types 0 and 1), a constant (2 and 3), a remote column (4), which its
-- name tells apart, or a share (5 and 6).
pub data TokenValue (V Share : Type 0) : Type 0 where
  column : List V → TokenValue V Share
  constant : V → TokenValue V Share
  remote : Bytes → TokenValue V Share
  shared : Share → TokenValue V Share

module _ {V : Type 0} where
  -- `r[i] = v1[i] op v2[i]` for the places of `v1`; `none` is a read behind the end of `v2`.
  unfoldable pub zip_columns : (V → V → V) → List V → List V → Option (List V)
  zip_columns f [] ys = some []
  zip_columns f (x ∷ xs) [] = none
  zip_columns f (x ∷ xs) (y ∷ ys) = elim (zip_columns f xs ys) [
    | none ↦ none
    | some zs ↦ some (f x y ∷ zs)
  ]

  unfoldable pub map_column : (V → V) → List V → List V
  map_column f [] = []
  map_column f (x ∷ xs) = f x ∷ map_column f xs

  -- What an operator means for one row.
  abbrev pub meaning_of : Number V → Operator → V → V → V
  meaning_of n add = n.plus
  meaning_of n sub = n.minus
  meaning_of n mul = n.times
  meaning_of n div = n.over

module _ {V Share : Type 0} where
  -- The three loops of an operator: for two columns, for a constant on the left, and for one on the
  -- right. Two constants are read as columns: `none`.
  unfoldable pub calculate :
      (V → V → V)
      → (V → V → V)
      → (V → V → V)
      → TokenValue V Share
      → TokenValue V Share
      → Option (TokenValue V Share)
  unfolding zip_columns map_column
  calculate both left right (column xs) (column ys) = elim (zip_columns both xs ys) [
    | none ↦ none
    | some zs ↦ some (column zs)
  ]
  calculate both left right (constant c) (column ys) = some (column (map_column (left c) ys))
  calculate both left right (column xs) (constant c) =
      some (column (map_column (λ x. right x c) xs))
  calculate both left right _ _ = none

  module _ (n : Number V) where
    open n use {plus, minus, times, over}

    -- The branches `+`, `-`, `*` and `/` of `runLocalEvaluate`.
    unfoldable pub local_calculate :
        Operator → TokenValue V Share → TokenValue V Share → Option (TokenValue V Share)
    unfolding calculate
    local_calculate add v w = calculate plus plus (λ x c. plus c x) v w
    local_calculate sub v w = calculate minus minus minus v w
    local_calculate mul v w = calculate times times times v w
    local_calculate div v w = calculate over over over v w
