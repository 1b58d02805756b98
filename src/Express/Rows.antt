-- ===== src/Express/Rows.antt =====
-- What an expression means, row by row, and that the loops of src/primihub/executor/express.cc compute
-- it.
use primihub.Prelude.{
  ℕ, zero, suc, ◌<◌, ◌≡◌, refl, sym, ap, ◌∙◌, Bool, true, false, ◌&&◌, Option, none, some, List, [],
  ◌∷◌, arith, Bytes, length, get_elem?,
}
use primihub.Express.Grammar.{add, sub, mul, div, Operator, Expression, leaf, signed, binary}
use primihub.Express.Parse.{minus}
use primihub.Express.Value.{
  Number, TokenValue, column, constant, remote, shared, meaning_of, calculate, zip_columns,
  map_column, local_calculate,
}
use primihub.Express.Evaluate.{Meaning}

abbrev lift : {V : Type 0} → (V → V → V) → Option V → Option V → Option V
lift f (some x) (some y) = some (f x y)
lift f _ _ = none

module _ {V : Type 0} where
  length-map_column : (f : V → V) (xs : List V) → length (map_column f xs) ≡ length xs
  unfolding map_column
  length-map_column f [] = refl
  length-map_column f (x ∷ xs) = omega (arith, length-map_column f xs)

  get_elem?-map_left :
      (f g : V → V → V) (c : V) (xs : List V) (i : ℕ)
      → ((x : V) → g c x ≡ f c x)
      → get_elem? (map_column (g c) xs) i ≡ lift f (some c) (get_elem? xs i)
  unfolding map_column
  get_elem?-map_left f g c [] i h = refl
  get_elem?-map_left f g c (x ∷ xs) zero h = ap some (h x)
  get_elem?-map_left f g c (x ∷ xs) (suc i) h = get_elem?-map_left f g c xs i h

  get_elem?-map_right :
      (f g : V → V → V) (c : V) (xs : List V) (i : ℕ)
      → ((x : V) → g x c ≡ f x c)
      → get_elem? (map_column (λ x. g x c) xs) i ≡ lift f (get_elem? xs i) (some c)
  unfolding map_column
  get_elem?-map_right f g c [] i h = refl
  get_elem?-map_right f g c (x ∷ xs) zero h = ap some (h x)
  get_elem?-map_right f g c (x ∷ xs) (suc i) h = get_elem?-map_right f g c xs i h

  get_elem?-lift_cons :
      (f : V → V → V) (x y : V) (xs ys zs : List V)
      → ((i : ℕ) → get_elem? zs i ≡ lift f (get_elem? xs i) (get_elem? ys i))
      → (i : ℕ) → get_elem? (f x y ∷ zs) i ≡ lift f (get_elem? (x ∷ xs) i) (get_elem? (y ∷ ys) i)
  get_elem?-lift_cons f x y xs ys zs g zero = refl
  get_elem?-lift_cons f x y xs ys zs g (suc i) = g i

  zip_columns-some :
      (f : V → V → V) (xs ys : List V)
      → length xs ≡ length ys
      → (zs : List V) × (zip_columns f xs ys ≡ some zs)
        × (length zs ≡ length xs)
        × ((i : ℕ) → get_elem? zs i ≡ lift f (get_elem? xs i) (get_elem? ys i))
  unfolding zip_columns
  zip_columns-some f [] [] h = ([], refl, refl, λ i. refl)
  zip_columns-some f [] (y ∷ ys) h = absurd (omega (arith, h))
  zip_columns-some f (x ∷ xs) [] h = absurd (omega (arith, h))
  zip_columns-some f (x ∷ xs) (y ∷ ys) h =
      let (zs, e, l, g) = zip_columns-some f xs ys (omega (arith, h)) in
      (f x y ∷ zs, ground (arith, e), omega (arith, l), get_elem?-lift_cons f x y xs ys zs g)

-- `env` is the value of each token that is no operator, `rows` the number of values of a column.
module _ {V Share : Type 0} (n : Number V) (rows : ℕ)
    (env : Bytes → Option (TokenValue V Share)) where
  abbrev pub value_in_row : Option (TokenValue V Share) → ℕ → Option V
  value_in_row (some (column xs)) i = get_elem? xs i
  value_in_row (some (constant c)) i = some c
  value_in_row _ i = none

  -- The value of the expression in one row.
  abbrev pub row : Expression → ℕ → Option V
  row (leaf s) i = value_in_row (env s) i
  row (signed s) i = value_in_row (env (minus ∷ s)) i
  row (binary o l r) i = lift (meaning_of n o) (row l i) (row r i)

  abbrev pub constant_value : Option (TokenValue V Share) → Bool
  constant_value (some (constant c)) = true
  constant_value _ = false

  abbrev pub is_constant : Expression → Bool
  is_constant (leaf s) = constant_value (env s)
  is_constant (signed s) = constant_value (env (minus ∷ s))
  is_constant (binary o l r) = false

  -- A column of the right length, or a constant.
  abbrev pub IsInput : Option (TokenValue V Share) → Type 0
  IsInput (some (column xs)) = length xs ≡ rows
  IsInput (some (constant c)) = Unit
  IsInput _ = ⊥

  -- All columns are there, and no operator stands between two constants.
  abbrev pub IsComputable : Expression → Type 0
  IsComputable (leaf s) = IsInput (env s)
  IsComputable (signed s) = IsInput (env (minus ∷ s))
  IsComputable (binary o l r) =
      IsComputable l × IsComputable r × ((is_constant l && is_constant r) ≡ false)

  -- The value of a token, compared with the expression that the token stands for.
  abbrev pub Denotes : Expression → TokenValue V Share → Type 0
  Denotes e (column xs) =
      (is_constant e ≡ false) × (length xs ≡ rows) × ((i : ℕ) → i < rows → get_elem? xs i ≡ row e i)
  Denotes e (constant c) = (is_constant e ≡ true) × ((i : ℕ) → row e i ≡ some c)
  Denotes e _ = ⊥

  calculate-Denotes :
      (left right : V → V → V) (o : Operator) (l r : Expression) (v w : TokenValue V Share)
      → ((c x : V) → left c x ≡ meaning_of n o c x)
      → ((x c : V) → right x c ≡ meaning_of n o x c)
      → (is_constant l && is_constant r) ≡ false
      → Denotes l v
      → Denotes r w
      → (u : TokenValue V Share) × (calculate (meaning_of n o) left right v w ≡ some u)
        × Denotes (binary o l r) u
  unfolding calculate
  calculate-Denotes left right o l r (column xs) (column ys) hl hr k a b =
      let (zs, e, m, g) = zip_columns-some (meaning_of n o) xs ys (a.1 ∙ sym b.1) in
      (column zs, ground (arith, e), (refl, m ∙ a.1, λ i lt. g i ∙ cc (a.2 i lt, b.2 i lt)))
  calculate-Denotes left right o l r (column xs) (constant c) hl hr k a b = (
    column (map_column (λ x. right x c) xs),
    refl,
    (
      refl,
      length-map_column (λ x. right x c) xs ∙ a.1,
      λ i lt.
          get_elem?-map_right (meaning_of n o) right c xs i (λ x. hr x c) ∙ cc (a.2 i lt, b.1 i),
    ),
  )
  calculate-Denotes left right o l r (constant c) (column ys) hl hr k a b = (
    column (map_column (left c) ys),
    refl,
    (
      refl,
      length-map_column (left c) ys ∙ b.1,
      λ i lt. get_elem?-map_left (meaning_of n o) left c ys i (hl c) ∙ cc (a.1 i, b.2 i lt),
    ),
  )
  calculate-Denotes left right o l r (constant c) (constant d) hl hr k a b =
      absurd (ground (arith, k, a.0, b.0))
  calculate-Denotes left right o l r (remote s) w hl hr k a b = absurd a
  calculate-Denotes left right o l r (shared s) w hl hr k a b = absurd a
  calculate-Denotes left right o l r (column xs) (remote s) hl hr k a b = absurd b
  calculate-Denotes left right o l r (column xs) (shared s) hl hr k a b = absurd b
  calculate-Denotes left right o l r (constant c) (remote s) hl hr k a b = absurd b
  calculate-Denotes left right o l r (constant c) (shared s) hl hr k a b = absurd b

  pub local-Denotes :
      (o : Operator) (l r : Expression) (v w : TokenValue V Share)
      → (is_constant l && is_constant r) ≡ false
      → Denotes l v
      → Denotes r w
      → (u : TokenValue V Share) × (local_calculate n o v w ≡ some u) × Denotes (binary o l r) u
  unfolding local_calculate
  local-Denotes add l r v w k a b =
      calculate-Denotes n.plus (λ x c. n.plus c x) add l r v w (λ c x. refl)
        (λ x c. n.plus_comm c x) k a b
  local-Denotes sub l r v w k a b =
      calculate-Denotes n.minus n.minus sub l r v w (λ c x. refl) (λ x c. refl) k a b
  local-Denotes mul l r v w k a b =
      calculate-Denotes n.times n.times mul l r v w (λ c x. refl) (λ x c. refl) k a b
  local-Denotes div l r v w k a b =
      calculate-Denotes n.over n.over div l r v w (λ c x. refl) (λ x c. refl) k a b

  pub value-Denotes :
      (e : Expression) (o : Option (TokenValue V Share))
      → IsInput o
      → is_constant e ≡ constant_value o
      → ((i : ℕ) → row e i ≡ value_in_row o i)
      → (v : TokenValue V Share) × (o ≡ some v) × Denotes e v
  value-Denotes e none h c g = absurd h
  value-Denotes e (some (column xs)) h c g = (column xs, refl, (c, h, λ i lt. sym (g i)))
  value-Denotes e (some (constant d)) h c g = (constant d, refl, (c, g))
  value-Denotes e (some (remote s)) h c g = absurd h
  value-Denotes e (some (shared s)) h c g = absurd h

  abbrev pub local_meaning : Meaning env (local_calculate n)
  local_meaning = record {
    Holds = Denotes;
    Good = IsComputable;
    at_leaf = λ s g. value-Denotes (leaf s) (env s) g refl (λ i. refl);
    at_signed = λ s g. value-Denotes (signed s) (env (minus ∷ s)) g refl (λ i. refl);
    at_binary = λ o l r v w g a b. local-Denotes o l r v w g.2 a b;
    parts = λ o l r g. (g.0, g.1);
  }
