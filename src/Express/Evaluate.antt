-- ===== src/Express/Evaluate.antt =====
-- src/primihub/executor/express.cc: the loop over the suffix form that `runMPCEvaluate` and
-- `runLocalEvaluate` share, for any values of the tokens and any calculation on them.
use primihub.Prelude.{
  ◌≡◌, refl, sym, ◌∙◌, Option, none, some, List, [], ◌∷◌, ◌++◌, map, append-nil, append_assoc,
  arith, nat_beq, if◌then◌else◌, Bytes,
}
use primihub.Prelude.Dict.{Dict, lookup, assign, lookup-assign_self}
use primihub.Express.Parse.{plus, minus, times, over, is_operator}
use primihub.Express.Grammar.{
  Operator, Expression, add, sub, mul, div, leaf, signed, binary, symbol, bracket, IsName, suffix,
  IsWritten,
}

-- `token == "+"` and so on.
unfoldable operator_of : Bytes → Option Operator
operator_of (c ∷ []) =
    if nat_beq c plus
    then some add
    else if nat_beq c minus
    then some sub
    else if nat_beq c times
    then some mul
    else if nat_beq c over
    then some div
    else none
operator_of _ = none

-- How the loop ends: with what is on the stack of tokens and the values that it noted, with the code -1,
-- or by a crash, as when it pops an empty stack.
pub data Evaluation (W : Type 0) : Type 0 where
  finished : List Bytes → Dict W → Evaluation W
  failed : Evaluation W
  crashed : Evaluation W

-- `"(" + a + "+" + b + ")"`.
abbrev new_token : Operator → Bytes → Bytes → Bytes
new_token o a b = bracket (a ++ (symbol o ∷ b))

abbrev name_of : Expression → Bytes
name_of (leaf s) = s
name_of (signed s) = minus ∷ s
name_of (binary o l r) = new_token o (name_of l) (name_of r)

-- The token that is to come to lie on top of `suffix_stk_`: the lowest of the stack.
abbrev bottom : List Bytes → Option Bytes
bottom [] = none
bottom (t ∷ []) = some t
bottom (t ∷ u ∷ ts) = bottom (u ∷ ts)

module _ {W : Type 0} (create : Bytes → Option W) (calculate : Operator → W → W → Option W) where
  -- `BeforeMPCRun`, the calculation, and `AfterMPCRun`: the stacks of tokens and of values, and the
  -- values noted so far.
  abbrev Machine : Type 0
  Machine = List Bytes × List W × Dict W

  unfoldable run_operator : Operator → Machine → Option Machine
  run_operator o (b ∷ a ∷ tokens, w ∷ v ∷ vals, map) = elim (calculate o v w) [
    | none ↦ none
    | some res ↦
        let token = new_token o a b in some (token ∷ tokens, res ∷ vals, assign token res map)
  ]
  run_operator o _ = none

  unfoldable pub evaluate : List Bytes → Machine → Evaluation W
  unfolding run_operator operator_of
  evaluate [] (tokens, vals, map) = finished tokens map
  evaluate (token ∷ suffix_stk) (tokens, vals, map) = elim (operator_of token) [
    | some o ↦ elim (run_operator o (tokens, vals, map)) [
      | none ↦ crashed
      | some m ↦ evaluate suffix_stk m
    ]
    | none ↦ elim (create token) [
      | none ↦ failed
      | some v ↦ evaluate suffix_stk (token ∷ tokens, v ∷ vals, assign token v map)
    ]
  ]

  -- The value of the final token.
  unfoldable pub final_value : Evaluation W → Option W
  final_value (finished tokens map) = elim (bottom tokens) [
    | none ↦ none
    | some token ↦ lookup token map
  ]
  final_value _ = none

-- What the values of the tokens have to do with the expressions that they stand for.
pub record Meaning {W : Type 0} (create : Bytes → Option W)
    (calculate : Operator → W → W → Option W) : Type 1 where
  pub Holds : Expression → W → Type 0
  pub Good : Expression → Type 0
  pub at_leaf : (s : Bytes) → Good (leaf s) → (v : W) × (create s ≡ some v) × Holds (leaf s) v
  pub at_signed :
      (s : Bytes) → Good (signed s) → (v : W) × (create (minus ∷ s) ≡ some v) × Holds (signed s) v
  pub at_binary :
      (o : Operator) (l r : Expression) (v w : W)
      → Good (binary o l r)
      → Holds l v
      → Holds r w
      → (u : W) × (calculate o v w ≡ some u) × Holds (binary o l r) u
  pub parts : (o : Operator) (l r : Expression) → Good (binary o l r) → Good l × Good r

operator_of-symbol : (o : Operator) → operator_of (symbol o ∷ []) ≡ some o
unfolding operator_of
operator_of-symbol add = refl
operator_of-symbol sub = refl
operator_of-symbol mul = refl
operator_of-symbol div = refl

operator_of-IsName : (s : Bytes) → IsName s → operator_of s ≡ none
unfolding operator_of is_operator
operator_of-IsName [] h = refl
operator_of-IsName (c ∷ []) h = ground (arith, h.1.0)
operator_of-IsName (c ∷ d ∷ s) h = refl

operator_of-signed : (s : Bytes) → IsName s → operator_of (minus ∷ s) ≡ none
unfolding operator_of
operator_of-signed [] h = absurd (h.0 refl)
operator_of-signed (c ∷ s) h = refl

evaluate-operator :
    {W : Type 0} (create : Bytes → Option W) (calculate : Operator → W → W → Option W)
    (o : Operator) (rest : List Bytes) (a b : Bytes) (tokens : List Bytes) (v w res : W)
    (vals : List W) (map : Dict W)
    → calculate o v w ≡ some res
    → evaluate create calculate ((symbol o ∷ []) ∷ rest) (b ∷ a ∷ tokens, w ∷ v ∷ vals, map)
      ≡ evaluate create calculate rest
          (new_token o a b ∷ tokens, res ∷ vals, assign (new_token o a b) res map)
unfolding evaluate run_operator
evaluate-operator create calculate o rest a b tokens v w res vals map c =
    ground (arith, operator_of-symbol o, c)

module _ {W : Type 0} (create : Bytes → Option W) (calculate : Operator → W → W → Option W)
    (m : Meaning create calculate) where
  -- The loop comes to the token of the expression, with a value that holds for it and is noted under it.
  evaluate-suffix :
      (e : Expression) (rest tokens : List Bytes) (vals : List W) (map : Dict W)
      → IsWritten e
      → m.Good e
      → (v : W) × (noted : Dict W) × (evaluate create calculate
            (suffix e ++ rest)
            (tokens, vals, map)
          ≡ evaluate create calculate rest (name_of e ∷ tokens, v ∷ vals, noted))
        × m.Holds e v
        × (lookup (name_of e) noted ≡ some v)
  unfolding evaluate run_operator suffix
  evaluate-suffix (leaf s) rest tokens vals map w g =
      let (v, c, h) = m.at_leaf s g in
      (v, assign s v map, ground (arith, operator_of-IsName s w, c), h, lookup-assign_self s v map)
  evaluate-suffix (signed s) rest tokens vals map w g =
      let (v, c, h) = m.at_signed s g in
      (
        v,
        assign (minus ∷ s) v map,
        ground (arith, operator_of-signed s w, c),
        h,
        lookup-assign_self (minus ∷ s) v map,
      )
  evaluate-suffix (binary o l r) rest tokens vals map w g =
      let (gl, gr) = m.parts o l r g in
      let op : List Bytes = (symbol o ∷ []) ∷ rest in
      let (v, map1, e1, h1, n1) = evaluate-suffix l (suffix r ++ op) tokens vals map w.0 gl in
      let (u, map2, e2, h2, n2) =
        evaluate-suffix r op (name_of l ∷ tokens) (v ∷ vals) map1 w.1 gr in
      let (res, c, h) = m.at_binary o l r v u g h1 h2 in
      (
        res,
        assign (name_of (binary o l r)) res map2,
        rw
            (
              append_assoc (suffix l) (suffix r ++ (symbol o ∷ []) ∷ []) rest,
              append_assoc (suffix r) ((symbol o ∷ []) ∷ []) rest,
            )
            (e1
              ∙ e2
              ∙ evaluate-operator create calculate o rest (name_of l) (name_of r) tokens v u res
                  vals map2 c),
        h,
        lookup-assign_self (name_of (binary o l r)) res map2,
      )

  -- The whole run, on empty stacks.
  pub final_value-suffix :
      (e : Expression) (map : Dict W)
      → IsWritten e
      → m.Good e
      → (v : W) × (final_value create calculate (evaluate create calculate (suffix e) ([], [], map))
          ≡ some v)
        × m.Holds e v
  unfolding evaluate final_value
  final_value-suffix e map w g =
      let (v, noted, run, h, n) = evaluate-suffix e [] [] [] map w g in
      (v, rw (sym (append-nil (suffix e))) (rw run n), h)
