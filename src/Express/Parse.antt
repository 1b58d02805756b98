-- ===== src/Express/Parse.antt =====
-- src/primihub/executor/express.cc: `parseExpress` and `checkExpress` of `MPCExpressExecutor`. A stack
-- is a list, its top first.
use primihub.Prelude.{
  ℕ, suc, ◌+◌, ◌-◌, ◌%◌, ◌^◌, Bool, true, false, not, ◌&&◌, ◌||◌, Option, none, some, List, [], ◌∷◌,
  ◌++◌, ltb, nat_beq, if◌then◌else◌, is_set, Bytes, length,
}

abbrev pub plus : ℕ
plus = b'+'

abbrev pub minus : ℕ
minus = b'-'

abbrev pub times : ℕ
times = b'*'

abbrev pub over : ℕ
over = b'/'

abbrev pub left_bracket : ℕ
left_bracket = b'('

abbrev pub right_bracket : ℕ
right_bracket = b')'

-- `isOperator(char)`.
unfoldable pub is_operator : ℕ → Bool
is_operator op = nat_beq op plus || nat_beq op minus || nat_beq op times || nat_beq op over

-- `isOperator(const std::string&)`.
unfoldable pub is_operator_token : Bytes → Bool
unfolding is_operator
is_operator_token (c ∷ []) = is_operator c
is_operator_token _ = false

-- `Priority`.
unfoldable pub priority : ℕ → ℕ
priority c =
    if nat_beq c plus || nat_beq c minus
    then 1
    else if nat_beq c times || nat_beq c over
    then 2
    else 0

-- `s.c_str()[0]`.
unfoldable pub first : Bytes → ℕ
first [] = 0
first (c ∷ s) = c

-- The variables of `parseExpress`: the token that is being read, the stack of operators
-- (`suffix_stk_`), and the tokens on `stk2`, in the order in which they were pushed.
pub record State : Type 0 where
  pub temp : Bytes
  pub ops : List Bytes
  pub out : List Bytes

-- `if (!temp.empty()) { stk2.push(temp); temp.clear(); }`.
unfoldable pub flush : State → State
flush p = elim p.temp [ [] ↦ p | c ∷ s ↦ record p { temp = []; out = p.out ++ p.temp ∷ [] } ]

-- The loop for an operator: operators of its priority or above leave the stack before it goes there.
unfoldable pub shift : ℕ → List Bytes → List Bytes → List Bytes × List Bytes
unfolding priority first
shift c [] out = ((c ∷ []) ∷ [], out)
shift c (t ∷ ops) out =
    let rest = shift c ops (out ++ t ∷ []) in
    if nat_beq (first t) left_bracket || ltb (priority (first t)) (priority c)
    then ((c ∷ []) ∷ t ∷ ops, out)
    else rest

-- The loop for `)`: what is above the last `(` leaves the stack, the token before it.
unfoldable pub unwind : Bytes → List Bytes → List Bytes → State
unfolding flush first
unwind temp [] out = record { temp = temp; ops = []; out = out }
unwind temp (t ∷ ops) out =
    let p = flush (record { temp = temp; ops = ops; out = out }) in
    let rest = unwind [] ops (p.out ++ t ∷ []) in
    if nat_beq (first t) left_bracket
    then record { temp = temp; ops = t ∷ ops; out = out }
    else rest

abbrev drop_top : List Bytes → List Bytes
drop_top [] = []
drop_top (t ∷ ops) = ops

unfoldable pub close : State → State
unfolding unwind
close p = let q = unwind p.temp p.ops p.out in record q { ops = drop_top q.ops }

-- Where the loop stands: between tokens, in the number behind a sign at the start, which goes on up to
-- an operator, or in the number behind `(-`, which goes on up to `)`.
pub data Mode : Type 0 where
  normal : Mode
  leading : Mode
  negative : Mode

unfoldable pub read : ℕ → State → State
read c p = record p { temp = p.temp ++ c ∷ [] }

-- The body of the loop for the character `c` behind `previous`, which is `none` at the start.
unfoldable pub take_character : Option ℕ → ℕ → State → Mode × State
unfolding is_operator flush shift close read
take_character previous c p =
    let f = flush p in
    let (ops, out) = shift c f.ops f.out in
    let is_sign = nat_beq c minus in
    if is_sign && not (is_set previous)
    then (leading, read c p)
    else if is_sign && (elim previous [ none ↦ false | some b ↦ nat_beq b left_bracket ])
    then (negative, read c p)
    else if is_operator c
    then (normal, record { temp = []; ops = ops; out = out })
    else if nat_beq c left_bracket
    then (normal, record p { ops = (c ∷ []) ∷ p.ops })
    else if nat_beq c right_bracket
    then (normal, close p)
    else (normal, read c p)

unfoldable pub step : Mode → Option ℕ → ℕ → State → Mode × State
unfolding take_character is_operator read
step normal previous c p = take_character previous c p
step leading previous c p =
    if is_operator c then take_character previous c p else (leading, read c p)
step negative previous c p =
    if nat_beq c right_bracket then take_character previous c p else (negative, read c p)

-- The loop. A number behind a sign that is never ended is read beyond the end of the text: `none`.
unfoldable pub parse_characters : Mode → Option ℕ → Bytes → State → Option State
unfolding step flush
parse_characters normal previous [] p = some (flush p)
parse_characters leading previous [] p = none
parse_characters negative previous [] p = none
parse_characters mode previous (c ∷ s) p =
    let (next, q) = step mode previous c p in parse_characters next (some c) s q

-- `parseExpress`: the new `suffix_stk_`, on which the tokens of `stk2` come to lie above the operators
-- that are left.
unfoldable pub parse_express : Bytes → List Bytes → Option (List Bytes)
unfolding parse_characters
parse_express expr suffix_stk =
    elim (parse_characters normal none expr (record { temp = []; ops = suffix_stk; out = [] })) [
      | none ↦ none
      | some p ↦ some (p.out ++ p.ops)
    ]

abbrev pub is_bracket : ℕ → Bool
is_bracket c = nat_beq c left_bracket || nat_beq c right_bracket

abbrev pub has_bracket : Bytes → Bool
has_bracket [] = false
has_bracket (c ∷ s) = is_bracket c || has_bracket s

abbrev pub no_brackets : List Bytes → Bool
no_brackets [] = true
no_brackets (t ∷ ts) = not (has_bracket t) && no_brackets ts

unfoldable pub count_operators : List Bytes → ℕ
unfolding is_operator_token
count_operators [] = 0
count_operators (t ∷ ts) = let n = count_operators ts in if is_operator_token t then suc n else n

-- `checkExpress`. The operators are counted in a `uint16_t`, and the difference of sizes wraps around.
unfoldable pub check_express : List Bytes → Bool
unfolding count_operators
check_express suffix_stk =
    let num_op = count_operators suffix_stk % 2 ^ 16 in
    let balanced = nat_beq ((length suffix_stk + 2 ^ 64 - num_op) % 2 ^ 64) (num_op + 1) in
    balanced && no_brackets suffix_stk
