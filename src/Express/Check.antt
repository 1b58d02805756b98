-- ===== src/Express/Check.antt =====
-- src/primihub/executor/express.cc: what `checkExpress` accepts of the suffix forms.
use primihub.Prelude.{
  ℕ, suc, ◌+◌, ◌-◌, ◌*◌, ◌%◌, ◌^◌, ◌<◌, ◌≡◌, refl, true, false, some, List, [], ◌∷◌, ◌++◌, arith,
  ltb, nat_beq, if◌then◌else◌, Bytes, length, length-append, All,
}
use primihub.Express.Parse.{
  minus, check_express, count_operators, no_brackets, has_bracket, is_bracket, is_operator_token,
  is_operator,
}
use primihub.Express.Mode.{import_express}
use primihub.Express.RoundTrip.{parse_express-print}
use primihub.Express.Grammar.{
  print_infix, Expression, leaf, signed, binary, Operator, add, sub, mul, div, symbol, suffix,
  IsName, IsPlain, IsWritten,
}

abbrev pub operators : Expression → ℕ
operators (leaf s) = 0
operators (signed s) = 0
operators (binary o l r) = suc (operators l + operators r)

count_operators-append :
    (xs ys : List Bytes) → count_operators (xs ++ ys) ≡ count_operators xs + count_operators ys
unfolding count_operators
count_operators-append [] ys = omega arith
count_operators-append (x ∷ xs) ys = ground (arith, count_operators-append xs ys)

no_brackets-append :
    (xs ys : List Bytes)
    → no_brackets xs ≡ true
    → no_brackets ys ≡ true
    → no_brackets (xs ++ ys) ≡ true
no_brackets-append [] ys h k = k
no_brackets-append (x ∷ xs) ys h k = ground (arith, no_brackets-append xs ys)

is_bracket-IsPlain : (c : ℕ) → IsPlain c → is_bracket c ≡ false
is_bracket-IsPlain c h = ground (arith, h.1, h.2)

has_bracket-IsName : (s : Bytes) → All IsPlain s → has_bracket s ≡ false
has_bracket-IsName [] h = refl
has_bracket-IsName (c ∷ s) h = ground (arith, is_bracket-IsPlain c h.0, has_bracket-IsName s h.1)

is_operator_token-IsName : (s : Bytes) → IsName s → is_operator_token s ≡ false
unfolding is_operator_token
is_operator_token-IsName [] h = refl
is_operator_token-IsName (c ∷ []) h = ground (arith, h.1.0)
is_operator_token-IsName (c ∷ d ∷ s) h = refl

is_operator_token-signed : (s : Bytes) → IsName s → is_operator_token (minus ∷ s) ≡ false
unfolding is_operator_token
is_operator_token-signed [] h = absurd (h.0 refl)
is_operator_token-signed (c ∷ s) h = refl

is_operator_token-symbol : (o : Operator) → is_operator_token (symbol o ∷ []) ≡ true
unfolding is_operator_token is_operator
is_operator_token-symbol add = refl
is_operator_token-symbol sub = refl
is_operator_token-symbol mul = refl
is_operator_token-symbol div = refl

no_brackets-symbol : (o : Operator) → no_brackets ((symbol o ∷ []) ∷ []) ≡ true
no_brackets-symbol add = refl
no_brackets-symbol sub = refl
no_brackets-symbol mul = refl
no_brackets-symbol div = refl

count_operators-suffix : (e : Expression) → IsWritten e → count_operators (suffix e) ≡ operators e
unfolding suffix count_operators
count_operators-suffix (leaf s) w = ground (arith, is_operator_token-IsName s w)
count_operators-suffix (signed s) w = ground (arith, is_operator_token-signed s w)
count_operators-suffix (binary o l r) w = ground (
  arith,
  count_operators-append (suffix l) (suffix r ++ (symbol o ∷ []) ∷ []),
  count_operators-append (suffix r) ((symbol o ∷ []) ∷ []),
  count_operators-suffix l w.0,
  count_operators-suffix r w.1,
  is_operator_token-symbol o,
)

length-suffix : (e : Expression) → length (suffix e) ≡ 2 * operators e + 1
unfolding suffix
length-suffix (leaf s) = refl
length-suffix (signed s) = refl
length-suffix (binary o l r) = omega (
  arith,
  length-append (suffix l) (suffix r ++ (symbol o ∷ []) ∷ []),
  length-append (suffix r) ((symbol o ∷ []) ∷ []),
  length-suffix l,
  length-suffix r,
)

no_brackets-suffix : (e : Expression) → IsWritten e → no_brackets (suffix e) ≡ true
unfolding suffix
no_brackets-suffix (leaf s) w = ground (arith, has_bracket-IsName s w.1)
no_brackets-suffix (signed s) w = ground (arith, has_bracket-IsName s w.1)
no_brackets-suffix (binary o l r) w =
    no_brackets-append (suffix l) (suffix r ++ (symbol o ∷ []) ∷ []) (no_brackets-suffix l w.0) (
      no_brackets-append (suffix r) ((symbol o ∷ []) ∷ []) (no_brackets-suffix r w.1)
        (no_brackets-symbol o))

balanced :
    (k : ℕ)
    → k < 2 ^ 62
    → nat_beq ((2 * k + 1 + 2 ^ 64 - k % 2 ^ 16) % 2 ^ 64) (k % 2 ^ 16 + 1) ≡ ltb k (2 ^ 16)
balanced k h = ground (arith, h)

check_express-suffix :
    (e : Expression)
    → IsWritten e
    → operators e < 2 ^ 62
    → check_express (suffix e) ≡ ltb (operators e) (2 ^ 16)
unfolding check_express
check_express-suffix e w h =
    rw (count_operators-suffix e w, length-suffix e, no_brackets-suffix e w)
      (ground (arith, balanced (operators e) h))

-- `importExpress` of a written expression with fewer than 2^62 operators: the suffix form is on the
-- stack, and the code is 0 if there are fewer than 65,536 operators, and -1 otherwise, since
-- their counter has 16 bits.
import_express-print :
    (e : Expression)
    → IsWritten e
    → operators e < 2 ^ 62
    → import_express (print_infix e) []
      ≡ some (if ltb (operators e) (2 ^ 16) then 0 else 1, suffix e)
unfolding import_express
import_express-print e w h = ground (arith, parse_express-print e w, check_express-suffix e w h)
