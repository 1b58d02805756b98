-- ===== src/Express/Characters.antt =====
-- src/primihub/executor/express.cc: what `parseExpress` does at single characters, operators and
-- numbers.
use primihub.Prelude.{
  ℕ, ◌≤◌, ◌<◌, ◌≡◌, refl, sym, ap, ◌≢◌, ◌⊎◌, Bool, true, false, not, Option, none, some, List, [],
  ◌∷◌, ◌++◌, append-nil, append_assoc, arith, nat_beq, Bytes, All,
}
use primihub.Express.Parse.{
  normal, negative, flush, shift, unwind, first, priority, is_operator, left_bracket,
  parse_characters, step, take_character, close, read, right_bracket,
}
use primihub.Express.Grammar.{add, sub, mul, div, Operator, symbol, rank, IsPlain}

abbrev pub opt : Bytes → List Bytes
opt [] = []
opt (c ∷ s) = (c ∷ s) ∷ []

pub flush-opt :
    (temp : Bytes) (ops out : List Bytes)
    → flush (record { temp = temp; ops = ops; out = out })
      ≡ record { temp = []; ops = ops; out = out ++ opt temp }
unfolding flush
flush-opt [] ops out = ap (λ o. record { temp = []; ops = ops; out = o }) (sym (append-nil out))
flush-opt (c ∷ s) ops out = refl

-- An operator of rank `p` leaves these operators where they are.
abbrev pub IsBelow : ℕ → List Bytes → Type 0
IsBelow p [] = Unit
IsBelow p (t ∷ ops) = (first t ≡ left_bracket) ⊎ (priority (first t) < p)

-- An operator of rank `p` makes this one leave the stack.
abbrev pub Leaves : ℕ → Bytes → Type 0
Leaves p t = (p ≤ priority (first t)) × (first t ≢ left_bracket)

pub symbol-priority : (o : Operator) → priority (symbol o) ≡ rank o
unfolding priority
symbol-priority add = refl
symbol-priority sub = refl
symbol-priority mul = refl
symbol-priority div = refl

pub symbol-is_operator : (o : Operator) → is_operator (symbol o) ≡ true
unfolding is_operator
symbol-is_operator add = refl
symbol-is_operator sub = refl
symbol-is_operator mul = refl
symbol-is_operator div = refl

shift-below :
    (c p : ℕ) (ops out : List Bytes)
    → priority c ≡ p
    → IsBelow p ops
    → shift c ops out ≡ ((c ∷ []) ∷ ops, out)
unfolding shift
shift-below c p [] out e b = refl
shift-below c p (t ∷ ops) out e b = ground (arith, e, b)

pub shift-Leaves :
    (c p : ℕ) (q ops out : List Bytes)
    → priority c ≡ p
    → All (Leaves p) q
    → IsBelow p ops
    → shift c (q ++ ops) out ≡ ((c ∷ []) ∷ ops, out ++ q)
unfolding shift
shift-Leaves c p [] ops out e h b = rw (append-nil out) (shift-below c p ops out e b)
shift-Leaves c p (t ∷ q) ops out e h b =
    ground
      (arith, h.0, e, shift-Leaves c p q ops (out ++ t ∷ []) e h.1 b, append_assoc out (t ∷ []) q)

pub unwind-Leaves :
    (p : ℕ) (q ops out : List Bytes)
    → All (Leaves p) q
    → unwind [] (q ++ ((left_bracket ∷ []) ∷ ops)) out
      ≡ record { temp = []; ops = (left_bracket ∷ []) ∷ ops; out = out ++ q }
unfolding unwind flush first
unwind-Leaves p [] ops out h = ground (arith, append-nil out)
unwind-Leaves p (t ∷ q) ops out h =
    ground (arith, h.0, unwind-Leaves p q ops (out ++ t ∷ []) h.1, append_assoc out (t ∷ []) q)

-- The character before an operator, behind an operand.
abbrev pub after_operand : Option ℕ → Bool
after_operand none = false
after_operand (some c) = not (nat_beq c left_bracket)

abbrev pub last : Option ℕ → Bytes → Option ℕ
last previous [] = previous
last previous (c ∷ s) = last (some c) s

pub last-after_operand :
    (previous : Option ℕ) (c : ℕ) (s : Bytes)
    → All IsPlain (c ∷ s)
    → after_operand (last previous (c ∷ s)) ≡ true
last-after_operand previous c [] h = ground (arith, h.0)
last-after_operand previous c (d ∷ s) h = last-after_operand (some c) d s h.1

pub parse-plain :
    (s rest temp : Bytes) (previous : Option ℕ) (ops out : List Bytes)
    → All IsPlain s
    → parse_characters normal previous (s ++ rest) (record { temp = temp; ops = ops; out = out })
      ≡ parse_characters normal
          (last previous s)
          rest
          (record { temp = temp ++ s; ops = ops; out = out })
unfolding parse_characters step take_character is_operator read
parse-plain [] rest temp previous ops out h = rw (append-nil temp) refl
parse-plain (c ∷ s) rest temp previous ops out h = ground (
  arith,
  h.0,
  parse-plain s rest (temp ++ c ∷ []) (some c) ops out h.1,
  append_assoc temp (c ∷ []) s,
)

-- The number behind `(-`.
pub parse-negative :
    (s rest temp : Bytes) (previous : Option ℕ) (ops out : List Bytes)
    → All IsPlain s
    → parse_characters negative previous
        (s ++ (right_bracket ∷ rest))
        (record { temp = temp; ops = (left_bracket ∷ []) ∷ ops; out = out })
      ≡ parse_characters normal
          (some right_bracket)
          rest
          (record { temp = temp ++ s; ops = ops; out = out })
unfolding parse_characters step take_character close unwind read is_operator
parse-negative [] rest temp previous ops out h = rw (append-nil temp) refl
parse-negative (c ∷ s) rest temp previous ops out h = ground (
  arith,
  h.0,
  parse-negative s rest (temp ++ c ∷ []) (some c) ops out h.1,
  append_assoc temp (c ∷ []) s,
)
