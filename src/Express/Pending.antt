-- ===== src/Express/Pending.antt =====
-- src/primihub/executor/express.cc: where `parseExpress` stands behind an operand.
use primihub.Prelude.{
  ℕ, suc, ◌≡◌, refl, sym, ap, ◌∙◌, ◌≢◌, true, Option, none, some, List, [], ◌∷◌, ◌++◌, append_assoc,
  arith, Bytes, All, All-mono, All-append,
}
use primihub.Express.Parse.{
  normal, unwind, first, priority, is_operator, left_bracket, parse_characters, step,
  take_character, close, read, right_bracket, minus,
}
use primihub.Express.Grammar.{add, sub, mul, div, Operator, symbol, rank, IsPlain, IsName, bracket}
use primihub.Express.Characters.{
  opt, flush-opt, IsBelow, Leaves, symbol-priority, symbol-is_operator, shift-Leaves, unwind-Leaves,
  after_operand, last, last-after_operand, parse-plain, parse-negative,
}

-- Where the loop stands behind an operand that began with these operators and tokens: it still has the
-- last token and the operators that an operator of rank `p` makes leave.
pub record IsPending (p : ℕ) (text : Bytes) (tokens : List Bytes) (previous : Option ℕ)
    (ops out : List Bytes) : Type 0 where
  pub temp : Bytes
  pub above : List Bytes
  pub pushed : List Bytes
  pub end_char : Option ℕ
  pub runs :
      (rest : Bytes)
      → parse_characters normal previous (text ++ rest) (record { temp = []; ops = ops; out = out })
        ≡ parse_characters normal end_char rest
            (record { temp = temp; ops = above ++ ops; out = pushed })
  pub gives : pushed ++ (opt temp ++ above) ≡ out ++ tokens
  pub leaves : All (Leaves p) above
  pub ends : after_operand end_char ≡ true

parse-operator :
    (o : Operator) (previous : Option ℕ) (rest temp : Bytes) (q ops out : List Bytes)
    → after_operand previous ≡ true
    → All (Leaves (rank o)) q
    → IsBelow (rank o) ops
    → parse_characters normal previous
        (symbol o ∷ rest)
        (record { temp = temp; ops = q ++ ops; out = out })
      ≡ parse_characters normal
          (some (symbol o))
          rest
          (record { temp = []; ops = (symbol o ∷ []) ∷ ops; out = out ++ (opt temp ++ q) })
unfolding parse_characters step take_character
parse-operator o none rest temp q ops out a h b = absurd (ground (arith, a))
parse-operator o (some c) rest temp q ops out a h b = ground (
  arith,
  a,
  symbol-is_operator o,
  flush-opt temp (q ++ ops) out,
  shift-Leaves (symbol o) (rank o) q ops (out ++ opt temp) (symbol-priority o) h b,
  append_assoc out (opt temp) q,
)

pub parse-close :
    (p : ℕ) (previous : Option ℕ) (rest temp t : Bytes) (q ops out : List Bytes)
    → All (Leaves p) (t ∷ q)
    → parse_characters normal previous
        (right_bracket ∷ rest)
        (record { temp = temp; ops = (t ∷ q) ++ ((left_bracket ∷ []) ∷ ops); out = out })
      ≡ parse_characters normal
          (some right_bracket)
          rest
          (record { temp = []; ops = ops; out = out ++ (opt temp ++ (t ∷ q)) })
unfolding parse_characters step take_character close unwind is_operator
parse-close p previous rest temp t q ops out h = ground (
  arith,
  h.0,
  flush-opt temp (q ++ ((left_bracket ∷ []) ∷ ops)) out,
  unwind-Leaves p q ops ((out ++ opt temp) ++ t ∷ []) h.1,
  append_assoc (out ++ opt temp) (t ∷ []) q,
  append_assoc out (opt temp) (t ∷ q),
)

pub leaf-IsPending :
    (p : ℕ) (s : Bytes) (previous : Option ℕ) (ops out : List Bytes)
    → IsName s
    → IsPending p s (s ∷ []) previous ops out
leaf-IsPending p [] previous ops out h = absurd (h.0 refl)
leaf-IsPending p (c ∷ s) previous ops out h = record {
  temp = c ∷ s;
  above = [];
  pushed = out;
  end_char = last previous (c ∷ s);
  runs = λ rest. parse-plain (c ∷ s) rest [] previous ops out h.1;
  gives = refl;
  leaves = tt;
  ends = last-after_operand previous c s h.1;
}

parse-signed :
    (s rest : Bytes) (previous : Option ℕ) (ops out : List Bytes)
    → All IsPlain s
    → parse_characters normal previous
        (bracket (minus ∷ s) ++ rest)
        (record { temp = []; ops = ops; out = out })
      ≡ parse_characters normal
          (some right_bracket)
          rest
          (record { temp = minus ∷ s; ops = ops; out = out })
unfolding parse_characters step take_character read is_operator
parse-signed s rest previous ops out h = ground (
  arith,
  append_assoc s (right_bracket ∷ []) rest,
  parse-negative s rest (minus ∷ []) (some minus) ops out h,
)

pub signed-IsPending :
    (p : ℕ) (s : Bytes) (previous : Option ℕ) (ops out : List Bytes)
    → All IsPlain s
    → IsPending p (bracket (minus ∷ s)) ((minus ∷ s) ∷ []) previous ops out
signed-IsPending p s previous ops out h = record {
  temp = minus ∷ s;
  above = [];
  pushed = out;
  end_char = some right_bracket;
  runs = λ rest. parse-signed s rest previous ops out h;
  gives = refl;
  leaves = tt;
  ends = refl;
}

symbol-Leaves : (o : Operator) → Leaves (rank o) (symbol o ∷ [])
unfolding priority first
symbol-Leaves add = ground arith
symbol-Leaves sub = ground arith
symbol-Leaves mul = ground arith
symbol-Leaves div = ground arith

tokens-snoc :
    (p t q d ls rs out s : List Bytes)
    → p ++ (t ++ q) ≡ d ++ rs
    → d ≡ out ++ ls
    → p ++ (t ++ (q ++ s)) ≡ out ++ (ls ++ (rs ++ s))
tokens-snoc p t q d ls rs out s e f = cc (
  e,
  f,
  append_assoc p (t ++ q) s,
  append_assoc t q s,
  append_assoc d rs s,
  append_assoc out ls (rs ++ s),
)

pub binary-IsPending :
    (o : Operator) (l r : Bytes) (ls rs : List Bytes) (previous : Option ℕ) (ops out : List Bytes)
    → IsBelow (rank o) ops
    → IsPending (rank o) l ls previous ops out
    → ((c : Option ℕ) (done : List Bytes)
        → IsPending (suc (rank o)) r rs c ((symbol o ∷ []) ∷ ops) done)
    → (b : IsPending
        (rank o)
        (l ++ (symbol o ∷ r))
        (ls ++ (rs ++ (symbol o ∷ []) ∷ []))
        previous
        ops
        out)
      × (b.above ≢ [])
binary-IsPending o l r ls rs previous ops out below a f =
    let done = a.pushed ++ (opt a.temp ++ a.above) in
    let b = f (some (symbol o)) done in
    (
      record {
        temp = b.temp;
        above = b.above ++ (symbol o ∷ []) ∷ [];
        pushed = b.pushed;
        end_char = b.end_char;
        runs = λ rest. rw (append_assoc l (symbol o ∷ r) rest) (
            a.runs (symbol o ∷ (r ++ rest))
            ∙ parse-operator o a.end_char (r ++ rest) a.temp a.above ops a.pushed a.ends a.leaves
                below
            ∙ b.runs rest
            ∙ ap
                (λ x.
                  parse_characters normal b.end_char rest
                    (record { temp = b.temp; ops = x; out = b.pushed }))
                (sym (append_assoc b.above ((symbol o ∷ []) ∷ []) ops)));
        gives =
            tokens-snoc b.pushed (opt b.temp) b.above done ls rs out ((symbol o ∷ []) ∷ []) b.gives
              a.gives;
        leaves =
            All-append (Leaves (rank o)) b.above ((symbol o ∷ []) ∷ [])
              (All-mono b.above (λ t h. (omega (arith, h.0), h.1)) b.leaves) (symbol-Leaves o, tt);
        ends = b.ends;
      },
      snoc b.above,
    )
  where
    snoc : (xs : List Bytes) → xs ++ (symbol o ∷ []) ∷ [] ≢ []
    snoc [] e = ground (arith, e)
    snoc (x ∷ xs) e = ground (arith, e)
