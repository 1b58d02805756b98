-- ===== src/Express/RoundTrip.antt =====
-- src/primihub/executor/express.cc: `parseExpress` turns a written expression into its suffix form.
use primihub.Prelude.{
  ℕ, suc, ◌≤◌, ◌≡◌, refl, ap, ◌∙◌, ◌≢◌, inl, inr, Option, none, some, List, [], ◌∷◌, ◌++◌,
  append-nil, append_assoc, arith, ltb, Bool-cases, Bytes, All, All-mono,
}
use primihub.Express.Parse.{
  normal, first, is_operator, left_bracket, parse_characters, step, take_character, right_bracket,
  parse_express,
}
use primihub.Express.Grammar.{
  binary, leaf, signed, Operator, symbol, rank, bracket, print_at, suffix, Expression, IsWritten,
  leaf, signed, print_infix,
}
use primihub.Express.Characters.{opt, flush-opt, IsBelow, Leaves, symbol-priority}
use primihub.Express.Pending.{
  parse-close, leaf-IsPending, signed-IsPending, binary-IsPending, IsPending,
}

parse-open :
    (previous : Option ℕ) (rest : Bytes) (ops out : List Bytes)
    → parse_characters normal previous
        (left_bracket ∷ rest)
        (record { temp = []; ops = ops; out = out })
      ≡ parse_characters normal
          (some left_bracket)
          rest
          (record { temp = []; ops = (left_bracket ∷ []) ∷ ops; out = out })
unfolding parse_characters step take_character is_operator
parse-open previous rest ops out = ground arith

parse-right_brackets :
    (p : ℕ) (previous : Option ℕ) (rest temp : Bytes) (q ops out : List Bytes)
    → All (Leaves p) q
    → q ≢ []
    → parse_characters normal previous
        (right_bracket ∷ rest)
        (record { temp = temp; ops = q ++ ((left_bracket ∷ []) ∷ ops); out = out })
      ≡ parse_characters normal
          (some right_bracket)
          rest
          (record { temp = []; ops = ops; out = out ++ (opt temp ++ q) })
parse-right_brackets p previous rest temp [] ops out h ne = absurd (ne refl)
parse-right_brackets p previous rest temp (t ∷ q) ops out h ne =
    parse-close p previous rest temp t q ops out h

-- In brackets, nothing is pending but the tokens.
bracket-IsPending :
    (p k : ℕ) (text : Bytes) (tokens : List Bytes) (previous : Option ℕ) (ops out : List Bytes)
    → (b : IsPending p text tokens (some left_bracket) ((left_bracket ∷ []) ∷ ops) out)
    → b.above ≢ []
    → IsPending k (bracket text) tokens previous ops out
bracket-IsPending p k text tokens previous ops out b some_above = record {
  temp = [];
  above = [];
  pushed = out ++ tokens;
  end_char = some right_bracket;
  runs = λ rest. rw (append_assoc text (right_bracket ∷ []) rest) (
      parse-open previous (text ++ (right_bracket ∷ rest)) ops out
      ∙ b.runs (right_bracket ∷ rest)
      ∙ parse-right_brackets p b.end_char rest b.temp b.above ops b.pushed b.leaves some_above
      ∙ ap
          (λ x.
            parse_characters normal (some right_bracket) rest
              (record { temp = []; ops = ops; out = x }))
          b.gives);
  gives = append-nil _;
  leaves = tt;
  ends = refl;
}

IsBelow-mono : (p k : ℕ) (ops : List Bytes) → p ≤ k → IsBelow p ops → IsBelow k ops
IsBelow-mono p k [] h b = tt
IsBelow-mono p k (t ∷ ops) h (inl e) = inl e
IsBelow-mono p k (t ∷ ops) h (inr l) = inr (omega arith)

weaken :
    (p k : ℕ) (text : Bytes) (tokens : List Bytes) (previous : Option ℕ) (ops out : List Bytes)
    → p ≤ k
    → IsPending k text tokens previous ops out
    → IsPending p text tokens previous ops out
weaken p k text tokens previous ops out h b = record {
  temp = b.temp;
  above = b.above;
  pushed = b.pushed;
  end_char = b.end_char;
  runs = b.runs;
  gives = b.gives;
  leaves = All-mono b.above (λ t v. (omega (arith, v.0, h), v.1)) b.leaves;
  ends = b.ends;
}

symbol-IsBelow : (o : Operator) (ops : List Bytes) → IsBelow (suc (rank o)) ((symbol o ∷ []) ∷ ops)
unfolding first
symbol-IsBelow o ops = inr (omega (arith, symbol-priority o))

print-IsPending :
    (e : Expression) (p : ℕ) (previous : Option ℕ) (ops out : List Bytes)
    → IsWritten e
    → IsBelow p ops
    → IsPending p (print_at p e) (suffix e) previous ops out
unfolding print_at suffix first
print-IsPending (leaf s) p previous ops out w b = leaf-IsPending p s previous ops out w
print-IsPending (signed s) p previous ops out w b = signed-IsPending p s previous ops out w.1
print-IsPending (binary o l r) p previous ops out w b = elim (Bool-cases (ltb (rank o) p)) [
  | inl small ↦
      let (x, some_above) =
        binary-IsPending o (print_at (rank o) l) (print_at (suc (rank o)) r) (suffix l) (suffix r)
          (some left_bracket) ((left_bracket ∷ []) ∷ ops) out (inl refl)
          (print-IsPending l (rank o) (some left_bracket) ((left_bracket ∷ []) ∷ ops) out w.0
            (inl refl))
          (λ c done.
            print-IsPending r (suc (rank o)) c ((symbol o ∷ []) ∷ ((left_bracket ∷ []) ∷ ops)) done
              w.1 (symbol-IsBelow o ((left_bracket ∷ []) ∷ ops))) in
      rw small (bracket-IsPending (rank o) p _ _ previous ops out x some_above)
  | inr big ↦
      let below = IsBelow-mono p (rank o) ops (ground (arith, big)) b in
      let (x, some_above) =
        binary-IsPending o (print_at (rank o) l) (print_at (suc (rank o)) r) (suffix l) (suffix r)
          previous ops out below (print-IsPending l (rank o) previous ops out w.0 below)
          (λ c done.
            print-IsPending r (suc (rank o)) c ((symbol o ∷ []) ∷ ops) done w.1
              (symbol-IsBelow o ops)) in
      rw big (weaken p (rank o) _ _ previous ops out (ground (arith, big)) x)
]

-- An expression that is written with brackets only where they are needed, its operators associating to
-- the left, its names without operators and brackets, and its signed constants in brackets, is parsed
-- to its suffix form.
pub parse_express-print :
    (e : Expression) → IsWritten e → parse_express (print_infix e) [] ≡ some (suffix e)
unfolding parse_express parse_characters
parse_express-print e w =
    let b = print-IsPending e 0 none [] [] w tt in
    ground (
      arith,
      b.runs [],
      append-nil (print_at 0 e),
      append-nil b.above,
      flush-opt b.temp b.above b.pushed,
      append_assoc b.pushed (opt b.temp) b.above,
      b.gives,
    )
