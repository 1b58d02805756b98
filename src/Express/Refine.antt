-- ===== src/Express/Refine.antt =====
-- src/primihub/executor/express.cc: `runMPCEvaluate` with `revealMPCResult` gives what
-- `runLocalEvaluate` gives to one who has the columns of all parties.
use primihub.Prelude.{
  ℕ, suc, ◌<◌, ◌≡◌, refl, sym, ap, subst, ◌∙◌, ◌≢◌, Bool, true, false, ◌&&◌, Option, none, some,
  List, [], ◌∷◌, arith, Bytes, length, get_elem?,
}
use primihub.Express.Grammar.{Operator, Expression, leaf, signed, binary}
use primihub.Express.Value.{Number, TokenValue, shared, column}
use primihub.Express.Parse.{minus}
use primihub.Express.Evaluate.{Meaning, final_value-suffix}
use primihub.Express.Local.{run_local_evaluate, run_local_evaluate-row}
use primihub.Express.Mpc.{run_mpc_evaluate}
use primihub.Express.Grammar.{print_infix, IsWritten, suffix, div}
use primihub.Express.Rows.{
  is_constant, Denotes, local-Denotes, IsInput, IsComputable, constant_value, row, value_in_row,
  value-Denotes,
}
use primihub.Express.Mpc.{agreed_count, MpcOperator, mpc_calculate}
use primihub.Express.Agree.{opened, open_tokens, mpc_calculate-local_calculate}
use primihub.Express.Evaluate.{Meaning}

abbrev is_division : Operator → Bool
is_division div = true
is_division _ = false

not_division : (o : Operator) → is_division o ≡ false → o ≢ div
not_division o h e = ground (arith, ap is_division e, h)

-- Nothing is divided.
abbrev pub HasNoDivision : Expression → Type 0
HasNoDivision (leaf s) = Unit
HasNoDivision (signed s) = Unit
HasNoDivision (binary o l r) = HasNoDivision l × HasNoDivision r × (is_division o ≡ false)

abbrev is_binary : Expression → Bool
is_binary (binary o l r) = true
is_binary _ = false

columns_eq :
    {V : Type 0} (xs ys : List V)
    → length xs ≡ length ys
    → ((i : ℕ) → i < length xs → get_elem? xs i ≡ get_elem? ys i)
    → xs ≡ ys
columns_eq [] [] h g = refl
columns_eq [] (y ∷ ys) h g = absurd (omega (arith, h))
columns_eq (x ∷ xs) [] h g = absurd (omega (arith, h))
columns_eq (x ∷ xs) (y ∷ ys) h g = cc (
  g 0 (omega (arith)),
  columns_eq xs ys (omega (arith, h)) (λ i lt. g (suc i) (omega (arith, lt))),
)

module _ {V Share : Type 0} (n : Number V) (op : MpcOperator n Share) (rows : ℕ)
    (create : Bytes → Option (TokenValue V Share)) where
  abbrev env : Bytes → Option (TokenValue V Share)
  env = open_tokens n op create

  abbrev IsShared : TokenValue V Share → Type 0
  IsShared v = (s : Share) × (v ≡ shared s)

  abbrev HoldsShared : Expression → TokenValue V Share → Type 0
  HoldsShared e v = Denotes n rows env e (opened n op v) × (is_binary e ≡ true → IsShared v)

  opened-some :
      (o : Option (TokenValue V Share)) (e : Expression) (v : TokenValue V Share)
      → is_binary e ≡ false
      → elim o [ none ↦ none | some w ↦ some (opened n op w) ] ≡ some v
      → Denotes n rows env e v
      → (w : TokenValue V Share) × (o ≡ some w) × HoldsShared e w
  opened-some none e v b h d = absurd (ground (arith, h))
  opened-some (some w) e v b h d =
      let q : opened n op w ≡ v = ground (arith, h) in
      (w, refl, (rw q d, λ t. absurd (ground (arith, b, t))))

  at_token :
      (s : Bytes) (e : Expression)
      → IsInput n rows env (env s)
      → is_binary e ≡ false
      → is_constant n rows env e ≡ constant_value n rows env (env s)
      → ((i : ℕ) → row n rows env e i ≡ value_in_row n rows env (env s) i)
      → (w : TokenValue V Share) × (create s ≡ some w) × HoldsShared e w
  at_token s e h b c g =
      let (v, q, d) = value-Denotes n rows env e (env s) h c g in opened-some (create s) e v b q d

  calculated :
      (o : Operator) (l r : Expression) (v w : TokenValue V Share)
      → (is_constant n rows env l && is_constant n rows env r) ≡ false
      → o ≢ div
      → HoldsShared l v
      → HoldsShared r w
      → (u : TokenValue V Share) × (mpc_calculate n op rows o v w ≡ some u)
        × HoldsShared (binary o l r) u
  calculated o l r v w k d hv hw =
      let (u, e, h) = local-Denotes n rows env o l r (opened n op v) (opened n op w) k hv.0 hw.0 in
      let (s, m, q) = mpc_calculate-local_calculate n op rows o v w u d e in
      (shared s, m, (subst (Denotes n rows env (binary o l r)) q h, λ t. (s, refl)))

  abbrev mpc_meaning : Meaning create (mpc_calculate n op rows)
  mpc_meaning = record {
    Holds = HoldsShared;
    Good = λ e. IsComputable n rows env e × HasNoDivision e;
    at_leaf = λ s g. at_token s (leaf s) g.0 refl refl (λ i. refl);
    at_signed = λ s g. at_token (minus ∷ s) (signed s) g.0 refl refl (λ i. refl);
    at_binary = λ o l r v w g a b. calculated o l r v w g.0.2 (not_division o g.1.2) a b;
    parts = λ o l r g. ((g.0.0, g.1.0), (g.0.1, g.1.1));
  }

  -- `runMPCEvaluate` on the suffix form of a written expression with at least one operator, and
  -- `revealMPCResult`, where each party has as many values as there are rows: if one party that had all
  -- columns could compute the expression, and it divides nothing, then the revealed values are those of
  -- the expression in each row.
  run_mpc_evaluate-row :
      (o : Operator) (l r : Expression)
      → IsWritten (binary o l r)
      → IsComputable n rows env (binary o l r)
      → HasNoDivision (binary o l r)
      → (xs : List V) × (run_mpc_evaluate n op (rows, rows, rows) create (suffix (binary o l r))
          ≡ some xs)
        × (length xs ≡ rows)
        × ((i : ℕ) → i < rows → get_elem? xs i ≡ row n rows env (binary o l r) i)
  unfolding run_mpc_evaluate
  run_mpc_evaluate-row o l r w g k =
      let e : Expression = binary o l r in
      let (v, run, h) =
        final_value-suffix create (mpc_calculate n op rows) mpc_meaning e [] w (g, k) in
      let (s, q) = h.1 refl in
      let d : Denotes n rows env e (column (op.reveal s)) =
        subst (λ u. Denotes n rows env e (opened n op u)) q h.0 in
      (op.reveal s, unfold agreed_count in ground (arith, run, q), d.1, d.2)

  -- The refinement: for a written expression on integers, with at least one operator and without division,
  -- which one party that had all columns could compute, and where each of the three parties has columns
  -- of its own and all columns have the same length, the executor on shares reveals exactly what the
  -- local executor computes from the text of the expression, when it is given the columns of all
  -- parties.
  pub run_mpc_evaluate-run_local_evaluate :
      (o : Operator) (l r : Expression)
      → IsWritten (binary o l r)
      → IsComputable n rows env (binary o l r)
      → HasNoDivision (binary o l r)
      → (xs : List V) × (run_mpc_evaluate n op (rows, rows, rows) create (suffix (binary o l r))
          ≡ some xs)
        × (run_local_evaluate n env (print_infix (binary o l r)) [] ≡ some xs)
  run_mpc_evaluate-run_local_evaluate o l r w g k =
      let (xs, e, a, p) = run_mpc_evaluate-row o l r w g k in
      let (ys, f, b, q) = run_local_evaluate-row n rows env (binary o l r) w g refl in
      (
        xs,
        e,
        f
            ∙ ap some (
                columns_eq ys xs (b ∙ sym a)
                  (λ i lt. q i (rw (sym b) lt) ∙ sym (p i (rw (sym b) lt)))),
      )
