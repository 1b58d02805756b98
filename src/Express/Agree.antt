-- ===== src/Express/Agree.antt =====
-- src/primihub/executor/express.cc: `runMPCEvaluate` reveals what `runLocalEvaluate` computes from the
-- columns of all parties.
use primihub.Prelude.{
  ℕ, ◌≡◌, refl, sym, ap, ◌∙◌, ◌≢◌, ◌⊎◌, inl, inr, true, false, Option, none, some, List, [], ◌∷◌,
  arith, Option-cases, Bytes,
}
use primihub.Express.Value.{
  Number, TokenValue, column, constant, remote, shared, zip_columns, map_column, calculate,
}
use primihub.Express.Grammar.{Operator, add, sub, mul, div}
use primihub.Express.Value.{local_calculate}
use primihub.Express.Mpc.{mpc_calculate, MpcOperator, share_of, constant_of, on_shares}

module _ {V : Type 0} where
  map_column-same :
      (f g : V → V) (xs : List V) → ((x : V) → f x ≡ g x) → map_column f xs ≡ map_column g xs
  unfolding map_column
  map_column-same f g [] h = refl
  map_column-same f g (x ∷ xs) h = cc (h x, map_column-same f g xs h)

module _ {V Share : Type 0} (n : Number V) (op : MpcOperator n Share) where
  -- The value in the clear.
  abbrev pub opened : TokenValue V Share → TokenValue V Share
  opened (column xs) = column xs
  opened (constant c) = constant c
  opened (remote s) = column (op.owner_column s)
  opened (shared s) = column (op.reveal s)

  -- What one party that had all columns would take for a token.
  abbrev pub open_tokens :
      (Bytes → Option (TokenValue V Share)) → Bytes → Option (TokenValue V Share)
  open_tokens create s = elim (create s) [ none ↦ none | some v ↦ some (opened v) ]

  value-cases :
      (v : TokenValue V Share)
      → ((c : V) × (constant_of n op v ≡ some c) × (opened v ≡ constant c))
        ⊎ ((a : Share) × (constant_of n op v ≡ none)
            × (share_of n op v ≡ some a)
            × (opened v ≡ column (op.reveal a)))
  unfolding constant_of share_of
  value-cases (column xs) =
      inr (op.local_shares xs, refl, refl, ap column (sym (op.reveal-local xs)))
  value-cases (constant c) = inl (c, refl, refl)
  value-cases (remote s) =
      inr (op.remote_shares s, refl, refl, ap column (sym (op.reveal-remote s)))
  value-cases (shared s) = inr (s, refl, refl, refl)

  calculate-columns :
      (f left right : V → V → V) (xs ys : List V) (u : TokenValue V Share)
      → calculate f left right (column xs) (column ys) ≡ some u
      → (zs : List V) × (zip_columns f xs ys ≡ some zs) × (u ≡ column zs)
  unfolding calculate
  calculate-columns f left right xs ys u e = elim (Option-cases (zip_columns f xs ys)) [
    | inl z ↦ absurd (ground (arith, e, z))
    | inr (zs, z) ↦ (zs, z, ground (arith, e, z))
  ]

  on_shares-calculate :
      (f left right : V → V → V) (both : Share → Share → Share)
      (with_left with_right : V → Share → Share) (v w u : TokenValue V Share)
      → ((a b : Share) (zs : List V)
          → zip_columns f (op.reveal a) (op.reveal b) ≡ some zs
          → op.reveal (both a b) ≡ zs)
      → ((c : V) (a : Share)
          → opened w ≡ column (op.reveal a)
          → op.reveal (with_left c a) ≡ map_column (left c) (op.reveal a))
      → ((c : V) (a : Share)
          → opened w ≡ constant c
          → op.reveal (with_right c a) ≡ map_column (λ x. right x c) (op.reveal a))
      → calculate f left right (opened v) (opened w) ≡ some u
      → (s : Share) × (on_shares n op both with_left with_right v w ≡ some (shared s))
        × (u ≡ column (op.reveal s))
  unfolding calculate on_shares
  on_shares-calculate f left right both with_left with_right v w u hb hl hr e =
      elim (value-cases v) [
        | inl (c, cv, ov) ↦ elim (value-cases w) [
          | inl (d, cw, ow) ↦ absurd (ground (arith, e, ov, ow))
          | inr (b, cw, sw, ow) ↦
              (with_left c b, ground (arith, cv, sw), ground (arith, e, ov, ow, hl c b ow))
        ]
        | inr (a, cv, sv, ov) ↦ elim (value-cases w) [
          | inl (d, cw, ow) ↦
              (with_right d a, ground (arith, cv, sv, cw), ground (arith, e, ov, ow, hr d a ow))
          | inr (b, cw, sw, ow) ↦
              let e2 : calculate f left right (column (op.reveal a)) (column (op.reveal b))
                  ≡ some u =
                rw (sym ov, sym ow) e in
              let (zs, z, uz) = calculate-columns f left right (op.reveal a) (op.reveal b) u e2 in
              (both a b, ground (arith, cv, sv, cw, sw), cc (uz, hb a b zs z))
        ]
      ]

  -- What the local executor calculates, on columns of which the shares hold, without division.
  pub mpc_calculate-local_calculate :
      (rows : ℕ) (o : Operator) (v w u : TokenValue V Share)
      → o ≢ div
      → local_calculate n o (opened v) (opened w) ≡ some u
      → (s : Share) × (mpc_calculate n op rows o v w ≡ some (shared s)) × (u ≡ column (op.reveal s))
  unfolding local_calculate mpc_calculate
  mpc_calculate-local_calculate rows add v w u d e =
      on_shares-calculate n.plus n.plus (λ x c. n.plus c x) op.mpc_add op.mpc_add_const
        op.mpc_add_const v w u op.reveal-add (λ c a ow. op.reveal-add_const c a)
        (λ c a ow. op.reveal-add_const c a) e
  mpc_calculate-local_calculate rows sub v w u d e =
      on_shares-calculate n.minus n.minus n.minus op.mpc_sub (λ c b. op.mpc_sub_const c b false)
        (λ c a. op.mpc_sub_const c a true) v w u op.reveal-sub (λ c a ow. op.reveal-const_sub c a)
        (λ c a ow. op.reveal-sub_const c a) e
  mpc_calculate-local_calculate rows mul v w u d e =
      on_shares-calculate n.times n.times n.times op.mpc_dot_mul op.mpc_mul_const op.mpc_mul_const v
        w u op.reveal-dot_mul (λ c a ow. op.reveal-mul_const c a)
        (λ c a ow.
          op.reveal-mul_const c a
          ∙ map_column-same (n.times c) (λ x. n.times x c) (op.reveal a) (λ x. n.times_comm c x))
        e
  mpc_calculate-local_calculate rows div v w u d e = absurd (d refl)
