-- ===== src/Aby3/Library.antt =====
-- src/primihub/operator/aby3_operator.cc: `MPCOperator` with the aby3 library as a parameter fills the
-- interface that the executor of expressions takes.
use primihub.Prelude.{◌+◌, ◌*◌, ◌≡◌, some, List, [], ◌∷◌, Bytes, replicate}
use primihub.Express.Value.{zip_columns, map_column}
use primihub.Express.Mpc.{MpcOperator}
use primihub.Aby3.Share.{word_sub}
use primihub.Aby3.Operator.{
  Word, word, machine_words, Shared, revealed, add_const, sub_const, revealed-add_const,
  revealed-sub_const, revealed-const_sub,
}

-- What the library does: the sharing and the revealing, the sum and the difference of two matrices of
-- shares, and the protocols for products, on integers. `quotient` stands for `MPC_Div`, which the library
-- has for other numbers, and of which nothing is said.
pub record Library (over : Word → Word → Word) : Type 0 where
  pub owner_column : Bytes → List Word
  pub local_int_matrix : List Word → Shared
  pub remote_int_matrix : Bytes → Shared
  pub plus_shares : Shared → Shared → Shared
  pub minus_shares : Shared → Shared → Shared
  pub dot_mul : Shared → Shared → Shared
  pub const_mul : Word → Shared → Shared
  pub quotient : Shared → Shared → Shared
  pub revealed-local : (xs : List Word) → revealed (local_int_matrix xs) ≡ xs
  pub revealed-remote : (s : Bytes) → revealed (remote_int_matrix s) ≡ owner_column s
  pub revealed-plus :
      (a b : Shared) (zs : List Word)
      → zip_columns (λ x y. word (x.0 + y.0)) (revealed a) (revealed b) ≡ some zs
      → revealed (plus_shares a b) ≡ zs
  pub revealed-minus :
      (a b : Shared) (zs : List Word)
      → zip_columns (λ x y. word (word_sub x.0 y.0)) (revealed a) (revealed b) ≡ some zs
      → revealed (minus_shares a b) ≡ zs
  pub revealed-dot_mul :
      (a b : Shared) (zs : List Word)
      → zip_columns (λ x y. word (x.0 * y.0)) (revealed a) (revealed b) ≡ some zs
      → revealed (dot_mul a b) ≡ zs
  pub revealed-const_mul :
      (c : Word) (a : Shared)
      → revealed (const_mul c a) ≡ map_column (λ x. word (c.0 * x.0)) (revealed a)

-- `MPC_Add` of a vector that begins with `sum`, and `MPC_Sub`: the loops.
unfoldable pub mpc_add : (Shared → Shared → Shared) → Shared → List Shared → Shared
mpc_add plus_shares sum [] = sum
mpc_add plus_shares sum (s ∷ shares) = mpc_add plus_shares (plus_shares sum s) shares

unfoldable pub mpc_sub : (Shared → Shared → Shared) → Shared → List Shared → Shared
mpc_sub minus_shares difference [] = difference
mpc_sub minus_shares difference (s ∷ subtrahends) =
    mpc_sub minus_shares (minus_shares difference s) subtrahends

module _ {over : Word → Word → Word} (lib : Library over) where
  pub add_two :
      (a b : Shared) (zs : List Word)
      → zip_columns (λ x y. word (x.0 + y.0)) (revealed a) (revealed b) ≡ some zs
      → revealed (mpc_add lib.plus_shares a (b ∷ [])) ≡ zs
  unfolding mpc_add
  add_two a b zs h = lib.revealed-plus a b zs h

  pub sub_one :
      (a b : Shared) (zs : List Word)
      → zip_columns (λ x y. word (word_sub x.0 y.0)) (revealed a) (revealed b) ≡ some zs
      → revealed (mpc_sub lib.minus_shares a (b ∷ [])) ≡ zs
  unfolding mpc_sub
  sub_one a b zs h = lib.revealed-minus a b zs h

  -- A constant is shared as the column that repeats it.
  abbrev pub mpc_operator : MpcOperator (machine_words over) Shared
  mpc_operator = record {
    owner_column = lib.owner_column;
    local_shares = lib.local_int_matrix;
    remote_shares = lib.remote_int_matrix;
    constant_shares = λ k c. lib.local_int_matrix (replicate k c);
    mpc_add = λ a b. mpc_add lib.plus_shares a (b ∷ []);
    mpc_add_const = add_const;
    mpc_sub = λ a b. mpc_sub lib.minus_shares a (b ∷ []);
    mpc_sub_const = λ c a mode. sub_const c a mode;
    mpc_dot_mul = lib.dot_mul;
    mpc_mul_const = lib.const_mul;
    mpc_div = lib.quotient;
    reveal = revealed;
    reveal-local = lib.revealed-local;
    reveal-remote = lib.revealed-remote;
    reveal-add = add_two;
    reveal-add_const = revealed-add_const;
    reveal-sub = sub_one;
    reveal-sub_const = revealed-sub_const;
    reveal-const_sub = revealed-const_sub;
    reveal-dot_mul = lib.revealed-dot_mul;
    reveal-mul_const = lib.revealed-const_mul;
  }
