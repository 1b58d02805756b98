-- ===== src/Express/Mpc.antt =====
-- src/primihub/executor/express.cc: the calculations of `runMPCEvaluate` on shares, and the reveal of
-- its result. The three parties run in lockstep, and a share is what the three hold together. The
-- tokens are as one party sees them: a column of another is remote.
use primihub.Prelude.{
  ℕ, ◌≡◌, Bool, true, false, ◌&&◌, Option, none, some, List, [], nat_beq, if◌then◌else◌, Bytes,
}
use primihub.Express.Grammar.{Operator, add, sub, mul, div}
use primihub.Express.Value.{
  Number, TokenValue, column, constant, remote, shared, zip_columns, map_column,
}
use primihub.Express.Evaluate.{evaluate, final_value}

-- What the executor uses of `MPCOperator`: the sharing of a column by its owner, of a remote column, and
-- of a constant that party 0 knows; the operations; and the reveal. The laws are those of shares of
-- integers, `si64Matrix`: the operations do on the revealed columns what their names say. Shares of
-- fixed-point numbers, `sf64Matrix`, only come near the values and do not satisfy them, and nothing is
-- said of `mpc_div`, which there is for those alone.
pub record MpcOperator {V : Type 0} (n : Number V) (Share : Type 0) : Type 0 where
  pub owner_column : Bytes → List V
  pub local_shares : List V → Share
  pub remote_shares : Bytes → Share
  pub constant_shares : ℕ → V → Share
  pub mpc_add : Share → Share → Share
  pub mpc_add_const : V → Share → Share
  pub mpc_sub : Share → Share → Share
  pub mpc_sub_const : V → Share → Bool → Share
  pub mpc_dot_mul : Share → Share → Share
  pub mpc_mul_const : V → Share → Share
  pub mpc_div : Share → Share → Share
  pub reveal : Share → List V
  pub reveal-local : (xs : List V) → reveal (local_shares xs) ≡ xs
  pub reveal-remote : (s : Bytes) → reveal (remote_shares s) ≡ owner_column s
  pub reveal-add :
      (a b : Share) (zs : List V)
      → zip_columns n.plus (reveal a) (reveal b) ≡ some zs
      → reveal (mpc_add a b) ≡ zs
  pub reveal-add_const :
      (c : V) (a : Share) → reveal (mpc_add_const c a) ≡ map_column (n.plus c) (reveal a)
  pub reveal-sub :
      (a b : Share) (zs : List V)
      → zip_columns n.minus (reveal a) (reveal b) ≡ some zs
      → reveal (mpc_sub a b) ≡ zs
  pub reveal-sub_const :
      (c : V) (a : Share)
      → reveal (mpc_sub_const c a true) ≡ map_column (λ x. n.minus x c) (reveal a)
  pub reveal-const_sub :
      (c : V) (a : Share) → reveal (mpc_sub_const c a false) ≡ map_column (n.minus c) (reveal a)
  pub reveal-dot_mul :
      (a b : Share) (zs : List V)
      → zip_columns n.times (reveal a) (reveal b) ≡ some zs
      → reveal (mpc_dot_mul a b) ≡ zs
  pub reveal-mul_const :
      (c : V) (a : Share) → reveal (mpc_mul_const c a) ≡ map_column (n.times c) (reveal a)

module _ {V Share : Type 0} (n : Number V) (op : MpcOperator n Share) where
  open op use {
    local_shares, remote_shares, constant_shares, mpc_add, mpc_add_const, mpc_sub, mpc_sub_const,
    mpc_dot_mul, mpc_mul_const, mpc_div, reveal,
  }

  -- `createFP64Shares` and `createI64Shares`, or the share that is there; `none` for a constant, for
  -- which the pointer stays null.
  unfoldable pub share_of : TokenValue V Share → Option Share
  share_of (column xs) = some (local_shares xs)
  share_of (constant c) = none
  share_of (remote s) = some (remote_shares s)
  share_of (shared s) = some s

  -- Whether the type is 2 or 3.
  unfoldable pub constant_of : TokenValue V Share → Option V
  constant_of (constant c) = some c
  constant_of _ = none

  -- The three cases of an operator: no constant, one on the left, one on the right. `none`: a null
  -- pointer is read.
  unfoldable pub on_shares :
      (Share → Share → Share)
      → (V → Share → Share)
      → (V → Share → Share)
      → TokenValue V Share
      → TokenValue V Share
      → Option (TokenValue V Share)
  unfolding share_of constant_of
  on_shares both left right v w = elim (constant_of v) [
    | some c ↦ elim (share_of w) [ none ↦ none | some b ↦ some (shared (left c b)) ]
    | none ↦ elim (share_of v) [
      | none ↦ none
      | some a ↦ elim (constant_of w) [
        | some c ↦ some (shared (right c a))
        | none ↦ elim (share_of w) [ none ↦ none | some b ↦ some (shared (both a b)) ]
      ]
    ]
  ]

  -- `runMPCAddFP64`, `runMPCAddI64`, and so on. `val_count` is the number of values of a column.
  unfoldable pub mpc_calculate :
      ℕ → Operator → TokenValue V Share → TokenValue V Share → Option (TokenValue V Share)
  unfolding on_shares
  mpc_calculate val_count add v w = on_shares mpc_add mpc_add_const mpc_add_const v w
  mpc_calculate val_count sub v w =
      on_shares mpc_sub (λ c b. mpc_sub_const c b false) (λ c a. mpc_sub_const c a true) v w
  mpc_calculate val_count mul v w = on_shares mpc_dot_mul mpc_mul_const mpc_mul_const v w
  mpc_calculate val_count div v w =
      on_shares mpc_div (λ c b. mpc_div (constant_shares val_count c) b)
        (λ c a. mpc_mul_const (n.over n.one c) a) v w

  -- The numbers of values, `getColumnValuesCount`, that the three parties have, if they are the same. Each
  -- party gives its shares as many rows as it has values, and one without columns of its own has
  -- 2^32 - 1: if the numbers are not the same, the parties hold matrices of different sizes, which the
  -- library is not made for.
  unfoldable pub agreed_count : ℕ × ℕ × ℕ → Option ℕ
  agreed_count (a, b, c) = if nat_beq a b && nat_beq b c then some a else none

  -- `runMPCEvaluate` on the suffix form, then `revealMPCResult` of the final token to a party. `none`: a
  -- null pointer is read, or shares of different sizes are made.
  unfoldable pub run_mpc_evaluate :
      ℕ × ℕ × ℕ → (Bytes → Option (TokenValue V Share)) → List Bytes → Option (List V)
  unfolding agreed_count
  run_mpc_evaluate val_counts create suffix_stk = elim (agreed_count val_counts) [
    | none ↦ none
    | some val_count ↦
        elim (final_value create (mpc_calculate val_count)
          (evaluate create (mpc_calculate val_count) suffix_stk ([], [], []))) [
            | some (shared s) ↦ some (reveal s)
            | _ ↦ none
          ]
  ]
