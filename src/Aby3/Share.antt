-- ===== src/Aby3/Share.antt =====
-- src/primihub/operator/aby3_operator.cc: `MPC_Add_Const` and `MPC_Sub_Const` on the pair of shares that
-- each party holds.
use primihub.Prelude.{
  ℕ, ◌+◌, ◌-◌, ◌%◌, ◌^◌, ◌<◌, ◌≡◌, Bool, not, List, [], ◌∷◌, map, nat_beq, if◌then◌else◌, length,
  All,
}

-- `i64`, by its bits.
abbrev pub word_add : ℕ → ℕ → ℕ
word_add x y = (x + y) % 2 ^ 64

abbrev pub word_sub : ℕ → ℕ → ℕ
word_sub x y = (x + (2 ^ 64 - y)) % 2 ^ 64

abbrev pub word_neg : ℕ → ℕ
word_neg x = (2 ^ 64 - x) % 2 ^ 64

abbrev pub IsWord : ℕ → Type 0
IsWord x = x < 2 ^ 64

-- The entries of `si64Matrix::operator[]` at 0 and at 1, in the order of the loops. A party has its own
-- part of the secret at 0, and that of the party before it at 1.
abbrev Pair : Type 0
Pair = List ℕ × List ℕ

unfoldable pub mpc_add_const : ℕ → ℕ → Pair → Pair
mpc_add_const party_idx const_int (s0, s1) =
    if nat_beq party_idx 0
    then (map (λ x. word_add x const_int) s0, s1)
    else if nat_beq party_idx 1
    then (s0, map (λ x. word_add x const_int) s1)
    else (s0, s1)

abbrev pub negated : Pair → Pair
negated (s0, s1) = (map word_neg s0, map word_neg s1)

unfoldable pub mpc_sub_const : ℕ → ℕ → Bool → Pair → Pair
mpc_sub_const party_idx const_int mode (s0, s1) =
    let temp : Pair =
      if nat_beq party_idx 0
      then (map (λ x. word_sub x const_int) s0, s1)
      else if nat_beq party_idx 1
      then (s0, map (λ x. word_sub x const_int) s1)
      else (s0, s1) in
    if not mode then negated temp else temp

-- What the three parties hold.
abbrev pub Views : Type 0
Views = Pair × Pair × Pair

-- Each party runs the operation with its index.
abbrev pub at_all : (ℕ → Pair → Pair) → Views → Views
at_all f (a, b, c) = (f 0 a, f 1 b, f 2 c)

-- The second component of a party is the first of the party before it, all have one shape, and all
-- entries are words.
abbrev pub IsConsistent : Views → Type 0
IsConsistent ((a0, a1), (b0, b1), (c0, c1)) =
    (b1 ≡ a0)
    × (c1 ≡ b0)
    × (a1 ≡ c0)
    × (length b0 ≡ length a0)
    × (length c0 ≡ length a0)
    × All IsWord a0
    × All IsWord b0
    × All IsWord c0

unfoldable pub sum_columns : List ℕ → List ℕ → List ℕ → List ℕ
sum_columns (x ∷ xs) (y ∷ ys) (z ∷ zs) = word_add (word_add x y) z ∷ sum_columns xs ys zs
sum_columns _ _ _ = []

-- The values that are shared.
abbrev pub secret : Views → List ℕ
secret ((a0, a1), (b0, b1), (c0, c1)) = sum_columns a0 b0 c0
