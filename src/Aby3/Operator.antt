-- ===== src/Aby3/Operator.antt =====
-- src/primihub/operator/aby3_operator.cc: `MPCOperator` as the executor of expressions uses it, on top
-- of the aby3 library.
use primihub.Prelude.{
  ℕ, ◌+◌, ◌*◌, ◌%◌, ◌^◌, ◌≡◌, refl, ap, ◌∙◌, Bool, true, false, List, [], ◌∷◌, map, arith, All,
}
use Prim.Native.Nat.{Fin}
use native.Mathlib.Nat.{mul_comm, mod-lt}
use native.Mathlib.Fin.{val_path}
use primihub.Express.Value.{Number, map_column}
use primihub.Aby3.Share.{
  Views, IsConsistent, IsWord, at_all, secret, word_add, word_sub, mpc_add_const, mpc_sub_const,
}
use primihub.Aby3.Constants.{secret-constants, sum_columns-IsWord}

abbrev pub Word : Type 0
Word = Fin (2 ^ 64)

abbrev pub word : ℕ → Word
word n = (n % 2 ^ 64, mod-lt n (omega arith))

pub word_plus_comm : (x y : Word) → word (x.0 + y.0) ≡ word (y.0 + x.0)
word_plus_comm x y = val_path (omega arith)

pub word_times_comm : (x y : Word) → word (x.0 * y.0) ≡ word (y.0 * x.0)
word_times_comm x y = val_path (ap (λ n. n % 2 ^ 64) (mul_comm x.0 y.0))

-- `i64`; the division is the library's.
abbrev pub machine_words : (Word → Word → Word) → Number Word
machine_words over = record {
  plus = λ x y. word (x.0 + y.0);
  minus = λ x y. word (word_sub x.0 y.0);
  times = λ x y. word (x.0 * y.0);
  over = over;
  one = word 1;
  plus_comm = word_plus_comm;
  times_comm = word_times_comm;
}

-- The shares of the three parties, which belong together.
abbrev pub Shared : Type 0
Shared = (v : Views) × IsConsistent v

abbrev pub revealed : Shared → List Word
revealed s = map word (secret s.0)

map_column-map :
    (f : ℕ → ℕ) (g : Word → Word) (xs : List ℕ)
    → All IsWord xs
    → ((x : ℕ) → IsWord x → word (f x) ≡ g (word x))
    → map word (map f xs) ≡ map_column g (map word xs)
unfolding map_column
map_column-map f g [] h e = refl
map_column-map f g (x ∷ xs) h e = cc (e x h.0, map_column-map f g xs h.1 e)

secret-IsWord : (v : Views) → All IsWord (secret v)
secret-IsWord ((a0, a1), (b0, b1), (c0, c1)) = sum_columns-IsWord a0 b0 c0

-- `MPC_Add_Const` and `MPC_Sub_Const`, run by the three parties.
unfoldable pub add_const : Word → Shared → Shared
add_const c (v, h) = (at_all (λ i. mpc_add_const i c.0) v, (secret-constants c.0 true v c.1 h).0)

unfoldable pub sub_const : Word → Shared → Bool → Shared
sub_const c (v, h) mode =
    (at_all (λ i. mpc_sub_const i c.0 mode) v, (secret-constants c.0 mode v c.1 h).2)

pub revealed-add_const :
    (c : Word) (s : Shared)
    → revealed (add_const c s) ≡ map_column (λ x. word (c.0 + x.0)) (revealed s)
unfolding add_const
revealed-add_const c (v, h) =
    ap (map word) (secret-constants c.0 true v c.1 h).1
    ∙ map_column-map (λ x. word_add x c.0) (λ x. word (c.0 + x.0)) (secret v) (secret-IsWord v)
        (λ x w. val_path (omega (arith, w)))

pub revealed-sub_const :
    (c : Word) (s : Shared)
    → revealed (sub_const c s true) ≡ map_column (λ x. word (word_sub x.0 c.0)) (revealed s)
unfolding sub_const
revealed-sub_const c (v, h) =
    ap (map word) (secret-constants c.0 true v c.1 h).3
    ∙ map_column-map (λ x. word_sub x c.0) (λ x. word (word_sub x.0 c.0)) (secret v)
        (secret-IsWord v) (λ x w. val_path (omega (arith, w, c.1)))

pub revealed-const_sub :
    (c : Word) (s : Shared)
    → revealed (sub_const c s false) ≡ map_column (λ x. word (word_sub c.0 x.0)) (revealed s)
unfolding sub_const
revealed-const_sub c (v, h) =
    ap (map word) (secret-constants c.0 false v c.1 h).3
    ∙ map_column-map (λ x. word_sub c.0 x) (λ x. word (word_sub c.0 x.0)) (secret v)
        (secret-IsWord v) (λ x w. val_path (omega (arith, w, c.1)))
