-- ===== src/Aby3/Constants.antt =====
-- src/primihub/operator/aby3_operator.cc: the operations with a constant keep the views consistent and
-- do to the secret what they say.
use primihub.Prelude.{
  ℕ, ◌≡◌, refl, sym, ap, ◌∙◌, Bool, true, false, List, [], ◌∷◌, map, arith, if◌then◌else◌, All,
  length-map,
}
use primihub.Aby3.Share.{
  word_add, word_sub, word_neg, IsWord, mpc_add_const, negated, Views, at_all, IsConsistent,
  sum_columns, secret, mpc_sub_const,
}

map-All : (f : ℕ → ℕ) (xs : List ℕ) → ((x : ℕ) → IsWord (f x)) → All IsWord (map f xs)
map-All f [] h = tt
map-All f (x ∷ xs) h = (h x, map-All f xs h)

word_add-shift :
    (c x y z : ℕ) → word_add (word_add (word_add x c) y) z ≡ word_add (word_add (word_add x y) z) c
word_add-shift c x y z = omega (arith)

word_sub-shift :
    (c x y z : ℕ) → word_add (word_add (word_sub x c) y) z ≡ word_sub (word_add (word_add x y) z) c
word_sub-shift c x y z = omega (arith)

word_neg-sum :
    (x y z : ℕ)
    → IsWord x
    → IsWord y
    → IsWord z
    → word_add (word_add (word_neg x) (word_neg y)) (word_neg z)
      ≡ word_neg (word_add (word_add x y) z)
word_neg-sum x y z hx hy hz = omega (arith, hx, hy, hz)

-- What adds to one part adds to the sum.
sum_columns-first :
    (f : ℕ → ℕ) (xs ys zs : List ℕ)
    → ((x y z : ℕ) → word_add (word_add (f x) y) z ≡ f (word_add (word_add x y) z))
    → sum_columns (map f xs) ys zs ≡ map f (sum_columns xs ys zs)
unfolding sum_columns
sum_columns-first f [] ys zs h = refl
sum_columns-first f (x ∷ xs) [] zs h = refl
sum_columns-first f (x ∷ xs) (y ∷ ys) [] h = refl
sum_columns-first f (x ∷ xs) (y ∷ ys) (z ∷ zs) h = cc (h x y z, sum_columns-first f xs ys zs h)

sum_columns-neg :
    (xs ys zs : List ℕ)
    → All IsWord xs
    → All IsWord ys
    → All IsWord zs
    → sum_columns (map word_neg xs) (map word_neg ys) (map word_neg zs)
      ≡ map word_neg (sum_columns xs ys zs)
unfolding sum_columns
sum_columns-neg [] ys zs a b c = refl
sum_columns-neg (x ∷ xs) [] zs a b c = refl
sum_columns-neg (x ∷ xs) (y ∷ ys) [] a b c = refl
sum_columns-neg (x ∷ xs) (y ∷ ys) (z ∷ zs) a b c =
    cc (word_neg-sum x y z a.0 b.0 c.0, sum_columns-neg xs ys zs a.1 b.1 c.1)

-- `f` is applied to the first part, where two parties have it.
first-IsConsistent :
    (f : ℕ → ℕ) (a0 a1 b0 b1 c0 c1 : List ℕ)
    → ((x : ℕ) → IsWord (f x))
    → IsConsistent ((a0, a1), (b0, b1), (c0, c1))
    → IsConsistent ((map f a0, a1), (b0, map f b1), (c0, c1))
first-IsConsistent f a0 a1 b0 b1 c0 c1 h k = (
  ap (map f) k.0,
  k.1,
  k.2,
  k.3 ∙ sym (length-map f a0),
  k.4 ∙ sym (length-map f a0),
  map-All f a0 h,
  k.6,
  k.7,
)

negated-IsConsistent :
    (a0 a1 b0 b1 c0 c1 : List ℕ)
    → IsConsistent ((a0, a1), (b0, b1), (c0, c1))
    → IsConsistent (negated (a0, a1), negated (b0, b1), negated (c0, c1))
negated-IsConsistent a0 a1 b0 b1 c0 c1 k = (
  ap (map word_neg) k.0,
  ap (map word_neg) k.1,
  ap (map word_neg) k.2,
  omega (arith, length-map word_neg a0, length-map word_neg b0, k.3),
  omega (arith, length-map word_neg a0, length-map word_neg c0, k.4),
  map-All word_neg a0 (λ x. omega arith),
  map-All word_neg b0 (λ x. omega arith),
  map-All word_neg c0 (λ x. omega arith),
)

map-compose :
    (f g h : ℕ → ℕ) (xs : List ℕ)
    → All IsWord xs
    → ((x : ℕ) → IsWord x → f (g x) ≡ h x)
    → map f (map g xs) ≡ map h xs
map-compose f g h [] w e = refl
map-compose f g h (x ∷ xs) w e = cc (e x w.0, map-compose f g h xs w.1 e)

pub sum_columns-IsWord : (xs ys zs : List ℕ) → All IsWord (sum_columns xs ys zs)
unfolding sum_columns
sum_columns-IsWord [] ys zs = tt
sum_columns-IsWord (x ∷ xs) [] zs = tt
sum_columns-IsWord (x ∷ xs) (y ∷ ys) [] = tt
sum_columns-IsWord (x ∷ xs) (y ∷ ys) (z ∷ zs) = (omega arith, sum_columns-IsWord xs ys zs)

word_neg-word_sub : (c x : ℕ) → IsWord c → IsWord x → word_neg (word_sub x c) ≡ word_sub c x
word_neg-word_sub c x h k = omega (arith, h, k)

mpc_add_const-secret :
    (const_int : ℕ) (v : Views)
    → IsConsistent v
    → IsConsistent (at_all (λ i. mpc_add_const i const_int) v)
      × (secret (at_all (λ i. mpc_add_const i const_int) v)
          ≡ map (λ x. word_add x const_int) (secret v))
unfolding mpc_add_const
mpc_add_const-secret c ((a0, a1), (b0, b1), (c0, c1)) k = (
  first-IsConsistent (λ x. word_add x c) a0 a1 b0 b1 c0 c1 (λ x. omega arith) k,
  sum_columns-first (λ x. word_add x c) a0 b0 c0 (word_add-shift c),
)

sub_const-true :
    (const_int : ℕ) (v : Views)
    → IsConsistent v
    → IsConsistent (at_all (λ i. mpc_sub_const i const_int true) v)
      × (secret (at_all (λ i. mpc_sub_const i const_int true) v)
          ≡ map (λ x. word_sub x const_int) (secret v))
unfolding mpc_sub_const
sub_const-true c ((a0, a1), (b0, b1), (c0, c1)) k = (
  first-IsConsistent (λ x. word_sub x c) a0 a1 b0 b1 c0 c1 (λ x. omega arith) k,
  sum_columns-first (λ x. word_sub x c) a0 b0 c0 (word_sub-shift c),
)

sub_const-false :
    (const_int : ℕ) (v : Views)
    → IsWord const_int
    → IsConsistent v
    → IsConsistent (at_all (λ i. mpc_sub_const i const_int false) v)
      × (secret (at_all (λ i. mpc_sub_const i const_int false) v)
          ≡ map (λ x. word_sub const_int x) (secret v))
unfolding mpc_sub_const
sub_const-false c ((a0, a1), (b0, b1), (c0, c1)) w k =
    let f : ℕ → ℕ = λ x. word_sub x c in
    let k2 = first-IsConsistent f a0 a1 b0 b1 c0 c1 (λ x. omega arith) k in
    (
      negated-IsConsistent (map f a0) a1 b0 (map f b1) c0 c1 k2,
      sum_columns-neg (map f a0) b0 c0 k2.5 k2.6 k2.7
          ∙ ap (map word_neg) (sum_columns-first f a0 b0 c0 (word_sub-shift c))
          ∙ map-compose word_neg f (λ x. word_sub c x) (sum_columns a0 b0 c0)
              (sum_columns-IsWord a0 b0 c0) (λ x h. word_neg-word_sub c x w h),
    )

mpc_sub_const-secret :
    (const_int : ℕ) (mode : Bool) (v : Views)
    → IsWord const_int
    → IsConsistent v
    → IsConsistent (at_all (λ i. mpc_sub_const i const_int mode) v)
      × (secret (at_all (λ i. mpc_sub_const i const_int mode) v)
          ≡ map (λ x. if mode then word_sub x const_int else word_sub const_int x) (secret v))
mpc_sub_const-secret c true v w k = sub_const-true c v k
mpc_sub_const-secret c false v w k = sub_const-false c v w k

-- `MPC_Add_Const`, and `MPC_Sub_Const` in each mode, at each of the three parties, on consistent views
-- and for a word: the views stay consistent, and each value of the secret becomes, modulo 2^64, itself
-- plus the constant; itself less the constant with the mode `true`; and the constant less itself with
-- the mode `false`.
pub secret-constants :
    (const_int : ℕ) (mode : Bool) (v : Views)
    → IsWord const_int
    → IsConsistent v
    → IsConsistent (at_all (λ i. mpc_add_const i const_int) v)
      × (secret (at_all (λ i. mpc_add_const i const_int) v)
          ≡ map (λ x. word_add x const_int) (secret v))
      × IsConsistent (at_all (λ i. mpc_sub_const i const_int mode) v)
      × (secret (at_all (λ i. mpc_sub_const i const_int mode) v)
          ≡ map (λ x. if mode then word_sub x const_int else word_sub const_int x) (secret v))
secret-constants c mode v w k =
    let (a, b) = mpc_add_const-secret c v k in
    let (d, e) = mpc_sub_const-secret c mode v w k in (a, b, d, e)
