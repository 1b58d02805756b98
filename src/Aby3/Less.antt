-- ===== src/Aby3/Less.antt =====
-- src/primihub/operator/aby3_operator.cc: that `MPC_Compare` tells which of two numbers is less, and
-- that its parties agree on what they refuse.
use primihub.Prelude.{
  ℕ, suc, ◌+◌, ◌*◌, ◌%◌, ◌^◌, ◌≤◌, ◌<◌, ◌≡◌, refl, ap, Bool, true, false, none, some, List, [], ◌∷◌,
  map, arith, ltb, leb, if◌then◌else◌, length, All,
}
use primihub.Aby3.Share.{IsWord, word_add, word_neg}
use primihub.Aby3.Compare.{
  compare_elements_absent, change_sign, shared_inputs, mpc_compare, compare_elements,
  evaluate_circuit, find_skip, agreed_shape, Shape, is_empty_shape, same_shape, agreed_elements,
}

-- The signed numbers of two words, moved up by 2^63 to compare them.
abbrev biased : ℕ → ℕ
biased x = (x + 2 ^ 63) % 2 ^ 64

abbrev pub less : ℕ → ℕ → Bool
less x y = ltb (biased x) (biased y)

-- Words whose difference, taken as signed numbers, is a signed number of 64 bits.
abbrev IsClose : ℕ → ℕ → Type 0
IsClose x y = IsWord x × IsWord y × (biased x < biased y + 2 ^ 63) × (biased y ≤ biased x + 2 ^ 63)

abbrev AreClose : List ℕ → List ℕ → Type 0
AreClose [] [] = Unit
AreClose (x ∷ xs) (y ∷ ys) = IsClose x y × AreClose xs ys
AreClose _ _ = ⊥

abbrev less_columns : List ℕ → List ℕ → List Bool
less_columns (x ∷ xs) (y ∷ ys) = less x y ∷ less_columns xs ys
less_columns _ _ = []

-- The party that gives no values, and its index.
pub data Third : Type 0 where
  third0 third1 third2 : Third

abbrev index_of : Third → ℕ
index_of third0 = 0
index_of third1 = 1
index_of third2 = 2

-- An operation on what the three parties have, where the other two have `a` and `b`.
abbrev with_third : {A B : Type 0} → (A → A → A → B) → Third → A → A → A → B
with_third f third0 absent a b = f absent a b
with_third f third1 absent a b = f a absent b
with_third f third2 absent a b = f a b absent

sign_bit-less : (x y : ℕ) → IsClose x y → leb (2 ^ 63) (word_add x (word_neg y)) ≡ less x y
sign_bit-less x y h = ground (arith, h.0, h.1, h.2, h.3)

-- The circuit: the topmost bit of the sum.
abbrev IsMsb : (ℕ → ℕ → Bool) → Type 0
IsMsb msb = (x y : ℕ) → IsWord x → IsWord y → msb x y ≡ leb (2 ^ 63) (word_add x y)

evaluate_circuit-less :
    (msb : ℕ → ℕ → Bool) (xs ys : List ℕ)
    → IsMsb msb
    → AreClose xs ys
    → evaluate_circuit msb xs (map word_neg ys) ≡ less_columns xs ys
unfolding evaluate_circuit
evaluate_circuit-less msb [] [] h k = refl
evaluate_circuit-less msb (x ∷ xs) (y ∷ ys) h k = cc (
  h x (word_neg y) k.0.0 (omega arith),
  sign_bit-less x y k.0,
  evaluate_circuit-less msb xs ys h k.1,
)
evaluate_circuit-less msb [] (y ∷ ys) h k = absurd k
evaluate_circuit-less msb (x ∷ xs) [] h k = absurd k

same_shape_refl : (s : Shape) → same_shape s s ≡ true
same_shape_refl (r, c) = ground arith

map_neg_twice : (m : List ℕ) → All IsWord m → map word_neg (map word_neg m) ≡ m
map_neg_twice [] h = refl
map_neg_twice (x ∷ m) h =
    let e : word_neg (word_neg x) ≡ x = omega (arith, h.0) in cc (e, map_neg_twice m h.1)

compare_elements-third :
    (p : Third) (a b : Shape)
    → is_empty_shape a ≡ false
    → is_empty_shape b ≡ false
    → with_third compare_elements p (0, 0) a b
      ≡ (if same_shape a b then some (index_of p, a.0 * a.1 % 2 ^ 64) else none)
unfolding compare_elements find_skip agreed_shape
compare_elements-third third0 a b ha hb = ground (arith, ha, hb)
compare_elements-third third1 a b ha hb = ground (arith, ha, hb)
compare_elements-third third2 a b ha hb = ground (arith, ha, hb)

absent-third :
    (p : Third) (a b : Shape)
    → with_third (compare_elements_absent (index_of p)) p (0, 0) a b
      ≡ (if same_shape a b then some (a.0 * a.1 % 2 ^ 32) else none)
unfolding compare_elements_absent agreed_shape
absent-third third0 a b = ground arith
absent-third third1 a b = ground arith
absent-third third2 a b = ground arith

-- Whichever party has no matrix: the parties with one, if none of theirs has neither rows nor columns,
-- and the party without one refuse the same shapes, those that are not the same, and else go on with
-- the same number of elements if there are fewer than 2^32 of them. Beyond, they do so only modulo 2^32.
compare_elements-compare_elements_absent :
    (p : Third) (a b : Shape)
    → is_empty_shape a ≡ false
    → is_empty_shape b ≡ false
    → (with_third compare_elements p (0, 0) a b
        ≡ (if same_shape a b then some (index_of p, a.0 * a.1 % 2 ^ 64) else none))
      × (with_third (compare_elements_absent (index_of p)) p (0, 0) a b
          ≡ (if same_shape a b then some (a.0 * a.1 % 2 ^ 32) else none))
compare_elements-compare_elements_absent p a b ha hb =
    (compare_elements-third p a b ha hb, absent-third p a b)

length-map_neg : (m : List ℕ) → length (map word_neg m) ≡ length m
length-map_neg [] = refl
length-map_neg (x ∷ m) = ap suc (length-map_neg m)

AreClose-length : (xs ys : List ℕ) → AreClose xs ys → length xs ≡ length ys
AreClose-length [] [] h = refl
AreClose-length (x ∷ xs) (y ∷ ys) h = ap suc (AreClose-length xs ys h.1)
AreClose-length [] (y ∷ ys) h = absurd h
AreClose-length (x ∷ xs) [] h = absurd h

-- The three parties have the same number of elements, if there are fewer than 2^32.
agreed_elements-fits :
    (k : ℕ) (xs ys : List ℕ)
    → length xs ≡ k
    → AreClose xs ys
    → k < 2 ^ 32
    → agreed_elements (k % 2 ^ 64) (some (k % 2 ^ 32)) xs (map word_neg ys) ≡ some k
unfolding agreed_elements
agreed_elements-fits k xs ys e c h =
    let p : k % 2 ^ 64 ≡ k = omega arith in
    let q : k % 2 ^ 32 ≡ k = omega arith in
    rw (p, q) (ground (arith, e, length-map_neg ys, AreClose-length xs ys c))

-- With the circuit for the topmost bit of a sum, whichever party gives no values: if the other two have
-- matrices of one shape, with fewer than 2^32 elements, and each difference of their numbers is a signed
-- number of 64 bits, then the run yields for each place whether the number of the first of the two is
-- less than that of the second.
pub mpc_compare-less :
    (msb : ℕ → ℕ → Bool) (p : Third) (s : Shape) (xs ys : List ℕ)
    → IsMsb msb
    → is_empty_shape s ≡ false
    → length xs ≡ s.0 * s.1
    → s.0 * s.1 < 2 ^ 32
    → AreClose xs ys
    → with_third (mpc_compare msb) p ((0, 0), []) (s, xs) (s, ys) ≡ some (less_columns xs ys)
unfolding mpc_compare shared_inputs change_sign
mpc_compare-less msb third0 s xs ys h e l b k = ground (
  arith,
  compare_elements-third third0 s s e e,
  absent-third third0 s s,
  same_shape_refl s,
  agreed_elements-fits (s.0 * s.1) xs ys l k b,
  evaluate_circuit-less msb xs ys h k,
)
mpc_compare-less msb third1 s xs ys h e l b k = ground (
  arith,
  compare_elements-third third1 s s e e,
  absent-third third1 s s,
  same_shape_refl s,
  agreed_elements-fits (s.0 * s.1) xs ys l k b,
  evaluate_circuit-less msb xs ys h k,
)
mpc_compare-less msb third2 s xs ys h e l b k = ground (
  arith,
  compare_elements-third third2 s s e e,
  absent-third third2 s s,
  same_shape_refl s,
  agreed_elements-fits (s.0 * s.1) xs ys l k b,
  evaluate_circuit-less msb xs ys h k,
)

-- Changing the sign twice restores a matrix of words.
change_sign_involutive :
    (skip_index party_idx : ℕ) (m : List ℕ)
    → All IsWord m
    → change_sign skip_index party_idx (change_sign skip_index party_idx m) ≡ m
unfolding change_sign
change_sign_involutive skip_index party_idx m h = ground (arith, map_neg_twice m h)
