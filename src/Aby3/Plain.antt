-- ===== src/Aby3/Plain.antt =====
-- For src/primihub/operator/aby3_operator.cc: a library whose shares of a column are the column itself
-- and two columns of zeros, which shows that what is asked of the library can hold.
use primihub.Prelude.{
  ℕ, zero, suc, ◌+◌, ◌*◌, ◌%◌, ◌^◌, ◌≡◌, refl, sym, ap, ◌∙◌, Option, none, some, List, [], ◌∷◌, map,
  arith, Bytes, length, All, replicate, length-replicate, length-map,
}
use native.Mathlib.Fin.{val_path}
use primihub.Express.Value.{zip_columns, map_column}
use primihub.Aby3.Share.{IsWord, sum_columns, word_sub}
use primihub.Aby3.Operator.{Word, word, Shared, revealed}
use primihub.Aby3.Library.{Library}

abbrev values : List Word → List ℕ
values xs = map (λ x. x.0) xs

values-IsWord : (xs : List Word) → All IsWord (values xs)
values-IsWord [] = tt
values-IsWord (x ∷ xs) = (x.1, values-IsWord xs)

abbrev zeros : ℕ → List ℕ
zeros n = replicate n 0

zeros-IsWord : (n : ℕ) → All IsWord (zeros n)
zeros-IsWord zero = tt
zeros-IsWord (suc n) = (omega arith, zeros-IsWord n)

zeros-length : (xs : List Word) → length (zeros (length xs)) ≡ length (values xs)
zeros-length xs = length-replicate (length xs) 0 ∙ sym (length-map (λ x. x.0) xs)

pub plain_shares : List Word → Shared
plain_shares xs =
    let none_of : List ℕ = zeros (length xs) in
    (
      ((values xs, none_of), (none_of, values xs), (none_of, none_of)),
      (
        refl,
        refl,
        refl,
        zeros-length xs,
        zeros-length xs,
        values-IsWord xs,
        zeros-IsWord (length xs),
        zeros-IsWord (length xs),
      ),
    )

pub revealed-plain : (xs : List Word) → revealed (plain_shares xs) ≡ xs
unfolding plain_shares sum_columns
revealed-plain [] = refl
revealed-plain (x ∷ xs) =
    let here : word (((x.0 + 0) % 2 ^ 64 + 0) % 2 ^ 64) ≡ x = val_path (omega (arith, x.1)) in
    cc (here, revealed-plain xs)

abbrev or_empty : Option (List Word) → Shared
or_empty none = plain_shares []
or_empty (some zs) = plain_shares zs

abbrev zipped : (Word → Word → Word) → Shared → Shared → Shared
zipped f a b = or_empty (zip_columns f (revealed a) (revealed b))

pub zipped-revealed :
    (f : Word → Word → Word) (a b : Shared) (zs : List Word)
    → zip_columns f (revealed a) (revealed b) ≡ some zs
    → revealed (zipped f a b) ≡ zs
zipped-revealed f a b zs h = ap (λ o. revealed (or_empty o)) h ∙ revealed-plain zs

-- The other party has 3 and 4.
abbrev column_b : Bytes → List Word
column_b s = word 3 ∷ word 4 ∷ []

abbrev pub plain_library : (over : Word → Word → Word) → Library over
plain_library over = record {
  owner_column = column_b;
  local_int_matrix = plain_shares;
  remote_int_matrix = λ s. plain_shares (column_b s);
  plus_shares = zipped (λ x y. word (x.0 + y.0));
  minus_shares = zipped (λ x y. word (word_sub x.0 y.0));
  dot_mul = zipped (λ x y. word (x.0 * y.0));
  const_mul = λ c a. plain_shares (map_column (λ x. word (c.0 * x.0)) (revealed a));
  quotient = zipped over;
  revealed-local = revealed-plain;
  revealed-remote = λ s. revealed-plain (column_b s);
  revealed-plus = zipped-revealed (λ x y. word (x.0 + y.0));
  revealed-minus = zipped-revealed (λ x y. word (word_sub x.0 y.0));
  revealed-dot_mul = zipped-revealed (λ x y. word (x.0 * y.0));
  revealed-const_mul = λ c a. revealed-plain (map_column (λ x. word (c.0 * x.0)) (revealed a));
}
