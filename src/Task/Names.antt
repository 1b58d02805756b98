-- ===== src/Task/Names.antt =====
-- src/primihub/task/language/parser.cc: the order of the names in a `std::map`, and what such a map is.
use primihub.Prelude.{
  ◌==◌, ◌≡◌, refl, inl, inr, true, false, Option, none, some, [], ◌∷◌, arith, if◌then◌else◌,
  Bool-cases, Bytes, ==_iff, ==_refl,
}
use primihub.Task.{less, put_new}
use primihub.Prelude.Dict.{Dict, lookup}

less_irrefl : (a : Bytes) → less a a ≡ false
unfolding less
less_irrefl [] = refl
less_irrefl (x ∷ a) = ground (arith, less_irrefl a)

less_trans : (a b c : Bytes) → less a b ≡ true → less b c ≡ true → less a c ≡ true
unfolding less
less_trans [] [] c h k = cc
less_trans (x ∷ a) [] c h k = cc
less_trans [] (y ∷ b) [] h k = cc
less_trans [] (y ∷ b) (z ∷ c) h k = refl
less_trans (x ∷ a) (y ∷ b) [] h k = cc
less_trans (x ∷ a) (y ∷ b) (z ∷ c) h k = ground (arith, less_trans a b c)

less_total : (a b : Bytes) → (a == b) ≡ false → less a b ≡ false → less b a ≡ true
unfolding less ◌==◌
less_total [] [] h k = cc
less_total (x ∷ a) [] h k = refl
less_total [] (y ∷ b) h k = cc
less_total (x ∷ a) (y ∷ b) h k = ground (arith, less_total a b)

ne_of_less : (a b : Bytes) → less a b ≡ true → (a == b) ≡ false
ne_of_less a b h = elim (Bool-cases (a == b)) [
  | inl e ↦ absurd (ground (arith, h, less_irrefl a, ==_iff a b, e))
  | inr e ↦ e
]

-- The first, or else the second.
abbrev pub or_else {ℓ} : {A : Type ℓ} → Option A → Option A → Option A
or_else (some a) b = some a
or_else none b = b

pub or_else-none {ℓ} : {A : Type ℓ} (o : Option A) → or_else o none ≡ o
or_else-none none = refl
or_else-none (some a) = refl

module _ {ℓ} {V : Type ℓ} where
  abbrev pub IsBelow : Bytes → Dict V → Type 0
  IsBelow k [] = Unit
  IsBelow k ((j, w) ∷ m) = (less k j ≡ true) × IsBelow k m

  -- The entries stand in the order of their keys, each key once.
  abbrev pub IsSorted : Dict V → Type 0
  IsSorted [] = Unit
  IsSorted ((k, v) ∷ m) = IsBelow k m × IsSorted m

  IsBelow-trans : (k j : Bytes) (m : Dict V) → less k j ≡ true → IsBelow j m → IsBelow k m
  IsBelow-trans k j [] h b = tt
  IsBelow-trans k j ((i, w) ∷ m) h b = (less_trans k j i h b.0, IsBelow-trans k j m h b.1)

  lookup_below : (k : Bytes) (m : Dict V) → IsBelow k m → lookup k m ≡ none
  unfolding lookup
  lookup_below k [] b = refl
  lookup_below k ((j, w) ∷ m) b = ground (arith, ne_of_less k j b.0, lookup_below k m b.1)

  IsBelow-put_new :
      (i k : Bytes) (v : V) (m : Dict V) → less i k ≡ true → IsBelow i m → IsBelow i (put_new k v m)
  unfolding put_new
  IsBelow-put_new i k v [] h b = (h, tt)
  IsBelow-put_new i k v ((j, w) ∷ m) h b = elim (Bool-cases (k == j)) [
    | inl e ↦ rw e b
    | inr e ↦ elim (Bool-cases (less k j)) [
      | inl l ↦ rw (e, l) (h, b)
      | inr l ↦ rw (e, l) (b.0, IsBelow-put_new i k v m h b.1)
    ]
  ]

  pub put_new-IsSorted : (k : Bytes) (v : V) (m : Dict V) → IsSorted m → IsSorted (put_new k v m)
  unfolding put_new
  put_new-IsSorted k v [] s = (tt, tt)
  put_new-IsSorted k v ((j, w) ∷ m) s = elim (Bool-cases (k == j)) [
    | inl e ↦ rw e s
    | inr e ↦ elim (Bool-cases (less k j)) [
      | inl l ↦ rw (e, l) ((l, IsBelow-trans k j m l s.0), s)
      | inr l ↦
          rw (e, l) (IsBelow-put_new j k v m (less_total k j e l) s.0, put_new-IsSorted k v m s.1)
    ]
  ]

  -- A value is stored if there is none.
  pub lookup-put_new :
      (k j : Bytes) (v : V) (m : Dict V)
      → IsSorted m
      → lookup j (put_new k v m) ≡ or_else (lookup j m) (if j == k then some v else none)
  unfolding put_new lookup
  lookup-put_new k j v [] s = refl
  lookup-put_new k j v ((i, w) ∷ m) s = elim (Bool-cases (k == i)) [
    | inl e ↦ ground (arith, e, ==_iff k i, ==_iff j i, ==_iff j k, or_else-none (lookup j m))
    | inr e ↦ elim (Bool-cases (less k i)) [
      | inl l ↦
          let b : IsBelow k m = IsBelow-trans k i m l s.0 in
          ground (
            arith,
            e,
            l,
            ==_iff k i,
            ==_iff j i,
            ==_iff j k,
            lookup_below k m b,
            or_else-none (lookup j m),
          )
      | inr l ↦ ground (arith, e, l, ==_iff k i, ==_iff j i, ==_iff j k, lookup-put_new k j v m s.1)
    ]
  ]

  sorted_tails :
      (k j i : Bytes) (v w : V) (m n : Dict V)
      → IsSorted ((k, v) ∷ m)
      → IsSorted ((j, w) ∷ n)
      → k ≡ j
      → lookup i ((k, v) ∷ m) ≡ lookup i ((j, w) ∷ n)
      → lookup i m ≡ lookup i n
  unfolding lookup
  sorted_tails k j i v w m n s t e h = elim (Bool-cases (i == k)) [
    | inl q ↦ ground (arith, ==_iff i k, q, e, lookup_below k m s.0, lookup_below j n t.0)
    | inr q ↦ ground (arith, q, e, h, ==_iff i k, ==_iff i j)
  ]

  -- Such a map is what its lookups say.
  pub sorted_ext :
      (m n : Dict V) → IsSorted m → IsSorted n → ((k : Bytes) → lookup k m ≡ lookup k n) → m ≡ n
  unfolding lookup
  sorted_ext [] [] s t h = refl
  sorted_ext [] ((k, v) ∷ n) s t h = absurd (ground (arith, h k, ==_refl k))
  sorted_ext ((k, v) ∷ m) [] s t h = absurd (ground (arith, h k, ==_refl k))
  sorted_ext ((k, v) ∷ m) ((j, w) ∷ n) s t h = elim (Bool-cases (k == j)) [
    | inl e ↦
        let same : k ≡ j = (==_iff k j).0 e in
        let first : v ≡ w = ground (arith, h k, ==_refl k, e) in
        let rest : m ≡ n =
          sorted_ext m n s.1 t.1 (λ i. sorted_tails k j i v w m n s t same (h i)) in
        cc (same, first, rest)
    | inr e ↦ elim (Bool-cases (less k j)) [
      | inl l ↦
          absurd (ground (arith, h k, ==_refl k, e, lookup_below k n (IsBelow-trans k j n l t.0)))
      | inr l ↦
          let g : less j k ≡ true = less_total k j e l in
          absurd (
            ground (
              arith,
              h j,
              ==_refl j,
              ne_of_less j k g,
              lookup_below j m (IsBelow-trans j k m g s.0),
            ))
    ]
  ]
