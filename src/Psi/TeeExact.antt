-- ===== src/Psi/TeeExact.antt =====
-- src/primihub/kernel/psi/operator/tee_psi.cc: what the receiver of the result gets.
use primihub.Prelude.{
  ◌==◌, ℕ, suc, ◌*◌, ◌/◌, ◌<◌, ◌≡◌, refl, sym, ap, subst, ◌∙◌, inl, inr, true, false, Option, none,
  some, List, [], ◌∷◌, ◌++◌, arith, if◌then◌else◌, Bool-cases, Option-cases, Bytes, ==_iff, ==_refl,
  has, length, take, drop, length-append, take-append_length, drop-append_length, All, success,
}
use primihub.Psi.Tee.{hash_loop, intersect_loop, hash_data, tee_intersection, finish_provider}
use primihub.Prelude.Dict.{Dict, lookup, assign, insert, insert_there, lookup-insert}
use native.Mathlib.Nat.{mul-div_left}
use primihub.Psi.Ecdh.{done, Step}

-- The texts of a list that are also in another.
unfoldable pub only_in : List Bytes → List Bytes → List Bytes
only_in xs [] = []
only_in xs (z ∷ zs) = let rest = only_in xs zs in if has z xs then z ∷ rest else rest

abbrev pub hashes : (Bytes → Bytes) → List Bytes → Bytes
hashes hash [] = []
hashes hash (z ∷ zs) = hash z ++ hashes hash zs

lookup-insert_other :
    (k j v : Bytes) (t : Dict Bytes) → (j == k) ≡ false → lookup j (insert k v t) ≡ lookup j t
lookup-insert_other k j v t h = elim (Option-cases (lookup k t)) [
  | inl e ↦ ground (arith, lookup-insert k j v t e, h)
  | inr (w, e) ↦ ap (lookup j) (insert_there k v w t e)
]

finish_case :
    (v : Bytes) (t : Dict Bytes)
    → 0 < length v
    → ◌≡◌ {A = Step (List Bytes)}
        (elim v [ [] ↦ done [] | b ∷ s ↦ tee_intersection (b ∷ s) t ])
        (tee_intersection v t)
finish_case [] t h = absurd (omega arith)
finish_case (b ∷ s) t h = refl

module _ (hash : Bytes → Bytes) (w : ℕ) where
  -- The two have the same hash only if they are the same.
  abbrev Apart : Bytes → Bytes → Type 0
  Apart z x = (hash z == hash x) ≡ (z == x)

  -- An item that has been seen is under its hash.
  abbrev IsStored : Bytes → List Bytes → Dict Bytes → Type 0
  IsStored z dup t = lookup (hash z) t ≡ (if has z dup then some z else none)

  insert-IsStored :
      (z x : Bytes) (dup : List Bytes) (t : Dict Bytes)
      → Apart z x
      → has x dup ≡ false
      → IsStored z dup t
      → IsStored z (x ∷ dup) (insert (hash x) x t)
  insert-IsStored z x dup t a f h = elim (Bool-cases (z == x)) [
    | inl e ↦
        let q : z ≡ x = (==_iff z x).0 e in
        let n : lookup (hash x) t ≡ none = ground (arith, h, q, f) in
        ground (arith, e, q, lookup-insert (hash x) (hash z) x t n, a)
    | inr e ↦ ground (arith, e, a, h, lookup-insert_other (hash x) (hash z) x t)
  ]

  hash_loop-IsStored :
      (z : Bytes) (input dup : List Bytes) (t : Dict Bytes)
      → All (Apart z) input
      → IsStored z dup t
      → lookup (hash z) (hash_loop hash dup input t)
        ≡ (if has z dup then some z else if has z input then some z else none)
  unfolding hash_loop
  hash_loop-IsStored z [] dup t a h = h
  hash_loop-IsStored z (x ∷ r) dup t a h = elim (Bool-cases (has x dup)) [
    | inl e ↦ ground (arith, e, hash_loop-IsStored z r dup t a.1 h, ==_iff z x)
    | inr e ↦
        let k = insert-IsStored z x dup t a.0 e h in
        let ih = hash_loop-IsStored z r (x ∷ dup) (insert (hash x) x t) a.1 k in
        ground (arith, e, ih)
  ]

  -- The keys of a table have the size of the hashes.
  abbrev IsSized : Dict Bytes → Type 0
  IsSized [] = Unit
  IsSized ((k, x) ∷ t) = (length k ≡ suc w) × IsSized t

  assign-IsSized :
      (k v : Bytes) (t : Dict Bytes) → length k ≡ suc w → IsSized t → IsSized (assign k v t)
  unfolding assign
  assign-IsSized k v [] h s = (h, tt)
  assign-IsSized k v ((j, x) ∷ t) h s = elim (Bool-cases (k == j)) [
    | inl e ↦ rw e s
    | inr e ↦ rw e (s.0, assign-IsSized k v t h s.1)
  ]

  insert-IsSized :
      (k v : Bytes) (t : Dict Bytes) → length k ≡ suc w → IsSized t → IsSized (insert k v t)
  unfolding insert
  insert-IsSized k v t h s = elim (Option-cases (lookup k t)) [
    | inl e ↦ rw (e, insert) (assign-IsSized k v t h s)
    | inr (x, e) ↦ rw (e, insert) s
  ]

  hash_loop-IsSized :
      (input dup : List Bytes) (t : Dict Bytes)
      → All (λ (x : Bytes). length (hash x) ≡ suc w) input
      → IsSized t
      → IsSized (hash_loop hash dup input t)
  unfolding hash_loop
  hash_loop-IsSized [] dup t a s = s
  hash_loop-IsSized (x ∷ r) dup t a s = elim (Bool-cases (has x dup)) [
    | inl e ↦ rw e (hash_loop-IsSized r dup t a.1 s)
    | inr e ↦ rw e (
        hash_loop-IsSized r (x ∷ dup) (insert (hash x) x t) a.1 (insert-IsSized (hash x) x t a.0 s))
  ]

  length-hashes :
      (zs : List Bytes)
      → All (λ (x : Bytes). length (hash x) ≡ suc w) zs
      → length (hashes hash zs) ≡ length zs * suc w
  length-hashes [] a = omega arith
  length-hashes (z ∷ zs) a =
      grind (arith, length-append (hash z) (hashes hash zs), length-hashes zs a.1, a.0)

  intersect_loop-hashes :
      (xs zs : List Bytes) (t : Dict Bytes)
      → All (λ (z : Bytes). length (hash z) ≡ suc w) zs
      → All (λ (z : Bytes). IsStored z xs t) zs
      → intersect_loop (length zs) (suc w) (hashes hash zs) t ≡ only_in xs zs
  unfolding intersect_loop only_in
  intersect_loop-hashes xs [] t a h = refl
  intersect_loop-hashes xs (z ∷ zs) t a h =
      let p : take (suc w) (hashes hash (z ∷ zs)) ≡ hash z =
        subst (λ (k : ℕ). take k (hashes hash (z ∷ zs)) ≡ hash z) a.0
          (take-append_length (hash z) (hashes hash zs)) in
      let q : drop (suc w) (hashes hash (z ∷ zs)) ≡ hashes hash zs =
        subst (λ (k : ℕ). drop k (hashes hash (z ∷ zs)) ≡ hashes hash zs) a.0
          (drop-append_length (hash z) (hashes hash zs)) in
      let ih = intersect_loop-hashes xs zs t a.1 h.1 in ground (arith, p, q, ih, h.0)

  table_intersection :
      (x : Bytes) (xs zs : List Bytes) (t : Dict Bytes)
      → lookup (hash x) t ≡ some x
      → IsSized t
      → All (λ (z : Bytes). length (hash z) ≡ suc w) zs
      → All (λ (z : Bytes). IsStored z xs t) zs
      → tee_intersection (hashes hash zs) t ≡ done (only_in xs zs)
  unfolding tee_intersection
  table_intersection x xs zs [] f s a h = absurd (unfold lookup in ground (arith, f))
  table_intersection x xs zs (([], y) ∷ r) f s a h = absurd (omega (arith, s.0))
  table_intersection x xs zs ((b ∷ k, y) ∷ r) f s a h =
      let n : length (hashes hash zs) / suc w ≡ length zs =
        rw (length-hashes zs a) (mul-div_left (length zs) (omega arith)) in
      subst
        (λ (m : ℕ).
          done (intersect_loop (length (hashes hash zs) / m) m (hashes hash zs) ((b ∷ k, y) ∷ r))
          ≡ done (only_in xs zs))
        (sym s.0) (rw n (ap done (intersect_loop-hashes xs zs ((b ∷ k, y) ∷ r) a h)))

  all-IsStored :
      (xs zs : List Bytes)
      → All (λ (z : Bytes). All (Apart z) xs) zs
      → All (λ (z : Bytes). IsStored z xs (hash_loop hash [] xs [])) zs
  all-IsStored xs [] h = tt
  all-IsStored xs (z ∷ zs) h =
      (hash_loop-IsStored z xs [] [] h.0 (unfold lookup in refl), all-IsStored xs zs h.1)

  -- The receiver gets the items that the enclave found: where the hashes of its input and of the result
  -- all have one size, which is not 0, and no two different items of them share a hash, decrypting the
  -- hashes of some items gives those of them that are in its input, in the order of the result.
  pub finish_provider-hashes :
      (x z : Bytes) (xs zs : List Bytes) (decrypt : Bytes → Option Bytes) (buf : Bytes)
      → All (λ (y : Bytes). length (hash y) ≡ suc w) (x ∷ xs)
      → All (λ (y : Bytes). length (hash y) ≡ suc w) (z ∷ zs)
      → All (λ (y : Bytes). All (Apart y) (x ∷ xs)) (x ∷ z ∷ zs)
      → decrypt buf ≡ some (hashes hash (z ∷ zs))
      → (t : Dict Bytes) × (hash_data true hash (x ∷ xs) ≡ some t)
        × (finish_provider true (success, buf) decrypt t ≡ done (only_in (x ∷ xs) (z ∷ zs)))
  unfolding hash_data finish_provider
  finish_provider-hashes x z xs zs decrypt buf a b c e =
      let t : Dict Bytes = hash_loop hash [] (x ∷ xs) [] in
      let h = all-IsStored (x ∷ xs) (x ∷ z ∷ zs) c in
      let q =
        table_intersection x (x ∷ xs) (z ∷ zs) t (ground (arith, h.0, ==_refl x))
          (hash_loop-IsSized (x ∷ xs) [] [] a tt) b h.1 in
      (
        t,
        refl,
        rw e (
            finish_case (hashes hash (z ∷ zs)) t
              (omega (arith, length-append (hash z) (hashes hash zs), b.0))
            ∙ q),
      )
