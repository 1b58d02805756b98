-- ===== src/Prelude/Keys.antt =====
-- Dictionaries that hold each key once, as `std::map` does, and what they hold as a whole.
use mathlib.Core.Path.{◌≡◌, refl, sym}
use mathlib.Core.Logic.{inl, inr}
use mathlib.Core.List.{List, [], ◌∷◌, ◌++◌, Perm, append_assoc, perm_append_comm, perm_middle}
use mathlib.Core.List.Perm
use mathlib.Core.Option.{none, some}
use native.Mathlib.Omega.{arith}
use primihub.Prelude.Tests.{Bytes, ==_iff, ◌==◌, Bool-cases, Option-cases}
use primihub.Prelude.Dict.{Dict, lookup, assign, erase, insert, lookup-assign, lookup-erase}

module _ {ℓ} {V : Type ℓ} where
  -- Each key stands once.
  abbrev pub IsUnique : Dict V → Type ℓ
  IsUnique [] = Unit
  IsUnique ((k, v) ∷ m) = (lookup k m ≡ none) × IsUnique m

  pub assign-IsUnique : (k : Bytes) (v : V) (m : Dict V) → IsUnique m → IsUnique (assign k v m)
  unfolding assign lookup
  assign-IsUnique k v [] u = (refl, tt)
  assign-IsUnique k v ((j, w) ∷ m) u = elim (Bool-cases (k == j)) [
    | inl e ↦ rw e u
    | inr e ↦ rw e (
      ground (arith, lookup-assign k j v m, ==_iff j k, ==_iff k j, e, u.0),
      assign-IsUnique k v m u.1,
    )
  ]

  pub erase-IsUnique : (k : Bytes) (m : Dict V) → IsUnique m → IsUnique (erase k m)
  unfolding erase
  erase-IsUnique k [] u = tt
  erase-IsUnique k ((j, w) ∷ m) u = elim (Bool-cases (k == j)) [
    | inl e ↦ rw e (erase-IsUnique k m u.1)
    | inr e ↦ rw e (ground (arith, lookup-erase k j m, u.0), erase-IsUnique k m u.1)
  ]

  pub insert-IsUnique : (k : Bytes) (v : V) (m : Dict V) → IsUnique m → IsUnique (insert k v m)
  unfolding insert
  insert-IsUnique k v m u = elim (Option-cases (lookup k m)) [
    | inl e ↦ rw (e, insert) (assign-IsUnique k v m u)
    | inr (w, e) ↦ rw (e, insert) u
  ]

  pub erase_absent : (k : Bytes) (m : Dict V) → lookup k m ≡ none → erase k m ≡ m
  unfolding lookup erase
  erase_absent k [] h = refl
  erase_absent k ((j, w) ∷ m) h = ground (arith, erase_absent k m, h)

-- Dictionaries of lists: all elements of all entries.
module _ {ℓ} {A : Type ℓ} where
  unfoldable pub contents : Dict (List A) → List A
  contents [] = []
  contents ((k, q) ∷ m) = q ++ contents m

  pub exchange : (q w c : List A) → Perm (q ++ (w ++ c)) (w ++ (q ++ c))
  exchange q w c =
      rw (sym (append_assoc q w c), sym (append_assoc w q c))
        (Perm.append_right c (perm_append_comm q w))

  pub contents-erase :
      (k : Bytes) (q : List A) (m : Dict (List A))
      → IsUnique m
      → lookup k m ≡ some q
      → Perm (q ++ contents (erase k m)) (contents m)
  unfolding contents lookup erase
  contents-erase k q [] u h = absurd (ground (arith, h))
  contents-erase k q ((j, w) ∷ m) u h = elim (Bool-cases (k == j)) [
    | inl e ↦
        let same : q ≡ w = ground (arith, h, e) in
        let gone : erase k m ≡ m = ground (arith, erase_absent k m, u.0, ==_iff k j, e) in
        rw (e, gone, same) (Perm.refl _)
    | inr e ↦
        let there : lookup k m ≡ some q = ground (arith, h, e) in
        rw e (
          Perm.trans (exchange q w (contents (erase k m)))
            (Perm.append_left w (contents-erase k q m u.1 there)))
  ]

  pub contents-assign_new :
      (k : Bytes) (x : A) (m : Dict (List A))
      → lookup k m ≡ none
      → Perm (contents (assign k (x ∷ []) m)) (x ∷ contents m)
  unfolding contents lookup assign
  contents-assign_new k x [] h = Perm.refl _
  contents-assign_new k x ((j, w) ∷ m) h = elim (Bool-cases (k == j)) [
    | inl e ↦ absurd (ground (arith, h, e))
    | inr e ↦
        let there : lookup k m ≡ none = ground (arith, h, e) in
        rw e (
          Perm.trans (Perm.append_left w (contents-assign_new k x m there))
            (perm_middle w (contents m)))
  ]

  pub contents-assign_more :
      (k : Bytes) (x : A) (q : List A) (m : Dict (List A))
      → lookup k m ≡ some q
      → Perm (contents (assign k (q ++ x ∷ []) m)) (x ∷ contents m)
  unfolding contents lookup assign
  contents-assign_more k x q [] h = absurd (ground (arith, h))
  contents-assign_more k x q ((j, w) ∷ m) h = elim (Bool-cases (k == j)) [
    | inl e ↦
        let same : q ≡ w = ground (arith, h, e) in
        rw (e, same) (rw (append_assoc w (x ∷ []) (contents m)) (perm_middle w (contents m)))
    | inr e ↦
        let there : lookup k m ≡ some q = ground (arith, h, e) in
        rw e (
          Perm.trans (Perm.append_left w (contents-assign_more k x q m there))
            (perm_middle w (contents m)))
  ]
