-- ===== src/Prelude/Dict.antt =====
-- `std::map` and `std::unordered_map` as association lists; the order of the entries is the order
-- in which their keys came.
use mathlib.Core.Path.{◌≡◌, refl}
use mathlib.Core.List.{List, [], ◌∷◌}
use mathlib.Core.Option.{Option, none, some}
use native.Mathlib.Omega.{arith}
use primihub.Prelude.Tests.{Bytes, ==_iff, ==_refl, ◌==◌, if◌then◌else◌}

abbrev pub Dict {ℓ} : Type ℓ → Type ℓ
Dict V = List (Bytes × V)

module _ {ℓ} {V : Type ℓ} where
  -- `find`, `none` for `end()`.
  unfoldable pub lookup : Bytes → Dict V → Option V
  lookup k [] = none
  lookup k ((j, v) ∷ m) = if k == j then some v else lookup k m

  -- `m[k] = v`.
  unfoldable pub assign : Bytes → V → Dict V → Dict V
  assign k v [] = (k, v) ∷ []
  assign k v ((j, w) ∷ m) = if k == j then (j, v) ∷ m else (j, w) ∷ assign k v m

  -- `erase(k)`.
  unfoldable pub erase : Bytes → Dict V → Dict V
  erase k [] = []
  erase k ((j, w) ∷ m) = let rest = erase k m in if k == j then rest else (j, w) ∷ rest

  -- `insert({k, v})`: an entry that is there stays.
  unfoldable pub insert : Bytes → V → Dict V → Dict V
  unfolding lookup assign
  insert k v m = elim (lookup k m) [ none ↦ assign k v m | some w ↦ m ]

  pub lookup-assign :
      (k j : Bytes) (v : V) (m : Dict V)
      → lookup j (assign k v m) ≡ (if j == k then some v else lookup j m)
  unfolding lookup assign
  lookup-assign k j v [] = refl
  lookup-assign k j v ((i, w) ∷ m) =
      ground (arith, ==_iff k i, ==_iff j i, ==_iff j k, lookup-assign k j v m)

  pub lookup-erase :
      (k j : Bytes) (m : Dict V) → lookup j (erase k m) ≡ (if j == k then none else lookup j m)
  unfolding lookup erase
  lookup-erase k j [] = ground arith
  lookup-erase k j ((i, w) ∷ m) =
      ground (arith, ==_iff k i, ==_iff j i, ==_iff j k, lookup-erase k j m)

  pub lookup-insert :
      (k j : Bytes) (v : V) (m : Dict V)
      → lookup k m ≡ none
      → lookup j (insert k v m) ≡ (if j == k then some v else lookup j m)
  unfolding insert
  lookup-insert k j v m h = ground (arith, lookup-assign k j v m)

  pub insert_there : (k : Bytes) (v w : V) (m : Dict V) → lookup k m ≡ some w → insert k v m ≡ m
  unfolding insert
  insert_there k v w m h = ground (arith, h)

  pub lookup-assign_self : (k : Bytes) (v : V) (m : Dict V) → lookup k (assign k v m) ≡ some v
  lookup-assign_self k v m = ground (arith, lookup-assign k k v m, ==_refl k)

  pub lookup-erase_self : (k : Bytes) (m : Dict V) → lookup k (erase k m) ≡ none
  lookup-erase_self k m = ground (arith, lookup-erase k k m, ==_refl k)

  -- A loop over all entries that updates each value in place.
  unfoldable pub map_values : (V → V) → Dict V → Dict V
  map_values f [] = []
  map_values f ((j, w) ∷ m) = (j, f w) ∷ map_values f m

  abbrev pub change : (V → V) → Option V → Option V
  change f none = none
  change f (some v) = some (f v)

  pub lookup-map_values :
      (f : V → V) (k : Bytes) (m : Dict V) → lookup k (map_values f m) ≡ change f (lookup k m)
  unfolding lookup map_values
  lookup-map_values f k [] = refl
  lookup-map_values f k ((j, w) ∷ m) = ground (arith, lookup-map_values f k m)
