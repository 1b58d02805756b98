-- ===== src/Express/Resolve.antt =====
-- src/primihub/executor/express.cc: what `resolveLocalColumn` guarantees.
use primihub.Prelude.{
  ◌==◌, ℕ, suc, ◌≡◌, refl, sym, ap, subst, ◌∙◌, inl, inr, Bool, true, Option, none, some, [], ◌∷◌,
  arith, nat_beq, nat_beq_iff, Bool-cases, is_set, Option-cases, Bytes, ==_iff, ==_refl, length,
}
use primihub.Prelude.Dict.{insert_there, Dict, lookup, erase, lookup-erase, insert, lookup-insert}
use primihub.Prelude.Keys.{insert-IsUnique, erase-IsUnique, IsUnique, erase_absent}
use primihub.Express.Config.{
  import_column_dtype, import_column_owner, ColumnConfig, resolve_local_column, get_column_locality,
  all_typed, insert_localities, ColDtype,
}

module _ {V : Type 0} where
  length-erase :
      (k : Bytes) (v : V) (m : Dict V)
      → IsUnique m
      → lookup k m ≡ some v
      → suc (length (erase k m)) ≡ length m
  unfolding lookup erase
  length-erase k v [] u h = absurd (ground (arith, h))
  length-erase k v ((j, w) ∷ m) u h = elim (Bool-cases (k == j)) [
    | inl e ↦
        let gone : erase k m ≡ m = erase_absent k m (ground (arith, u.0, ==_iff k j, e)) in
        rw (e, gone) refl
    | inr e ↦ let l = length-erase k v m u.1 (ground (arith, h, e)) in rw e (omega (arith, l))
  ]

module _ {V W : Type 0} where
  kept_key :
      (j : Bytes) (v : V) (m : Dict V) (d : Dict W) (i : Bytes) (u : V)
      → (is_set (lookup i d) ≡ true)
      → lookup j m ≡ none
      → lookup i m ≡ some u
      → is_set (lookup i (erase j d)) ≡ true
  kept_key j v m d i u h n q = elim (Bool-cases (i == j)) [
    | inl e ↦
        let same : i ≡ j = (==_iff i j).0 e in
        absurd (ground (arith, sym n ∙ sym (ap (λ k. lookup k m) same) ∙ q))
    | inr e ↦ ground (arith, lookup-erase j i d, e, h)
  ]

  -- As many keys, each of which the other one has too: then the other one has no more.
  keys_pigeonhole :
      (m : Dict V) (d : Dict W)
      → IsUnique m
      → IsUnique d
      → length d ≡ length m
      → ((k : Bytes) (v : V) → lookup k m ≡ some v → is_set (lookup k d) ≡ true)
      → (k : Bytes) → is_set (lookup k d) ≡ is_set (lookup k m)
  unfolding lookup erase
  keys_pigeonhole [] [] um ud l h k = refl
  keys_pigeonhole [] (x ∷ d) um ud l h k = absurd (omega (arith, l))
  keys_pigeonhole ((j, v) ∷ m) d um ud l h k =
      let later : (i : Bytes) (u : V) → lookup i m ≡ some u → is_set (lookup i d) ≡ true = λ i u q.
        elim (Bool-cases (i == j)) [
          | inl e ↦ h i v (ground (arith, e))
          | inr e ↦ h i u (ground (arith, e, q))
        ] in
      let there : is_set (lookup j d) ≡ true = h j v (ground (arith, ==_refl j)) in
      elim (Option-cases (lookup j d)) [
        | inl e ↦ absurd (ground (arith, e, there))
        | inr (w, e) ↦
            let len = length-erase j w d ud e in
            let rest =
              keys_pigeonhole m (erase j d) um.1 (erase-IsUnique j d ud) (omega (arith, l, len))
                (λ i u q. kept_key j v m d i u (later i u q) um.0 q) k in
            ground (arith, rest, lookup-erase j k d, ==_iff k j, there)
      ]

all_typed-lookup :
    (m : Dict ℕ) (d : Dict ColDtype) (k : Bytes) (v : ℕ)
    → all_typed m d ≡ true
    → lookup k m ≡ some v
    → is_set (lookup k d) ≡ true
unfolding all_typed lookup
all_typed-lookup [] d k v h q = absurd (ground (arith, q))
all_typed-lookup ((j, w) ∷ m) d k v h q = elim (Bool-cases (k == j)) [
  | inl e ↦ let same : k ≡ j = (==_iff k j).0 e in rw same (ground (arith, h))
  | inr e ↦ all_typed-lookup m d k v (ground (arith, h)) (ground (arith, q, e))
]

abbrev pub is_local : ℕ → Option ℕ → Option Bool
is_local party_id none = none
is_local party_id (some owner) = some (nat_beq owner party_id)

-- An entry that is there stays; each other owned column is local if its owner is the party.
abbrev or_else : {A : Type 0} → Option A → Option A → Option A
or_else none b = b
or_else (some a) b = some a

lookup_same : {A : Type 0} (k j : Bytes) (m : Dict A) → (k == j) ≡ true → lookup k m ≡ lookup j m
lookup_same k j m h = ap (λ i. lookup i m) ((==_iff k j).0 h)

lookup-insert_localities :
    (party_id : ℕ) (m : Dict ℕ) (local_col : Dict Bool) (k : Bytes)
    → lookup k (insert_localities party_id m local_col)
      ≡ or_else (lookup k local_col) (is_local party_id (lookup k m))
unfolding insert_localities lookup
lookup-insert_localities party_id [] local_col k = ground arith
lookup-insert_localities party_id ((j, w) ∷ m) local_col k =
    let rest = lookup-insert_localities party_id m (insert j (nat_beq w party_id) local_col) k in
    elim (Option-cases (lookup j local_col)) [
      | inl e ↦
          ground (arith, rest, lookup-insert j k (nat_beq w party_id) local_col e, ==_iff k j, e)
      | inr (b, e) ↦ ground (
        arith,
        rest,
        insert_there j (nat_beq w party_id) b local_col e,
        lookup_same k j local_col,
        e,
      )
    ]

-- The imports put each name once.
import_column_dtype-IsUnique :
    (k : Bytes) (dtype : ColDtype) (cfg : ColumnConfig)
    → IsUnique cfg.col_dtype
    → IsUnique (import_column_dtype k dtype cfg).1.col_dtype
unfolding import_column_dtype
import_column_dtype-IsUnique k dtype cfg u = elim (Option-cases (lookup k cfg.col_dtype)) [
  | inl e ↦ rw (e, import_column_dtype) (insert-IsUnique k dtype cfg.col_dtype u)
  | inr (d, e) ↦ rw (e, import_column_dtype) u
]

import_column_owner-IsUnique :
    (k : Bytes) (owner : ℕ) (cfg next : ColumnConfig)
    → IsUnique cfg.col_owner
    → import_column_owner k owner cfg ≡ some next
    → IsUnique next.col_owner
unfolding import_column_owner
import_column_owner-IsUnique k owner cfg next u h = elim (Option-cases (lookup k cfg.col_owner)) [
  | inl e ↦
      let same : insert k owner cfg.col_owner ≡ next.col_owner = ground (arith, h, e) in
      subst IsUnique same (insert-IsUnique k owner cfg.col_owner u)
  | inr (d, e) ↦ absurd (ground (arith, h, e))
]

-- `resolveLocalColumn` of a new configuration, in which each name stands once: if it returns, then the
-- same columns have an owner and a type, each of them is noted as local if its owner is the party, and
-- all others throw.
resolve_local_column-get_column_locality :
    (cfg resolved : ColumnConfig)
    → IsUnique cfg.col_owner
    → IsUnique cfg.col_dtype
    → cfg.local_col ≡ []
    → resolve_local_column cfg ≡ some resolved
    → (k : Bytes)
    → (is_set (lookup k cfg.col_dtype) ≡ is_set (lookup k cfg.col_owner))
      × (get_column_locality k resolved ≡ is_local cfg.party_id (lookup k cfg.col_owner))
unfolding resolve_local_column get_column_locality lookup
resolve_local_column-get_column_locality cfg resolved uo ud n h k =
    let e : nat_beq (length cfg.col_dtype) (length cfg.col_owner) ≡ true = ground (arith, h) in
    let t : all_typed cfg.col_owner cfg.col_dtype ≡ true = ground (arith, h) in
    let same : length cfg.col_dtype ≡ length cfg.col_owner = (nat_beq_iff _ _).0 e in
    let l : resolved.local_col ≡ insert_localities cfg.party_id cfg.col_owner cfg.local_col =
      ground (arith, h, e, t) in
    (
      keys_pigeonhole cfg.col_owner cfg.col_dtype uo ud same
          (λ i v. all_typed-lookup cfg.col_owner cfg.col_dtype i v t) k,
      rw (l, n) (lookup-insert_localities cfg.party_id cfg.col_owner [] k),
    )
