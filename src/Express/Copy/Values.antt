-- ===== src/Express/Copy/Values.antt =====
-- src/primihub/executor/express.{h,cc}: that the local executor finds the values that it was given.
use primihub.Prelude.{
  ◌==◌, ℕ, ◌≡◌, refl, sym, ap, ◌∙◌, ◌⊎◌, inl, inr, Bool, true, Option, none, some, List, [], ◌∷◌,
  arith, if◌then◌else◌, Bool-cases, is_set, Option-cases, Bytes, ==_iff, ==_refl, length,
}
use primihub.Prelude.Dict.{lookup-insert, insert_there, lookup, Dict, insert}
use primihub.Prelude.Keys.{IsUnique}
use primihub.Express.Config.{get_column_locality, ColumnConfig}
use primihub.Express.Feed.{
  is_local_column, set_or_check_value_count, FeedDict, new_feed, import_fp64, get_fp64,
}
use primihub.Express.Mode.{TokenType, column_type, type_of}
use primihub.Express.Value.{column}
use primihub.Express.Copy.{
  all_local, create_new_column_config, local_token_value, import_columns, init,
}

abbrev AllTrue : Dict Bool → Type 0
AllTrue m = (j : Bytes) (b : Bool) → lookup j m ≡ some b → b ≡ true

lookup-insert-true :
    (j k : Bytes) (m : Dict Bool)
    → AllTrue m
    → lookup k (insert j true m) ≡ (if k == j then some true else lookup k m)
lookup-insert-true j k m h = elim (Option-cases (lookup j m)) [
  | inl e ↦ lookup-insert j k true m e
  | inr (b, e) ↦
      let there : lookup j m ≡ some true = e ∙ ap some (h j b e) in
      let same : (k == j) ≡ true → lookup k m ≡ lookup j m =
        λ q. ap (λ i. lookup i m) ((==_iff k j).0 q) in
      ap (lookup k) (insert_there j true b m e) ∙ (elim (Bool-cases (k == j)) [
        | inl q ↦ ground (arith, q, same q, there)
        | inr q ↦ ground (arith, q)
      ])
]

insert-AllTrue : (j : Bytes) (m : Dict Bool) → AllTrue m → AllTrue (insert j true m)
insert-AllTrue j m h k b e = elim (Bool-cases (k == j)) [
  | inl q ↦ ground (arith, lookup-insert-true j k m h, q, e)
  | inr q ↦ h k b (sym (ground (arith, lookup-insert-true j k m h, q)) ∙ e)
]

lookup-all_local :
    (outside local_col : Dict Bool) (k : Bytes)
    → AllTrue local_col
    → lookup k (all_local outside local_col)
      ≡ (if is_set (lookup k outside) then some true else lookup k local_col)
unfolding all_local lookup
lookup-all_local [] local_col k h = refl
lookup-all_local ((j, b) ∷ outside) local_col k h = ground (
  arith,
  lookup-all_local outside (insert j true local_col) k (insert-AllTrue j local_col h),
  lookup-insert-true j k local_col h,
)

-- Every column of `cols` is known to the shared run, and has `n` values.
abbrev AreKnown : {F : Type 0} → ℕ → Dict Bool → Dict (List F) → Type 0
AreKnown n outside [] = Unit
AreKnown n outside ((k, vec) ∷ cols) =
    (is_set (lookup k outside) ≡ true) × (length vec ≡ n) × AreKnown n outside cols

abbrev IsCounted : ℕ → Option ℕ → Type 0
IsCounted n count = (count ≡ none) ⊎ (count ≡ some n)

module _ {F : Type 0} where
  lookup_same : (k j : Bytes) (m : Dict (List F)) → (k == j) ≡ true → lookup k m ≡ lookup j m
  lookup_same k j m h = ap (λ i. lookup i m) ((==_iff k j).0 h)

  still_fresh :
      (j k : Bytes) (vec : List F) (cols stored : Dict (List F))
      → lookup j cols ≡ none
      → lookup j stored ≡ none
      → is_set (lookup k cols) ≡ true
      → ((i : Bytes) → is_set (lookup i ((j, vec) ∷ cols)) ≡ true → lookup i stored ≡ none)
      → lookup k (insert j vec stored) ≡ none
  unfolding lookup
  still_fresh j k vec cols stored u fresh h e = elim (Bool-cases (k == j)) [
    | inl q ↦ absurd (ground (arith, lookup_same k j cols q, u, h))
    | inr q ↦ ground (arith, lookup-insert j k vec stored fresh, q, e k (ground (arith, q, h)))
  ]

  moves :
      (j k : Bytes) (vec v : List F) (cols stored : Dict (List F))
      → lookup j stored ≡ none
      → (lookup k stored ≡ some v) ⊎ (lookup k ((j, vec) ∷ cols) ≡ some v)
      → (lookup k (insert j vec stored) ≡ some v) ⊎ (lookup k cols ≡ some v)
  unfolding lookup
  moves j k vec v cols stored fresh (inl h) = elim (Bool-cases (k == j)) [
    | inl q ↦ absurd (ground (arith, lookup_same k j stored q, fresh, h))
    | inr q ↦ inl (ground (arith, lookup-insert j k vec stored fresh, q, h))
  ]
  moves j k vec v cols stored fresh (inr h) = elim (Bool-cases (k == j)) [
    | inl q ↦ inl (ground (arith, lookup-insert j k vec stored fresh, q, h))
    | inr q ↦ inr (ground (arith, h, q))
  ]

module _ {I F : Type 0} where
  import_known :
      (k : Bytes) (vec : List F) (feed : FeedDict I F)
      → get_column_locality k feed.col_config ≡ some true
      → feed.float_run ≡ true
      → IsCounted (length vec) feed.val_count
      → lookup k feed.fp64_col ≡ none
      → import_fp64 k vec feed
        ≡ some (
          0,
          record feed { val_count = some (length vec); fp64_col = insert k vec feed.fp64_col },
        )
  unfolding import_fp64 is_local_column set_or_check_value_count
  import_known k vec feed l f (inl c) e = ground (arith, l, f, c, e)
  import_known k vec feed l f (inr c) e = ground (arith, l, f, c, e)

  -- What a run of imports leaves, where the names of `cols` are new.
  import_columns-known :
      (n : ℕ) (outside : Dict Bool) (cols : Dict (List F)) (feed : FeedDict I F)
      → IsUnique cols
      → AreKnown n outside cols
      → ((k : Bytes)
          → is_set (lookup k outside) ≡ true
          → get_column_locality k feed.col_config ≡ some true)
      → feed.float_run ≡ true
      → IsCounted n feed.val_count
      → ((k : Bytes) → is_set (lookup k cols) ≡ true → lookup k feed.fp64_col ≡ none)
      → (last : FeedDict I F) × (import_columns cols feed ≡ some last)
        × ((k : Bytes) (vec : List F)
            → (lookup k feed.fp64_col ≡ some vec) ⊎ (lookup k cols ≡ some vec)
            → lookup k last.fp64_col ≡ some vec)
        × (last.float_run ≡ true)
        × (last.col_config ≡ feed.col_config)
  unfolding import_columns lookup
  import_columns-known n outside [] feed u a l f c e =
      (feed, refl, (λ k vec w. elim w [ inl q ↦ q | inr q ↦ absurd (ground (arith, q)) ]), f, refl)
  import_columns-known n outside ((j, vec) ∷ cols) feed u a l f c e =
      let next : FeedDict I F = record feed {
        val_count = some (length vec);
        fp64_col = insert j vec feed.fp64_col;
      } in
      let fresh : lookup j feed.fp64_col ≡ none = e j (ground (arith, ==_refl j)) in
      let run : import_fp64 j vec feed ≡ some (0, next) =
        import_known j vec feed (l j a.0) f (rw a.1 c) fresh in
      let (last, q, w, g, s) =
        import_columns-known n outside cols next u.1 a.2 l f (inr (ap some a.1))
          (λ k h. still_fresh j k vec cols feed.fp64_col u.0 fresh h e) in
      (
        last,
        ground (arith, run, q),
        (λ k v x. w k v (moves j k vec v cols feed.fp64_col fresh x)),
        g,
        s,
      )

  -- `init` with the columns of all parties as doubles, in a run of doubles: if each name stands once, is
  -- known to the shared run, and all columns have as many values, then `createTokenValue` of the local
  -- executor gives for each column its values.
  local_token_value-init :
      {Share : Type 0} (n : ℕ) (outside : ColumnConfig) (cols : Dict (List F))
      (types : Dict TokenType) (number : Bytes → Option F) (k : Bytes) (vec : List F)
      → IsUnique cols
      → AreKnown n outside.local_col cols
      → is_set (lookup k outside.local_col) ≡ true
      → lookup k cols ≡ some vec
      → type_of k types ≡ column_type
      → (last : FeedDict I F) × (init outside true cols ≡ some last)
        × (local_token_value {V = F} {Share = Share} types (λ j. get_fp64 j last) number k
            ≡ some (column vec))
  unfolding init create_new_column_config local_token_value get_fp64 is_local_column
      get_column_locality lookup
  local_token_value-init n outside cols types number k vec u a o h t =
      let known : (j : Bytes)
          → is_set (lookup j outside.local_col) ≡ true
          → lookup j (all_local outside.local_col []) ≡ some true =
        λ j q. ground (
          arith,
          lookup-all_local outside.local_col [] j (λ i b e. absurd (ground (arith, e))),
          q,
        ) in
      let (last, run, w, f, c) =
        import_columns-known n outside.local_col cols
          (new_feed (create_new_column_config outside) true) u a known refl (inl refl)
          (λ j q. refl) in
      let there : lookup k last.fp64_col ≡ some vec = w k vec (inr h) in
      let is_local : lookup k last.col_config.local_col ≡ some true = rw c (known k o) in
      (last, run, ground (arith, t, is_local, f, there))
