-- ===== src/Express/Imported.antt =====
-- src/primihub/executor/express.cc: `FeedDict::importColumnValues` of integers, and that the values of a
-- column come out as they went in.
use primihub.Prelude.{
  ◌==◌, ℕ, ◌≡◌, sym, ap, subst, ◌∙◌, ◌⊎◌, inl, inr, Bool, true, false, Option, none, some, List, [],
  ◌∷◌, map, arith, nat_beq, if◌then◌else◌, Bool-cases, Option-cases, Bytes, ==_iff, ==_refl, length,
}
use primihub.Prelude.Dict.{
  lookup, lookup-assign_self, Dict, lookup, insert, lookup-assign_self, lookup-insert,
}
use primihub.Express.Config.{ColumnConfig, int64, fp64, get_column_locality, get_column_dtype}
use primihub.Express.Feed.{
  new_feed, FeedDict, is_local_column, import_fp64, import_converted, import_int64, get_fp64,
  get_int64,
}
use primihub.Express.Fed.{
  IsKept, count-cases, IsFed, IsStored, import_fp64-cases, counted-IsFed, import_fp64-IsFed,
}

module _ {I F : Type 0} (to_double : I → F) where
  abbrev IsStoredInt : Bytes → List I → ℕ → FeedDict I F → FeedDict I F → Type 0
  IsStoredInt k vec code feed next =
      (code ≡ 0)
      × ((feed.val_count ≡ none) ⊎ (feed.val_count ≡ some (length vec)))
      × (get_column_locality k feed.col_config ≡ some true)
      × (feed.float_run ≡ false)
      × (lookup k feed.int64_col ≡ none)
      × (next
          ≡ record feed { val_count = some (length vec); int64_col = insert k vec feed.int64_col })

  -- In the mode of doubles, the converted column is imported after the count is noted.
  abbrev IsConverted : Bytes → List I → ℕ → FeedDict I F → FeedDict I F → Type 0
  IsConverted k vec code feed next =
      ((feed.val_count ≡ none) ⊎ (feed.val_count ≡ some (length vec)))
      × (feed.float_run ≡ true)
      × (import_converted to_double k vec (record feed { val_count = some (length vec) })
          ≡ some (code, next))

  import_int64-cases :
      (k : Bytes) (vec : List I) (feed next : FeedDict I F) (code : ℕ)
      → import_int64 to_double k vec feed ≡ some (code, next)
      → IsKept (length vec) code feed next
        ⊎ (IsConverted k vec code feed next ⊎ IsStoredInt k vec code feed next)
  unfolding import_int64 is_local_column
  import_int64-cases k vec feed next code h =
      elim (Option-cases (get_column_locality k feed.col_config)) [
        | inl e ↦ absurd (ground (arith, h, e))
        | inr (false, e) ↦ inl (ground (arith, h, e), inl (ground (arith, h, e)))
        | inr (true, e) ↦ elim (Option-cases (get_column_dtype k feed.col_config)) [
          | inl d ↦ absurd (ground (arith, h, e, d))
          | inr ((c, fp64), d) ↦ inl (ground (arith, h, e, d), inl (ground (arith, h, e, d)))
          | inr ((c, int64), d) ↦ elim (count-cases (length vec) feed) [
            | inr (bad, kept) ↦
                inl (ground (arith, h, e, d, bad), inl (ground (arith, h, e, d, bad) ∙ kept))
            | inl (ok, noted, was) ↦ elim (Bool-cases feed.float_run) [
              | inl f ↦ inr (
                  inl (
                    was,
                    f,
                    sym (ap (import_converted to_double k vec) noted)
                        ∙ ground (arith, h, e, d, ok, f),
                  ))
              | inr f ↦ elim (Option-cases (lookup k feed.int64_col)) [
                | inr (w, l) ↦ inl (
                  ground (arith, h, e, d, ok, f, l),
                  inr (ground (arith, h, e, d, ok, f, l) ∙ noted, was),
                )
                | inl l ↦ inr (
                    inr (
                      ground (arith, h, e, d, ok, f, l),
                      was,
                      e,
                      f,
                      l,
                      ground (arith, h, e, d, ok, f, l)
                          ∙ ap {A = FeedDict I F} {B = FeedDict I F}
                              (λ g. record g { int64_col = insert k vec feed.int64_col }) noted,
                    ))
              ]
            ]
          ]
        ]
      ]

  insert_twice :
      (k : Bytes) (v : List F) (m : Dict (List F))
      → lookup k m ≡ none
      → insert k v (insert k v m) ≡ insert k v m
  unfolding insert
  insert_twice k v m h = ground (arith, lookup-assign_self k v m, h)

  stored_again :
      (k : Bytes) (v : List F) (code : ℕ) (feed g : FeedDict I F)
      → IsStored k v code feed g
      → record g { fp64_col = insert k v g.fp64_col } ≡ g
  stored_again k v code feed g h =
      let col : g.fp64_col ≡ insert k v feed.fp64_col = ap (λ f. f.fp64_col) h.5 in
      let p : insert k v g.fp64_col ≡ g.fp64_col = rw col (insert_twice k v feed.fp64_col h.4) in
      ap {A = Dict (List F)} {B = FeedDict I F} (λ d. record g { fp64_col = d }) p

  -- It ends as the import of doubles does.
  import_converted-import_fp64 :
      (k : Bytes) (vec : List I) (feed next : FeedDict I F) (code : ℕ)
      → import_converted to_double k vec feed ≡ some (code, next)
      → (c : ℕ) × (import_fp64 k (map to_double vec) feed ≡ some (c, next))
        × (nat_beq c 0 ≡ nat_beq code 0)
  unfolding import_converted
  import_converted-import_fp64 k vec feed next code h =
      elim (Option-cases (import_fp64 k (map to_double vec) feed)) [
        | inl e ↦ absurd (ground (arith, h, e))
        | inr ((c, g), e) ↦ elim (Bool-cases (nat_beq c 0)) [
          | inr z ↦
              let same : next ≡ g = ground (arith, h, e, z) in
              (c, rw same e, ground (arith, h, e, z))
          | inl z ↦ elim (import_fp64-cases k (map to_double vec) feed g c e) [
            | inl kept ↦ absurd (ground (arith, kept.0, z))
            | inr stored ↦
                let same : next ≡ g =
                  ground (arith, h, e, z) ∙ stored_again k (map to_double vec) c feed g stored in
                (c, rw same e, ground (arith, h, e, z))
          ]
        ]
      ]

  stored_int-IsFed :
      (k : Bytes) (vec : List I) (feed : FeedDict I F)
      → IsFed feed
      → (feed.val_count ≡ none) ⊎ (feed.val_count ≡ some (length vec))
      → get_column_locality k feed.col_config ≡ some true
      → feed.float_run ≡ false
      → lookup k feed.int64_col ≡ none
      → IsFed
          (record feed { val_count = some (length vec); int64_col = insert k vec feed.int64_col })
  stored_int-IsFed k vec feed h was loc f l =
      let c = counted-IsFed (length vec) feed h was in
      (
        c.0,
        λ j w q. elim (Bool-cases (j == k)) [
          | inl e ↦
              let same : w ≡ vec = ground (arith, q, lookup-insert k j vec feed.int64_col l, e) in
              (f, rw ((==_iff j k).0 e) loc, ap (λ v. some (length v)) (sym same))
          | inr e ↦ c.1 j w (sym (ground (arith, lookup-insert k j vec feed.int64_col l, e)) ∙ q)
        ],
      )

  kept-IsFed :
      (len code : ℕ) (feed next : FeedDict I F)
      → IsFed feed
      → IsKept len code feed next
      → IsFed next
  kept-IsFed len code feed next h (c, inl same) = subst IsFed (sym same) h
  kept-IsFed len code feed next h (c, inr (same, was)) =
      subst IsFed (sym same) (counted-IsFed len feed h was)

  import_int64-IsFed :
      (k : Bytes) (vec : List I) (feed next : FeedDict I F) (code : ℕ)
      → IsFed feed
      → import_int64 to_double k vec feed ≡ some (code, next)
      → IsFed next
  import_int64-IsFed k vec feed next code h e = elim (import_int64-cases k vec feed next code e) [
    | inl kept ↦ kept-IsFed (length vec) code feed next h kept
    | inr (inl (was, f, run)) ↦
        let counted : FeedDict I F = record feed { val_count = some (length vec) } in
        let (c, run2, z) = import_converted-import_fp64 k vec counted next code run in
        import_fp64-IsFed k (map to_double vec) counted next c
          (counted-IsFed (length vec) feed h was) run2
    | inr (inr (c, was, loc, f, l, same)) ↦
        subst IsFed (sym same) (stored_int-IsFed k vec feed h was loc f l)
  ]

  get_fp64-stored :
      (k : Bytes) (vec : List F) (feed next : FeedDict I F) (code : ℕ)
      → IsStored k vec code feed next
      → get_fp64 k next ≡ some (0, vec)
  unfolding get_fp64 is_local_column
  get_fp64-stored k vec feed next code (c, was, loc, f, l, same) =
      rw same (ground (arith, loc, f, lookup-insert k k vec feed.fp64_col l, ==_refl k))

  -- A column of integers that is imported with the code 0 comes out with the code 0: as doubles,
  -- converted, if the run mode is that of doubles, and else as it is. The other getter gives -1.
  get-import_int64 :
      (k : Bytes) (vec : List I) (feed next : FeedDict I F)
      → import_int64 to_double k vec feed ≡ some (0, next)
      → (get_fp64 k next ≡ (if feed.float_run then some (0, map to_double vec) else some (1, [])))
        × (get_int64 k next ≡ (if feed.float_run then some (1, []) else some (0, vec)))
  unfolding get_int64 get_fp64 is_local_column
  get-import_int64 k vec feed next e = elim (import_int64-cases k vec feed next 0 e) [
    | inl kept ↦ absurd (ground (arith, kept.0))
    | inr (inl (was, f, run)) ↦
        let counted : FeedDict I F = record feed { val_count = some (length vec) } in
        let (c, run2, z) = import_converted-import_fp64 k vec counted next 0 run in
        elim (import_fp64-cases k (map to_double vec) counted next c run2) [
          | inl kept ↦ absurd (ground (arith, kept.0, z))
          | inr st ↦
              let got = get_fp64-stored k (map to_double vec) counted next c st in
              let loc : get_column_locality k next.col_config ≡ some true = rw st.5 st.2 in
              let run_mode : next.float_run ≡ true = rw st.5 st.3 in
              (ground (arith, got, f), ground (arith, f, loc, run_mode))
        ]
    | inr (inr (c, was, loc, f, l, same)) ↦ rw same (
      ground (arith, f, loc),
      ground (arith, loc, f, lookup-insert k k vec feed.int64_col l, ==_refl k),
    )
  ]

  -- A call of `importColumnValues`.
  pub data Import : Type 0 where
    integers : Bytes → List I → Import
    doubles : Bytes → List F → Import

  abbrev import_one : Import → FeedDict I F → Option (ℕ × FeedDict I F)
  import_one (integers k vec) feed = import_int64 to_double k vec feed
  import_one (doubles k vec) feed = import_fp64 k vec feed

  -- A sequence of calls, whatever their codes; `none` is an exception.
  unfoldable pub import_all : List Import → FeedDict I F → Option (FeedDict I F)
  import_all [] feed = some feed
  import_all (i ∷ imports) feed = elim (import_one i feed) [
    | none ↦ none
    | some (code, next) ↦ import_all imports next
  ]

  import_one-IsFed :
      (i : Import) (feed next : FeedDict I F) (code : ℕ)
      → IsFed feed
      → import_one i feed ≡ some (code, next)
      → IsFed next
  import_one-IsFed (integers k vec) feed next code h e = import_int64-IsFed k vec feed next code h e
  import_one-IsFed (doubles k vec) feed next code h e = import_fp64-IsFed k vec feed next code h e

  keeps-IsFed :
      (imports : List Import) (feed last : FeedDict I F)
      → IsFed feed
      → import_all imports feed ≡ some last
      → IsFed last
  unfolding import_all
  keeps-IsFed [] feed last h e = subst {A = FeedDict I F} IsFed (ground (arith, e)) h
  keeps-IsFed (i ∷ imports) feed last h e = elim (Option-cases (import_one i feed)) [
    | inl n ↦ absurd (ground (arith, e, n))
    | inr ((code, next), n) ↦
        keeps-IsFed imports next last (import_one-IsFed i feed next code h n) (ground (arith, e, n))
  ]

  -- Any calls of `importColumnValues` on a new dictionary, those included that give an error code: all
  -- columns that it then has are local, stand in the dictionary of the run mode, and have the noted
  -- number of values.
  pub import_all-IsFed :
      (col_config : ColumnConfig) (float_run : Bool) (imports : List Import) (last : FeedDict I F)
      → import_all imports (new_feed col_config float_run) ≡ some last
      → IsFed last
  unfolding lookup
  import_all-IsFed col_config float_run imports last e =
      keeps-IsFed imports (new_feed col_config float_run) last
        ((λ k vec q. absurd (ground (arith, q))), (λ k vec q. absurd (ground (arith, q)))) e
