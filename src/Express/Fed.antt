-- ===== src/Express/Fed.antt =====
-- src/primihub/executor/express.cc: what `FeedDict` keeps true, and that the values of a column come out
-- as they went in.
use primihub.Prelude.{
  ◌==◌, ℕ, ◌≡◌, sym, ap, subst, ◌∙◌, ◌⊎◌, inl, inr, Bool, true, false, none, some, List, arith,
  nat_beq, nat_beq_iff, Bool-cases, Option-cases, Bytes, ==_iff, length,
}
use primihub.Prelude.Dict.{lookup, insert, lookup-insert}
use primihub.Express.Config.{get_column_locality}
use primihub.Express.Feed.{FeedDict, set_or_check_value_count, import_fp64, is_local_column}

module _ {I F : Type 0} where
  -- A column of `len` values may stand in the dictionary of the run mode.
  abbrev IsColumn : FeedDict I F → Bool → Bytes → ℕ → Type 0
  IsColumn feed mode k len =
      (feed.float_run ≡ mode)
      × (get_column_locality k feed.col_config ≡ some true)
      × (feed.val_count ≡ some len)

  -- All columns are local, stand in the dictionary of the run mode, and have the noted number of values.
  abbrev pub IsFed : FeedDict I F → Type 0
  IsFed feed =
      ((k : Bytes) (vec : List F)
        → lookup k feed.fp64_col ≡ some vec
        → IsColumn feed true k (length vec))
      × ((k : Bytes) (vec : List I)
          → lookup k feed.int64_col ≡ some vec
          → IsColumn feed false k (length vec))

  -- The count is `n` if the answer is yes, nothing else changes, and no count is changed.
  pub count-cases :
      (n : ℕ) (feed : FeedDict I F)
      → (((set_or_check_value_count n feed).0 ≡ true)
          × ((set_or_check_value_count n feed).1 ≡ record feed { val_count = some n })
          × ((feed.val_count ≡ none) ⊎ (feed.val_count ≡ some n)))
        ⊎ (((set_or_check_value_count n feed).0 ≡ false)
            × ((set_or_check_value_count n feed).1 ≡ feed))
  unfolding set_or_check_value_count
  count-cases n feed = elim (Option-cases feed.val_count) [
    | inl e ↦ inl (ground (arith, e), ground (arith, e), inl e)
    | inr (m, e) ↦ elim (Bool-cases (nat_beq m n)) [
      | inl b ↦
          let same : feed.val_count ≡ some n = e ∙ ap some ((nat_beq_iff m n).0 b) in
          inl (
            ground (arith, e, b),
            ground (arith, e) ∙ ap (λ c. record feed { val_count = c }) same,
            inr same,
          )
      | inr b ↦ inr (ground (arith, e, b), ground (arith, e))
    ]
  ]

  pub counted-IsFed :
      (n : ℕ) (feed : FeedDict I F)
      → IsFed feed
      → (feed.val_count ≡ none) ⊎ (feed.val_count ≡ some n)
      → IsFed (record feed { val_count = some n })
  counted-IsFed n feed h (inl e) = (
    λ k vec q. absurd (ground (arith, (h.0 k vec q).2, e)),
    λ k vec q. absurd (ground (arith, (h.1 k vec q).2, e)),
  )
  counted-IsFed n feed h (inr e) = (
    λ k vec q. let c = h.0 k vec q in (c.0, c.1, sym e ∙ c.2),
    λ k vec q. let c = h.1 k vec q in (c.0, c.1, sym e ∙ c.2),
  )

  -- How an import can end: nothing changes, only the count is noted, or a column is stored under a new
  -- name with the code 0.
  abbrev pub IsKept : ℕ → ℕ → FeedDict I F → FeedDict I F → Type 0
  IsKept len code feed next =
      (nat_beq code 0 ≡ false)
      × ((next ≡ feed)
          ⊎ ((next ≡ record feed { val_count = some len })
              × ((feed.val_count ≡ none) ⊎ (feed.val_count ≡ some len))))

  abbrev pub IsStored : Bytes → List F → ℕ → FeedDict I F → FeedDict I F → Type 0
  IsStored k vec code feed next =
      (code ≡ 0)
      × ((feed.val_count ≡ none) ⊎ (feed.val_count ≡ some (length vec)))
      × (get_column_locality k feed.col_config ≡ some true)
      × (feed.float_run ≡ true)
      × (lookup k feed.fp64_col ≡ none)
      × (next
          ≡ record feed { val_count = some (length vec); fp64_col = insert k vec feed.fp64_col })

  pub import_fp64-cases :
      (k : Bytes) (vec : List F) (feed next : FeedDict I F) (code : ℕ)
      → import_fp64 k vec feed ≡ some (code, next)
      → IsKept (length vec) code feed next ⊎ IsStored k vec code feed next
  unfolding import_fp64 is_local_column
  import_fp64-cases k vec feed next code h =
      elim (Option-cases (get_column_locality k feed.col_config)) [
        | inl e ↦ absurd (ground (arith, h, e))
        | inr (false, e) ↦ inl (ground (arith, h, e), inl (ground (arith, h, e)))
        | inr (true, e) ↦ elim (count-cases (length vec) feed) [
          | inr (bad, kept) ↦
              inl (ground (arith, h, e, bad), inl (ground (arith, h, e, bad) ∙ kept))
          | inl (ok, noted, was) ↦ elim (Bool-cases feed.float_run) [
            | inr f ↦
                inl (ground (arith, h, e, ok, f), inr (ground (arith, h, e, ok, f) ∙ noted, was))
            | inl f ↦ elim (Option-cases (lookup k feed.fp64_col)) [
              | inr (w, l) ↦ inl (
                ground (arith, h, e, ok, f, l),
                inr (ground (arith, h, e, ok, f, l) ∙ noted, was),
              )
              | inl l ↦ inr (
                ground (arith, h, e, ok, f, l),
                was,
                e,
                f,
                l,
                ground (arith, h, e, ok, f, l)
                    ∙ ap {A = FeedDict I F} {B = FeedDict I F}
                        (λ g. record g { fp64_col = insert k vec feed.fp64_col }) noted,
              )
            ]
          ]
        ]
      ]

  stored-IsFed :
      (k : Bytes) (vec : List F) (feed : FeedDict I F)
      → IsFed feed
      → (feed.val_count ≡ none) ⊎ (feed.val_count ≡ some (length vec))
      → get_column_locality k feed.col_config ≡ some true
      → feed.float_run ≡ true
      → lookup k feed.fp64_col ≡ none
      → IsFed (record feed { val_count = some (length vec); fp64_col = insert k vec feed.fp64_col })
  stored-IsFed k vec feed h was loc f l =
      let c = counted-IsFed (length vec) feed h was in
      (
        λ j w q. elim (Bool-cases (j == k)) [
          | inl e ↦
              let same : w ≡ vec = ground (arith, q, lookup-insert k j vec feed.fp64_col l, e) in
              (f, rw ((==_iff j k).0 e) loc, ap (λ v. some (length v)) (sym same))
          | inr e ↦ c.0 j w (sym (ground (arith, lookup-insert k j vec feed.fp64_col l, e)) ∙ q)
        ],
        c.1,
      )

  pub import_fp64-IsFed :
      (k : Bytes) (vec : List F) (feed next : FeedDict I F) (code : ℕ)
      → IsFed feed
      → import_fp64 k vec feed ≡ some (code, next)
      → IsFed next
  import_fp64-IsFed k vec feed next code h e = elim (import_fp64-cases k vec feed next code e) [
    | inl (c, inl same) ↦ subst IsFed (sym same) h
    | inl (c, inr (same, was)) ↦ subst IsFed (sym same) (counted-IsFed (length vec) feed h was)
    | inr (c, was, loc, f, l, same) ↦ subst IsFed (sym same) (stored-IsFed k vec feed h was loc f l)
  ]
