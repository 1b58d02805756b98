-- ===== src/Express/Tokens.antt =====
-- src/primihub/executor/express.cc: which tokens `resolveRunMode` accepts, and what `createTokenValue`
-- makes of them.
use primihub.Prelude.{
  ◌==◌, ◌≡◌, refl, ap, ◌∙◌, ◌⊎◌, inl, inr, Bool, true, false, not, ◌&&◌, ◌||◌, Option, none, some,
  List, [], ◌∷◌, arith, if◌then◌else◌, Bool-cases, is_set, Option-cases, Bytes, length,
}
use primihub.Prelude.Dict.{insert_there, lookup-insert, Dict, lookup, insert}
use primihub.Express.Parse.{over, is_operator_token}
use primihub.Express.Config.{ColumnConfig, get_column_dtype}
use primihub.Express.Config.{resolve_local_column, has_fp64_column, get_column_locality}
use primihub.Express.Feed.{FeedDict, get_fp64, is_local_column}
use primihub.Express.Fed.{IsFed}
use primihub.Express.Value.{TokenValue, column, remote}
use primihub.Express.Mode.{
  create_token_value, resolve_run_mode, type_of, TokenType, column_type, resolve_tokens,
}

-- An operand of the suffix form that is no column with a type, as a constant.
abbrev is_untyped : ColumnConfig → Bytes → Bool
is_untyped cfg token = not (is_operator_token token) && not (is_set (lookup token cfg.col_dtype))

abbrev has_untyped : ColumnConfig → List Bytes → Bool
has_untyped cfg [] = false
has_untyped cfg (token ∷ suffix) = is_untyped cfg token || has_untyped cfg suffix

abbrev has_division : List Bytes → Bool
has_division [] = false
has_division (token ∷ suffix) =
    (is_operator_token token && (token == (over ∷ []))) || has_division suffix

-- What the loop makes of the types: each operand is a column.
resolve_tokens-untyped :
    (cfg : ColumnConfig) (suffix : List Bytes) (types : Dict TokenType) (d f : Bool)
    → has_untyped cfg suffix ≡ true
    → resolve_tokens cfg suffix types d f ≡ none
unfolding resolve_tokens get_column_dtype
resolve_tokens-untyped cfg [] types d f h = absurd (ground (arith, h))
resolve_tokens-untyped cfg (t ∷ suffix) types d f h = elim (Bool-cases (is_operator_token t)) [
  | inl o ↦ ground (
    arith,
    o,
    h,
    resolve_tokens-untyped cfg suffix types (d || (t == (over ∷ []))) f (ground (arith, h, o)),
  )
  | inr o ↦ elim (Option-cases (lookup t cfg.col_dtype)) [
    | inl e ↦ ground (arith, o, e)
    | inr (dtype, e) ↦ ground (
      arith,
      o,
      e,
      resolve_tokens-untyped cfg suffix (insert t column_type types) d f (ground (arith, h, o, e)),
    )
  ]
]

abbrev AllColumns : Dict TokenType → Type 0
AllColumns types = (k : Bytes) → type_of k types ≡ column_type

insert-AllColumns :
    (token : Bytes) (types : Dict TokenType)
    → AllColumns types
    → AllColumns (insert token column_type types)
unfolding type_of
insert-AllColumns token types h k = elim (Option-cases (lookup token types)) [
  | inl e ↦ ground (arith, lookup-insert token k column_type types e, h k)
  | inr (t, e) ↦ ap (type_of k) (insert_there token column_type t types e) ∙ h k
]

resolve_tokens-typed :
    (cfg : ColumnConfig) (suffix : List Bytes) (types : Dict TokenType) (d f : Bool)
    → has_untyped cfg suffix ≡ false
    → AllColumns types
    → (all : Dict TokenType) × (resolve_tokens cfg suffix types d f
        ≡ some (all, d || has_division suffix, f))
      × AllColumns all
unfolding resolve_tokens get_column_dtype
resolve_tokens-typed cfg [] types d f h a = (types, ground arith, a)
resolve_tokens-typed cfg (t ∷ suffix) types d f h a = elim (Bool-cases (is_operator_token t)) [
  | inl o ↦
      let (all, e, b) =
        resolve_tokens-typed cfg suffix types (d || (t == (over ∷ []))) f (ground (arith, h, o))
          a in
      (all, ground (arith, o, e), b)
  | inr o ↦ elim (Option-cases (lookup t cfg.col_dtype)) [
    | inl e ↦ absurd (ground (arith, h, o, e))
    | inr (dtype, e) ↦
        let (all, run, b) =
          resolve_tokens-typed cfg suffix (insert t column_type types) d f (ground (arith, h, o, e))
            (insert-AllColumns t types a) in
        (all, ground (arith, o, e, run), b)
  ]
]

resolved-col_dtype :
    (cfg resolved : ColumnConfig)
    → resolve_local_column cfg ≡ some resolved
    → resolved.col_dtype ≡ cfg.col_dtype
unfolding resolve_local_column
resolved-col_dtype cfg resolved h = ground (arith, h)

-- `resolveRunMode` of an executor whose columns resolve: it throws if an operand of the suffix form is no
-- column with a type, and so for each constant. Else it takes all tokens for columns, and the run is of
-- doubles if there is a division or a column of doubles.
resolve_run_mode-resolve_local_column :
    (suffix : List Bytes) (cfg resolved : ColumnConfig)
    → resolve_local_column cfg ≡ some resolved
    → (all : Dict TokenType) × (resolve_run_mode suffix cfg [] ≡ (
        if has_untyped resolved suffix
        then none
        else some (resolved, all, has_division suffix || has_fp64_column resolved)))
      × AllColumns all
unfolding resolve_run_mode type_of lookup
resolve_run_mode-resolve_local_column suffix cfg resolved h =
    elim (Bool-cases (has_untyped resolved suffix)) [
      | inl u ↦ (
        [],
        ground (arith, h, u, resolve_tokens-untyped resolved suffix [] false false u),
        λ k. refl,
      )
      | inr u ↦
          let (all, e, a) = resolve_tokens-typed resolved suffix [] false false u (λ k. refl) in
          (all, ground (arith, h, u, e), a)
    ]

module _ {V I Share : Type 0} where
  -- `createTokenValue` for a column, in the mode of doubles, with a dictionary of values in which all
  -- columns have the noted number of values: what it returns is the remote column, if another party
  -- owns it, or the values of the local column, and there are as many as noted.
  create_token_value-IsFed :
      (types : Dict TokenType) (feed : FeedDict I V) (number : Bytes → Option V) (k : Bytes)
      (v : TokenValue V Share)
      → type_of k types ≡ column_type
      → IsFed feed
      → create_token_value types feed.col_config (λ j. get_fp64 j feed) number k ≡ some v
      → ((get_column_locality k feed.col_config ≡ some false) × (v ≡ remote k))
        ⊎ ((vec : List V) × (get_column_locality k feed.col_config ≡ some true)
            × (v ≡ column vec)
            × (feed.val_count ≡ some (length vec)))
  unfolding create_token_value get_fp64 is_local_column
  create_token_value-IsFed types feed number k v t h e =
      elim (Option-cases (get_column_locality k feed.col_config)) [
        | inl l ↦ absurd (ground (arith, e, t, l))
        | inr (false, l) ↦ inl (l, ground (arith, e, t, l))
        | inr (true, l) ↦ elim (Bool-cases feed.float_run) [
          | inr f ↦ absurd (ground (arith, e, t, l, f))
          | inl f ↦ elim (Option-cases (lookup k feed.fp64_col)) [
            | inl q ↦ absurd (ground (arith, e, t, l, f, q))
            | inr (vec, q) ↦ inr (vec, l, ground (arith, e, t, l, f, q), (h.0 k vec q).2)
          ]
        ]
      ]
