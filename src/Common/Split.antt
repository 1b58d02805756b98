-- ===== src/Common/Split.antt =====
-- src/primihub/util/util.cc: `str_split` at one character. The loop of `getline` calls gives the parts
-- between the separators, an empty last part included.
use primihub.Prelude.{
  ℕ, ◌≡◌, refl, sym, ◌∙◌, ◌≢◌, inl, inr, List, [], ◌∷◌, ◌++◌, append-nil, append_assoc, arith,
  nat_beq, if◌then◌else◌, Bool-cases, Bytes, All, All-append,
}

unfoldable split_from : ℕ → Bytes → Bytes → List Bytes
split_from d part [] = part ∷ []
split_from d part (c ∷ s) =
    let next = split_from d [] s in
    let more = split_from d (part ++ c ∷ []) s in if nat_beq c d then part ∷ next else more

unfoldable pub split : Bytes → ℕ → List Bytes
unfolding split_from
split s d = split_from d [] s

abbrev pub Lacks : ℕ → Bytes → Type 0
Lacks d s = All (λ c. c ≢ d) s

-- A part that lacks the separator is read up to the separator.
split_from-Lacks :
    (d : ℕ) (part x s : Bytes)
    → Lacks d x
    → split_from d part (x ++ (d ∷ s)) ≡ (part ++ x) ∷ split_from d [] s
unfolding split_from
split_from-Lacks d part [] s h = ground (arith, append-nil part)
split_from-Lacks d part (c ∷ x) s h =
    ground (arith, h.0, split_from-Lacks d (part ++ c ∷ []) x s h.1, append_assoc part (c ∷ []) x)

split_from_last : (d : ℕ) (part x : Bytes) → Lacks d x → split_from d part x ≡ (part ++ x) ∷ []
unfolding split_from
split_from_last d part [] h = ground (arith, append-nil part)
split_from_last d part (c ∷ x) h =
    ground (arith, h.0, split_from_last d (part ++ c ∷ []) x h.1, append_assoc part (c ∷ []) x)

pub split-Lacks : (d : ℕ) (x s : Bytes) → Lacks d x → split (x ++ (d ∷ s)) d ≡ x ∷ split s d
unfolding split
split-Lacks d x s h = split_from-Lacks d [] x s h

pub split_last : (d : ℕ) (x : Bytes) → Lacks d x → split x d ≡ x ∷ []
unfolding split
split_last d x h = split_from_last d [] x h

-- The parts with the separators between them.
unfoldable join : List Bytes → ℕ → Bytes
join [] d = []
join (p ∷ []) d = p
join (p ∷ q ∷ r) d = p ++ (d ∷ join (q ∷ r) d)

split_from-cons :
    (d : ℕ) (part s : Bytes) → (p : Bytes) × (r : List Bytes) × (split_from d part s ≡ p ∷ r)
unfolding split_from
split_from-cons d part [] = (part, [], refl)
split_from-cons d part (c ∷ s) = elim (Bool-cases (nat_beq c d)) [
  | inl e ↦ (part, split_from d [] s, rw e)
  | inr e ↦ let (p, r, q) = split_from-cons d (part ++ c ∷ []) s in (p, r, rw e q)
]

join-cons : (d : ℕ) (p : Bytes) (ps : List Bytes) → ps ≢ [] → join (p ∷ ps) d ≡ p ++ (d ∷ join ps d)
unfolding join
join-cons d p [] h = absurd (h refl)
join-cons d p (q ∷ r) h = refl

join-split_from : (d : ℕ) (part s : Bytes) → join (split_from d part s) d ≡ part ++ s
unfolding split_from
join-split_from d part [] = unfold join in sym (append-nil part)
join-split_from d part (c ∷ s) = elim (Bool-cases (nat_beq c d)) [
  | inl e ↦
      let (p, r, q) = split_from-cons d [] s in
      let same : c ≡ d = ground arith in
      rw e
        (join-cons d part (split_from d [] s) (λ z. cc (q, z)) ∙ rw (join-split_from d [] s, same))
  | inr e ↦ rw e (join-split_from d (part ++ c ∷ []) s ∙ append_assoc part (c ∷ []) s)
]

split_from-Parts : (d : ℕ) (part s : Bytes) → Lacks d part → All (Lacks d) (split_from d part s)
unfolding split_from
split_from-Parts d part [] h = (h, tt)
split_from-Parts d part (c ∷ s) h = elim (Bool-cases (nat_beq c d)) [
  | inl e ↦ rw e (h, split_from-Parts d [] s tt)
  | inr e ↦ rw e (
      split_from-Parts d (part ++ c ∷ []) s
        (All-append (λ x. x ≢ d) part (c ∷ []) h (ground arith, tt)))
]

-- The parts of any text, joined at the separator, spell the text, and no part holds the separator.
join-split : (s : Bytes) (d : ℕ) → (join (split s d) d ≡ s) × All (Lacks d) (split s d)
unfolding split
join-split s d = (join-split_from d [] s, split_from-Parts d [] s tt)
