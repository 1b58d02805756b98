-- ===== src/Psi/Exact.antt =====
-- src/primihub/kernel/psi/operator/base_psi.cc: which byte strings are messages.
use primihub.Prelude.{
  ℕ, zero, suc, ◌+◌, ◌*◌, ◌/◌, ◌%◌, ◌^◌, ◌≤◌, ◌<◌, ◌≡◌, refl, sym, ap, ◌∙◌, ◌≢◌, ◌⊎◌, inl, inr,
  some, List, [], ◌∷◌, ◌++◌, arith, Option-cases, Bytes, length, All,
}
use primihub.Psi.Message.{
  Parsed, htonll, parse, parse_loop, read_item, read_length, IsByte, encode, out_of_fuel, parsed,
  Fits, over_read, parse-encode, prepend, parse_loop_step,
}

-- The eight bytes of the number that they spell.
htonll_digits :
    (a b c d e f g h n : ℕ)
    → All IsByte (a ∷ b ∷ c ∷ d ∷ e ∷ f ∷ g ∷ h ∷ [])
    → n
      ≡ a * 2 ^ 56 + b * 2 ^ 48 + c * 2 ^ 40 + d * 2 ^ 32 + e * 2 ^ 24 + f * 2 ^ 16 + g * 2 ^ 8 + h
    → (htonll n ≡ a ∷ b ∷ c ∷ d ∷ e ∷ f ∷ g ∷ h ∷ []) × (n < 2 ^ 64)
unfolding htonll
htonll_digits a b c d e f g h n v q =
    let ea : n / 2 ^ 56 % 256 ≡ a = omega arith in
    let eb : n / 2 ^ 48 % 256 ≡ b = omega arith in
    let ec : n / 2 ^ 40 % 256 ≡ c = omega arith in
    let ed : n / 2 ^ 32 % 256 ≡ d = omega arith in
    let ee : n / 2 ^ 24 % 256 ≡ e = omega arith in
    let ef : n / 2 ^ 16 % 256 ≡ f = omega arith in
    let eg : n / 2 ^ 8 % 256 ≡ g = omega arith in
    let eh : n % 256 ≡ h = omega arith in (cc (ea, eb, ec, ed, ee, ef, eg, eh), omega arith)

read_length_sound :
    (s r : Bytes) (n : ℕ)
    → read_length s ≡ some (n, r)
    → All IsByte s
    → (htonll n ++ r ≡ s) × (n < 2 ^ 64) × All IsByte r
unfolding read_length
read_length_sound (a ∷ b ∷ c ∷ d ∷ e ∷ f ∷ g ∷ h ∷ s) r n q v =
    let (va, (vb, (vc, (vd, (ve, (vf, (vg, (vh, w)))))))) = v in
    let (digits, bound) =
      htonll_digits a b c d e f g h n (va, (vb, (vc, (vd, (ve, (vf, (vg, (vh, tt)))))))) (cc q) in
    let rest : s ≡ r = cc q in (rw (digits, rest), bound, rw rest at w)
read_length_sound _ r n q v = absurd (ground arith)

read_item_sound :
    (n : ℕ) (s x rest : Bytes)
    → read_item n s ≡ some (x, rest)
    → All IsByte s
    → (x ++ rest ≡ s) × (length x ≡ n) × All IsByte rest
unfolding read_item
read_item_sound zero s x rest q v = ground (arith, q)
read_item_sound (suc n) [] x rest q v = absurd (ground arith)
read_item_sound (suc n) (b ∷ s) x rest q v = elim (Option-cases (read_item n s)) [
  | inl e ↦ absurd (ground (arith, e, q))
  | inr ((y, r), e) ↦ let (j, l, w) = read_item_sound n s y r e v.1 in ground (arith, e, q, j, l, w)
]

prepend-parsed :
    (x : Bytes) (p : Parsed) (xs : List Bytes)
    → prepend x p ≡ parsed xs
    → (ys : List Bytes) × (xs ≡ x ∷ ys) × (p ≡ parsed ys)
prepend-parsed x (parsed ys) xs e = (ys, cc, refl)
prepend-parsed x over_read xs e = cc
prepend-parsed x out_of_fuel xs e = cc

-- The loop accepts only what the sender's code writes.
parse_loop_sound :
    (fuel : ℕ) (s : Bytes) (xs : List Bytes)
    → parse_loop fuel s ≡ parsed xs
    → All IsByte s
    → (encode xs ≡ s) × All Fits xs
unfolding parse_loop encode
parse_loop_sound zero [] xs e v = ground (arith, e)
parse_loop_sound (suc fuel) [] xs e v = ground (arith, e)
parse_loop_sound zero (b ∷ s) xs e v = absurd (ground (arith, e))
parse_loop_sound (suc fuel) (b ∷ s) xs e v = elim (Option-cases (read_length (b ∷ s))) [
  | inl none_left ↦ absurd (ground (arith, e, none_left))
  | inr ((len, r), el) ↦ elim (Option-cases (read_item len r)) [
    | inl short ↦ absurd (ground (arith, e, el, short))
    | inr ((item, rest), ei) ↦
        let step = parse_loop_step fuel (b ∷ s) r item rest len el ei in
        let (ys, ex, ep) = prepend-parsed item (parse_loop fuel rest) xs (sym step ∙ e) in
        let (jr, bound, vr) = read_length_sound (b ∷ s) r len el v in
        let (ji, li, vi) = read_item_sound len r item rest ei vr in
        let (jy, fits) = parse_loop_sound fuel rest ys ep vi in
        rw ex (rw (li, jy, ji) jr, (rw li bound, fits))
  ]
]

length-read_length : (s r : Bytes) (n : ℕ) → read_length s ≡ some (n, r) → length s ≡ length r + 8
unfolding read_length
length-read_length (a ∷ b ∷ c ∷ d ∷ e ∷ f ∷ g ∷ h ∷ s) r n q =
    let rest : s ≡ r = cc q in omega (arith, ap length rest)
length-read_length _ r n q = absurd (ground arith)

length-read_item :
    (n : ℕ) (s x rest : Bytes) → read_item n s ≡ some (x, rest) → length rest ≤ length s
unfolding read_item
length-read_item zero s x rest q = ground (arith, q)
length-read_item (suc n) [] x rest q = absurd (ground arith)
length-read_item (suc n) (b ∷ s) x rest q = elim (Option-cases (read_item n s)) [
  | inl e ↦ absurd (ground (arith, e, q))
  | inr ((y, r), e) ↦ ground (arith, e, q, length-read_item n s y r e)
]

prepend-ends : (x : Bytes) (p : Parsed) → p ≢ out_of_fuel → prepend x p ≢ out_of_fuel
prepend-ends x (parsed ys) h e = cc
prepend-ends x over_read h e = cc
prepend-ends x out_of_fuel h e = h refl

-- Each round leaves a shorter rest.
parse_loop_ends : (fuel : ℕ) (s : Bytes) → length s ≤ fuel → parse_loop fuel s ≢ out_of_fuel
unfolding parse_loop
parse_loop_ends zero [] h e = cc
parse_loop_ends (suc fuel) [] h e = cc
parse_loop_ends zero (b ∷ s) h e = absurd (omega arith)
parse_loop_ends (suc fuel) (b ∷ s) h e = elim (Option-cases (read_length (b ∷ s))) [
  | inl none_left ↦ ground (arith, e, none_left)
  | inr ((len, r), el) ↦ elim (Option-cases (read_item len r)) [
    | inl short ↦ ground (arith, e, el, short)
    | inr ((item, rest), ei) ↦
        let shorter : length rest ≤ fuel =
          omega (arith, length-read_length (b ∷ s) r len el, length-read_item len r item rest ei) in
        prepend-ends item (parse_loop fuel rest) (parse_loop_ends fuel rest shorter)
          (sym (parse_loop_step fuel (b ∷ s) r item rest len el ei) ∙ e)
  ]
]

-- Whatever bytes arrive, the loop ends: either they are the encoding of a list of items, and the
-- receiver gets this list, or they encode no list, and the receiver reads memory behind the string or
-- throws.
pub parse_exact :
    (s : Bytes)
    → All IsByte s
    → ((xs : List Bytes) × (parse s ≡ parsed xs) × (encode xs ≡ s) × All Fits xs)
      ⊎ ((parse s ≡ over_read) × ¬ ((xs : List Bytes) × All Fits xs × (encode xs ≡ s)))
unfolding parse
parse_exact s v = go (parse_loop (length s) s) refl
  where
    go :
        (p : Parsed)
        → parse_loop (length s) s ≡ p
        → ((xs : List Bytes) × (parse_loop (length s) s ≡ parsed xs)
            × (encode xs ≡ s)
            × All Fits xs)
          ⊎ ((parse_loop (length s) s ≡ over_read)
              × ¬ ((xs : List Bytes) × All Fits xs × (encode xs ≡ s)))
    go (parsed xs) e = let (j, fits) = parse_loop_sound (length s) s xs e v in inl (xs, e, j, fits)
    go over_read e = inr (e, λ w. let (xs, fits, j) = w in cc (e, rw j at (parse-encode xs fits)))
    go out_of_fuel e = absurd (parse_loop_ends (length s) s (omega arith) e)
