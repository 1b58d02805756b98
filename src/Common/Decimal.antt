-- ===== src/Common/Decimal.antt =====
-- `std::to_string` and `std::stoi`, as src/primihub/common/common.h and src/primihub/util/util.cc use
-- them on ports. The result of `stoi` is stored in a `uint32_t`.
use primihub.Prelude.{
  ℕ, zero, suc, ◌+◌, ◌-◌, ◌*◌, ◌/◌, ◌%◌, ◌^◌, ◌≤◌, ◌≡◌, refl, ap, ◌∙◌, ◌≢◌, inl, inr, Bool, ◌&&◌,
  ◌||◌, Option, none, some, [], ◌∷◌, ◌++◌, arith, ltb, leb, nat_beq, if◌then◌else◌, Bool-cases,
  Bytes, All, All-mono, All-append,
}

-- The digits of a number; a number is fuel enough for itself.
unfoldable pub digits : ℕ → ℕ → Bytes
digits zero n = (b'0' + n % 10) ∷ []
digits (suc fuel) n =
    let front = digits fuel (n / 10) in
    if ltb n 10 then (b'0' + n % 10) ∷ [] else front ++ (b'0' + n % 10) ∷ []

unfoldable pub print : ℕ → Bytes
unfolding digits
print n = digits n n

abbrev is_digit : ℕ → Bool
is_digit c = leb b'0' c && leb c b'9'

-- The digits up to the first byte that is none.
unfoldable scan : ℕ → Bytes → ℕ
scan value [] = value
scan value (c ∷ s) =
    let more = scan (value * 10 + (c - b'0')) s in if is_digit c then more else value

-- `isspace` in the C locale.
abbrev is_space : ℕ → Bool
is_space c = nat_beq c b' ' || (leb 9 c && leb c 13)

unfoldable skip_space : Bytes → Bytes
skip_space [] = []
skip_space (c ∷ s) = let rest = skip_space s in if is_space c then rest else c ∷ s

-- The number behind the sign; `none` for the exceptions `invalid_argument` and `out_of_range`.
unfoldable read_unsigned : ℕ → Bytes → Option ℕ
unfolding scan
read_unsigned limit [] = none
read_unsigned limit (c ∷ s) =
    if is_digit c then (let n = scan 0 (c ∷ s) in if leb n limit then some n else none) else none

-- A negative result wraps around in the `uint32_t`.
abbrev negate : Option ℕ → Option ℕ
negate none = none
negate (some n) = some ((2 ^ 32 - n) % 2 ^ 32)

unfoldable read_signed : Bytes → Option ℕ
unfolding read_unsigned
read_signed [] = none
read_signed (c ∷ s) =
    if nat_beq c b'-'
    then negate (read_unsigned (2 ^ 31) s)
    else if nat_beq c b'+'
    then read_unsigned (2 ^ 31 - 1) s
    else read_unsigned (2 ^ 31 - 1) (c ∷ s)

unfoldable pub stoi : Bytes → Option ℕ
unfolding skip_space read_signed
stoi s = read_signed (skip_space s)

abbrev IsDigit : ℕ → Type 0
IsDigit c = (b'0' ≤ c) × (c ≤ b'9')

digits-IsDigit : (fuel n : ℕ) → All IsDigit (digits fuel n)
unfolding digits
digits-IsDigit zero n = omega arith
digits-IsDigit (suc fuel) n = elim (Bool-cases (ltb n 10)) [
  | inl small ↦ rw small (omega arith)
  | inr large ↦ rw large (All-append IsDigit _ _ (digits-IsDigit fuel (n / 10)) (omega arith))
]

scan-append :
    (xs ys : Bytes) (value : ℕ) → All IsDigit xs → scan value (xs ++ ys) ≡ scan (scan value xs) ys
unfolding scan
scan-append [] ys value h = refl
scan-append (c ∷ xs) ys value h =
    ground (arith, h.0, scan-append xs ys (value * 10 + (c - b'0')) h.1)

scan-digits : (fuel n : ℕ) → n ≤ fuel → scan 0 (digits fuel n) ≡ n
unfolding digits
scan-digits zero n h = unfold scan in ground arith
scan-digits (suc fuel) n h = elim (Bool-cases (ltb n 10)) [
  | inl small ↦ unfold scan in ground arith
  | inr large ↦
      let ih = scan-digits fuel (n / 10) (ground arith) in
      let step =
        scan-append (digits fuel (n / 10)) ((b'0' + n % 10) ∷ []) 0
          (digits-IsDigit fuel (n / 10)) in
      rw large (rw (step, ih) (unfold scan in ground arith))
]

-- A text that begins with a digit has no space and no sign before its number.
stoi_digits :
    (c : ℕ) (s : Bytes)
    → IsDigit c
    → stoi (c ∷ s) ≡ (let n = scan 0 (c ∷ s) in if leb n (2 ^ 31 - 1) then some n else none)
unfolding stoi
stoi_digits c s h = ground arith

digits-cons : (fuel n : ℕ) → (c : ℕ) × (s : Bytes) × (digits fuel n ≡ c ∷ s) × IsDigit c
unfolding digits
digits-cons zero n = (b'0' + n % 10, [], refl, omega arith)
digits-cons (suc fuel) n = elim (Bool-cases (ltb n 10)) [
  | inl small ↦ (b'0' + n % 10, [], rw small, omega arith)
  | inr large ↦
      let (c, s, e, h) = digits-cons fuel (n / 10) in
      (c, s ++ (b'0' + n % 10) ∷ [], rw large (rw e), h)
]

-- `std::stoi` reads back what `std::to_string` prints, up to the largest `int`, and throws above it.
pub stoi-print : (n : ℕ) → stoi (print n) ≡ (if leb n (2 ^ 31 - 1) then some n else none)
unfolding print
stoi-print n =
    let (c, s, e, h) = digits-cons n n in
    rw e (
      stoi_digits c s h
      ∙ ap (λ (m : ℕ). if leb m (2 ^ 31 - 1) then some m else none)
          (rw (← e) (scan-digits n n (omega arith))))

IsDigit-ne-colon : (xs : Bytes) → All IsDigit xs → All (λ c. c ≢ b':') xs
IsDigit-ne-colon xs h = All-mono xs (λ c d. omega arith) h

pub print-Lacks : (n : ℕ) → All (λ c. c ≢ b':') (print n)
unfolding print
print-Lacks n = IsDigit-ne-colon _ (digits-IsDigit n n)
