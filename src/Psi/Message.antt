-- ===== src/Psi/Message.antt =====
-- src/primihub/kernel/psi/operator/base_psi.cc and src/primihub/util/endian_util.h: the message that
-- carries a PSI result, each item behind its length in eight bytes, the highest first.
use primihub.Prelude.{
  ℕ, zero, suc, ◌+◌, ◌*◌, ◌/◌, ◌%◌, ◌^◌, ◌≤◌, ◌<◌, ◌≡◌, refl, ap, ◌∙◌, Option, none, some, List, [],
  ◌∷◌, ◌++◌, arith, Bytes, length, length-append, All,
}

-- `htonll` on a little-endian machine, as the bytes in memory.
unfoldable pub htonll : ℕ → Bytes
htonll n =
    n / 2 ^ 56 % 256
    ∷ n / 2 ^ 48 % 256
    ∷ n / 2 ^ 40 % 256
    ∷ n / 2 ^ 32 % 256
    ∷ n / 2 ^ 24 % 256
    ∷ n / 2 ^ 16 % 256
    ∷ n / 2 ^ 8 % 256
    ∷ n % 256
    ∷ []

-- The message built by `BroadcastResult`.
unfoldable pub encode : List Bytes → Bytes
unfolding htonll
encode [] = []
encode (item ∷ r) = htonll (length item) ++ (item ++ encode r)

-- `std::string(data_ptr + offset, len)`, `none` if it reads behind the end.
unfoldable pub read_item : ℕ → Bytes → Option (Bytes × Bytes)
read_item zero s = some ([], s)
read_item (suc n) [] = none
read_item (suc n) (b ∷ s) = elim (read_item n s) [
  | none ↦ none
  | some (x, rest) ↦ some (b ∷ x, rest)
]

-- `ntohll` of the eight bytes at the offset, `none` if fewer are left.
unfoldable pub read_length : Bytes → Option (ℕ × Bytes)
read_length (a ∷ b ∷ c ∷ d ∷ e ∷ f ∷ g ∷ h ∷ s) =
    some (
      a * 2 ^ 56 + b * 2 ^ 48 + c * 2 ^ 40 + d * 2 ^ 32 + e * 2 ^ 24 + f * 2 ^ 16 + g * 2 ^ 8 + h,
      s,
    )
read_length _ = none

-- How the loop of `ReceiveResult` ends.
pub data Parsed : Type 0 where
  parsed : List Bytes → Parsed
  -- the loop reads memory behind the received string, or `std::string` throws on an excessive length
  over_read : Parsed
  out_of_fuel : Parsed

abbrev pub prepend : Bytes → Parsed → Parsed
prepend x (parsed xs) = parsed (x ∷ xs)
prepend x over_read = over_read
prepend x out_of_fuel = out_of_fuel

-- `while (offset < data_len)`, on the bytes from the offset on.
unfoldable pub parse_loop : ℕ → Bytes → Parsed
unfolding read_length read_item
parse_loop fuel [] = parsed []
parse_loop zero (b ∷ s) = out_of_fuel
parse_loop (suc fuel) (b ∷ s) = elim (read_length (b ∷ s)) [
  | none ↦ over_read
  | some (len, r) ↦ elim (read_item len r) [
    | none ↦ over_read
    | some (item, rest) ↦ prepend item (parse_loop fuel rest)
  ]
]

-- Each round takes eight bytes at least, so the length of the message is fuel enough.
unfoldable pub parse : Bytes → Parsed
unfolding parse_loop
parse s = parse_loop (length s) s

pub read_length-htonll :
    (n : ℕ) (s : Bytes) → n < 2 ^ 64 → read_length (htonll n ++ s) ≡ some (n, s)
unfolding read_length htonll
read_length-htonll n s h = ap (λ (m : ℕ). some (m, s)) (omega arith)

pub read_item-append : (x s : Bytes) → read_item (length x) (x ++ s) ≡ some (x, s)
unfolding read_item
read_item-append [] s = refl
read_item-append (b ∷ x) s = ground (arith, read_item-append x s)

-- An item whose length fits in eight bytes.
abbrev pub Fits : Bytes → Type 0
Fits x = length x < 2 ^ 64

abbrev pub IsByte : ℕ → Type 0
IsByte b = b < 256

pub parse_loop_step :
    (fuel : ℕ) (s r item rest : Bytes) (len : ℕ)
    → read_length s ≡ some (len, r)
    → read_item len r ≡ some (item, rest)
    → parse_loop (suc fuel) s ≡ prepend item (parse_loop fuel rest)
unfolding parse_loop
parse_loop_step fuel [] r item rest len e f = cc
parse_loop_step fuel (b ∷ s) r item rest len e f = rw (e, parse_loop) (rw (f, parse_loop))

parse_loop-encode :
    (xs : List Bytes) (fuel : ℕ)
    → All Fits xs
    → length xs ≤ fuel
    → parse_loop fuel (encode xs) ≡ parsed xs
unfolding encode
parse_loop-encode [] zero h enough = unfold parse_loop in refl
parse_loop-encode [] (suc fuel) h enough = unfold parse_loop in refl
parse_loop-encode (x ∷ xs) zero h enough = absurd (omega arith)
parse_loop-encode (x ∷ xs) (suc fuel) h enough =
    parse_loop_step fuel (encode (x ∷ xs)) (x ++ encode xs) x (encode xs) (length x)
      (read_length-htonll (length x) (x ++ encode xs) h.0) (read_item-append x (encode xs))
    ∙ ap (prepend x) (parse_loop-encode xs fuel h.1 (omega arith))

length-le-encode : (xs : List Bytes) → length xs ≤ length (encode xs)
unfolding encode
length-le-encode [] = omega arith
length-le-encode (x ∷ xs) = omega (arith, length-le-encode xs, length-append x (encode xs))

-- What `BroadcastResult` sends is what `ReceiveResult` takes apart: for items of less than 2^64
-- bytes the receiver's loop ends and pushes exactly the sender's items, in their order.
pub parse-encode : (xs : List Bytes) → All Fits xs → parse (encode xs) ≡ parsed xs
unfolding parse
parse-encode xs h = parse_loop-encode xs (length (encode xs)) h (length-le-encode xs)
