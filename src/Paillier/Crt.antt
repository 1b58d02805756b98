-- ===== src/Paillier/Crt.antt =====
-- src/primihub/algorithm/opt_paillier/src/crt_datapack.cc: packing by the Chinese remainder theorem.
-- The numbers are those of GMP, without bound; a string of digits stands as its number.
use primihub.Prelude.{
  ℕ, zero, suc, ◌+◌, ◌-◌, ◌*◌, ◌/◌, ◌%◌, Option, none, some, List, [], ◌∷◌, ltb, leb, if◌then◌else◌,
  length,
}

-- Integers: `pos n` is `n`, and `negsuc n` is `-(n + 1)`.
pub data ℤ : Type 0 where
  pos negsuc : ℕ → ℤ

pub record CrtMod : Type 0 where
  pub crt_mod : List ℕ
  pub crt_half_mod : List ℕ
  pub crt_size : ℕ
  pub mod_size : ℕ

-- The primes after `cur`; `next_prime` is `mpz_nextprime`.
unfoldable pub primes : (ℕ → ℕ) → ℕ → ℕ → List ℕ
primes next_prime cur zero = []
primes next_prime cur (suc n) = next_prime cur ∷ primes next_prime (next_prime cur) n

abbrev pub halves : List ℕ → List ℕ
halves [] = []
halves (m ∷ ms) = m / 2 ∷ halves ms

-- `cur` is the random number whose bit `mod_size` is set.
unfoldable pub init_crt : (ℕ → ℕ) → ℕ → ℕ → ℕ → CrtMod
unfolding primes
init_crt next_prime cur crt_size mod_size =
    let crt_mod = primes next_prime cur crt_size in
    record {
      crt_mod = crt_mod;
      crt_half_mod = halves crt_mod;
      crt_size = crt_size;
      mod_size = mod_size;
    }

-- A negative number is increased by the modulus, and reduced to its remainder, which is not negative.
unfoldable pub residue : ℤ → ℕ → ℕ
residue (pos n) m = n
residue (negsuc n) m = if ltb n m then (m - suc n) % m else m - 1 - (n - m) % m

-- The product of the first moduli.
unfoldable pub product : ℕ → List ℕ → ℕ
product zero ms = 1
product (suc n) [] = 1
product (suc n) (m ∷ ms) = m * product n ms

-- The loop; `invert` is `mpz_invert`.
unfoldable pub pack_loop : (ℕ → ℕ → ℕ) → ℕ → List ℤ → List ℕ → ℕ → ℕ
unfolding residue
pack_loop invert muls (x ∷ seq) (m ∷ crt_mod) res =
    let coef = muls / m in
    pack_loop invert muls seq crt_mod ((res + residue x m * coef * invert coef m) % muls)
pack_loop invert muls _ _ res = res

-- `none` is an exception.
unfoldable pub data_packing_crt : (ℕ → ℕ → ℕ) → List ℤ → CrtMod → Option ℕ
unfolding product pack_loop
data_packing_crt invert seq crtmod =
    if ltb crtmod.crt_size (length seq)
    then none
    else some (pack_loop invert (product (length seq) crtmod.crt_mod) seq crtmod.crt_mod 0)

-- A remainder from the half of the modulus on is reduced by the modulus.
unfoldable pub centered : ℕ → ℕ → ℕ → ℤ
centered cur half m =
    if leb half cur then (if leb m cur then pos (cur - m) else negsuc (m - suc cur)) else pos cur

unfoldable pub retrieve_loop : ℕ → List ℕ → List ℕ → ℕ → List ℤ
unfolding centered
retrieve_loop pack (m ∷ crt_mod) (half ∷ crt_half_mod) (suc n) =
    centered (pack % m) half m ∷ retrieve_loop pack crt_mod crt_half_mod n
retrieve_loop pack _ _ _ = []

unfoldable pub data_retrieve_crt : ℕ → CrtMod → ℕ → Option (List ℤ)
unfolding retrieve_loop
data_retrieve_crt pack crtmod data_size =
    if ltb crtmod.crt_size data_size
    then none
    else some (retrieve_loop pack crtmod.crt_mod crtmod.crt_half_mod data_size)
