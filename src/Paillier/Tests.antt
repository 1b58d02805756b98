-- ===== src/Paillier/Tests.antt =====
-- 3 and -6 with the moduli 11 and 13.
use primihub.Prelude.{ℕ, ◌≡◌, refl, some, List, [], ◌∷◌, arith, nat_beq, if◌then◌else◌, take}
use primihub.Paillier.Crt.{
  ℤ, pos, negsuc, primes, product, init_crt, data_packing_crt, data_retrieve_crt,
}
use primihub.Paillier.Retrieve.{AllCentered, AreInverted, data_retrieve_crt-data_packing_crt}

abbrev next_prime : ℕ → ℕ
next_prime n = if nat_beq n 8 then 11 else 13

abbrev invert : ℕ → ℕ → ℕ
invert coef m = 6

abbrev numbers : List ℤ
numbers = pos 3 ∷ negsuc 5 ∷ []

numbers-AllCentered : AllCentered numbers (primes next_prime 8 2)
unfolding primes
numbers-AllCentered = (omega arith, omega arith, (omega arith, omega arith, tt))

numbers-AreInverted :
    AreInverted invert (product 2 (primes next_prime 8 2)) (take 2 (primes next_prime 8 2))
unfolding primes product
numbers-AreInverted = (refl, (refl, tt))

data_retrieve_crt-data_packing_crt_example :
    (pack : ℕ) × (data_packing_crt invert numbers (init_crt next_prime 8 2 3) ≡ some pack)
    × (data_retrieve_crt pack (init_crt next_prime 8 2 3) 2 ≡ some numbers)
data_retrieve_crt-data_packing_crt_example =
    data_retrieve_crt-data_packing_crt invert next_prime 8 2 3 numbers (omega arith)
      numbers-AllCentered numbers-AreInverted

-- The half modulus itself comes back as its negative, less one.
half_wraps : data_retrieve_crt 5 (init_crt next_prime 8 2 3) 1 ≡ some (negsuc 5 ∷ [])
unfolding init_crt data_retrieve_crt primes
half_wraps = refl
