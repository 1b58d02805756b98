-- ===== src/Paillier/Retrieve.antt =====
-- src/primihub/algorithm/opt_paillier/src/crt_datapack.cc: what is packed is retrieved.
use primihub.Prelude.{
  ℕ, zero, suc, ◌+◌, ◌-◌, ◌*◌, ◌/◌, ◌%◌, ◌≤◌, ◌<◌, ◌≡◌, refl, sym, ap, subst, ◌∙◌, some, List, [],
  ◌∷◌, arith, length, take, All,
}
use Prim.Native.Nat.{◌∣◌}
use native.Mathlib.Nat.{
  dvd-mul_left_of_dvd, dvd-mul_right_of_dvd, mod-mod_of_dvd, mod-eq-zero_of_dvd, mod-eq_of_lt,
  add-mod, mod-mod, div-add-mod, add-mul-mod_self_left, mul_assoc, mul_left_comm, mul-add,
}
use primihub.Paillier.Crt.{
  ℤ, pos, negsuc, residue, product, primes, init_crt, pack_loop, data_packing_crt, centered,
  retrieve_loop, data_retrieve_crt, halves,
}
use primihub.Paillier.Product.{IsReady, product-take, product_all-IsReady}

-- From `-(m - m / 2)` up to, and without, `m / 2`.
abbrev IsCentered : ℕ → ℤ → Type 0
IsCentered m (pos n) = n < m / 2
IsCentered m (negsuc n) = suc n ≤ m - m / 2

-- For each number with its modulus.
abbrev pub AllCentered : List ℤ → List ℕ → Type 0
AllCentered [] ms = Unit
AllCentered (x ∷ seq) [] = ⊥
AllCentered (x ∷ seq) (m ∷ ms) = (1 < m) × IsCentered m x × AllCentered seq ms

-- `mpz_invert` finds an inverse of each coefficient.
abbrev pub AreInverted : (ℕ → ℕ → ℕ) → ℕ → List ℕ → Type 0
AreInverted invert muls ms = All (λ m. muls / m * invert (muls / m) m % m ≡ 1) ms

centered-residue :
    (m : ℕ) (x : ℤ) → 1 < m → IsCentered m x → centered (residue x m % m) (m / 2) m ≡ x
unfolding centered residue
centered-residue m (pos n) h k =
    rw (mod-eq_of_lt {n = n} {m = m} (omega (arith, h, k))) (ground (arith, h, k))
centered-residue m (negsuc n) h k =
    let small : n < m = omega (arith, k) in
    let low : m - suc n < m = omega (arith, h) in
    let once : (m - suc n) % m ≡ m - suc n = mod-eq_of_lt low in
    ground (arith, small, once, k, h, ap (λ c. c % m) once)

zero_plus : (n : ℕ) → 0 + n ≡ n
zero_plus n = omega arith

plus_zero : (n : ℕ) → n + 0 ≡ n
plus_zero n = omega arith

-- A term of another modulus does not count.
step-other :
    (m muls res r coef inv : ℕ) → m ∣ muls → m ∣ coef → (res + r * coef * inv) % muls % m ≡ res % m
step-other m muls res r coef inv h d =
    let gone : r * coef * inv % m ≡ 0 =
      mod-eq-zero_of_dvd m (dvd-mul_right_of_dvd m (dvd-mul_left_of_dvd m d r) inv) in
    mod-mod_of_dvd m (res + r * coef * inv) h
    ∙ add-mod res (r * coef * inv) m
    ∙ rw gone (ap (λ n. n % m) (plus_zero (res % m)) ∙ mod-mod res m)

-- The term of the modulus counts as its residue.
step-own :
    (m muls res r coef inv : ℕ)
    → m ∣ muls
    → coef * inv % m ≡ 1
    → res % m ≡ 0
    → (res + r * coef * inv) % muls % m ≡ r % m
step-own m muls res r coef inv h d z =
    mod-mod_of_dvd m (res + r * coef * inv) h ∙ add-mod res (r * coef * inv) m ∙ own
  where
    q : ℕ
    q = coef * inv / m

    whole : r * coef * inv ≡ r + m * (r * q)
    whole =
        mul_assoc r coef inv
        ∙ ap (λ n. r * n) (sym (div-add-mod (coef * inv) m))
        ∙ rw d (rw (mul-add r (m * q) 1) (rw (mul_left_comm r m q) (omega arith)))

    own : (res % m + r * coef * inv % m) % m ≡ r % m
    own =
        rw (z, whole, add-mul-mod_self_left r m (r * q))
          (ap (λ n. n % m) (zero_plus (r % m)) ∙ mod-mod r m)

pack_loop-other :
    (invert : ℕ → ℕ → ℕ) (m muls : ℕ) (seq : List ℤ) (ms : List ℕ) (res : ℕ)
    → m ∣ muls
    → All (λ k. m ∣ muls / k) (take (length seq) ms)
    → pack_loop invert muls seq ms res % m ≡ res % m
unfolding pack_loop
pack_loop-other invert m muls [] ms res h d = refl
pack_loop-other invert m muls (x ∷ seq) [] res h d = refl
pack_loop-other invert m muls (x ∷ seq) (k ∷ ms) res h d =
    pack_loop-other invert m muls seq ms _ h d.1
    ∙ step-other m muls res (residue x k) (muls / k) (invert (muls / k) k) h d.0

zeros :
    (muls res r coef inv : ℕ) (ms : List ℕ)
    → IsReady muls ms
    → All (λ k. k ∣ coef) ms
    → All (λ k. res % k ≡ 0) ms
    → All (λ k. (res + r * coef * inv) % muls % k ≡ 0) ms
zeros muls res r coef inv [] d e z = tt
zeros muls res r coef inv (k ∷ ms) d e z =
    (step-other k muls res r coef inv d.0 e.0 ∙ z.0, zeros muls res r coef inv ms d.3 e.1 z.1)

retrieve-pack_loop :
    (invert : ℕ → ℕ → ℕ) (muls : ℕ) (seq : List ℤ) (ms : List ℕ) (res : ℕ)
    → IsReady muls (take (length seq) ms)
    → AreInverted invert muls (take (length seq) ms)
    → AllCentered seq ms
    → All (λ m. res % m ≡ 0) (take (length seq) ms)
    → retrieve_loop (pack_loop invert muls seq ms res) ms (halves ms) (length seq) ≡ seq
unfolding pack_loop retrieve_loop
retrieve-pack_loop invert muls [] [] res d i c z = refl
retrieve-pack_loop invert muls [] (m ∷ ms) res d i c z = refl
retrieve-pack_loop invert muls (x ∷ seq) [] res d i c z = absurd c
retrieve-pack_loop invert muls (x ∷ seq) (m ∷ ms) res d i c z =
    let coef = muls / m in
    let next = (res + residue x m * coef * invert coef m) % muls in
    let here : pack_loop invert muls seq ms next % m ≡ residue x m % m =
      pack_loop-other invert m muls seq ms next d.0 d.1
      ∙ step-own m muls res (residue x m) coef (invert coef m) d.0 i.0 z.0 in
    let rest =
      retrieve-pack_loop invert muls seq ms next d.3 i.1 c.2
        (zeros muls res (residue x m) coef (invert coef m) (take (length seq) ms) d.3 d.2 z.1) in
    cc (ap (λ r. centered r (m / 2) m) here, centered-residue m x c.0 c.1, rest)

AllCentered-positive :
    (seq : List ℤ) (ms : List ℕ) → AllCentered seq ms → All (λ m. zero < m) (take (length seq) ms)
AllCentered-positive [] ms c = tt
AllCentered-positive (x ∷ seq) [] c = absurd c
AllCentered-positive (x ∷ seq) (m ∷ ms) c = (omega (arith, c.0), AllCentered-positive seq ms c.2)

zero-All : (ms : List ℕ) → All (λ m. zero < m) ms → All (λ m. 0 % m ≡ 0) ms
zero-All [] h = tt
zero-All (m ∷ ms) h = (mod-eq_of_lt h.0, zero-All ms h.1)

product-IsReady :
    (n : ℕ) (ms : List ℕ) → All (λ m. zero < m) (take n ms) → IsReady (product n ms) (take n ms)
product-IsReady n ms h =
    rw (product-take n ms)
      (subst (λ p. IsReady p (take n ms)) (omega arith) (product_all-IsReady 1 (take n ms) h))

-- The moduli of `init_crt`, and an inverse for each coefficient: numbers that are no more than there are
-- moduli, each between minus its half modulus and its half modulus, are packed, and the pack gives back
-- the same numbers.
pub data_retrieve_crt-data_packing_crt :
    (invert : ℕ → ℕ → ℕ) (next_prime : ℕ → ℕ) (cur crt_size mod_size : ℕ) (seq : List ℤ)
    → length seq ≤ crt_size
    → AllCentered seq (primes next_prime cur crt_size)
    → AreInverted invert
        (product (length seq) (primes next_prime cur crt_size))
        (take (length seq) (primes next_prime cur crt_size))
    → (pack : ℕ) × (data_packing_crt invert seq (init_crt next_prime cur crt_size mod_size)
        ≡ some pack)
      × (data_retrieve_crt pack (init_crt next_prime cur crt_size mod_size) (length seq) ≡ some seq)
unfolding init_crt data_packing_crt data_retrieve_crt
data_retrieve_crt-data_packing_crt invert next_prime cur crt_size mod_size seq h c i =
    let ms = primes next_prime cur crt_size in
    let muls = product (length seq) ms in
    let positive = AllCentered-positive seq ms c in
    let back : retrieve_loop (pack_loop invert muls seq ms 0) ms (halves ms) (length seq) ≡ seq =
      retrieve-pack_loop invert muls seq ms 0 (product-IsReady (length seq) ms positive) i c
        (zero-All (take (length seq) ms) positive) in
    (pack_loop invert muls seq ms 0, ground (arith, h), ground (arith, h, back))
