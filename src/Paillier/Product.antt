-- ===== src/Paillier/Product.antt =====
-- src/primihub/algorithm/opt_paillier/src/crt_datapack.cc: the moduli and their product.
use primihub.Prelude.{
  ℕ, zero, suc, ◌*◌, ◌/◌, ◌<◌, ◌≡◌, refl, sym, ap, subst, List, [], ◌∷◌, arith, take, All,
}
use Prim.Native.Nat.{◌∣◌}
use native.Mathlib.Nat.{
  dvd-mul_left, dvd-mul_right, dvd-mul_left_of_dvd, dvd-mul_right_of_dvd, mul-div_assoc,
  mul-div_right, mul_assoc, mul_left_comm,
}
use primihub.Paillier.Crt.{product}

-- Each modulus divides what it should: the product, and the product without another one.
abbrev pub IsReady : ℕ → List ℕ → Type 0
IsReady muls [] = Unit
IsReady muls (m ∷ ms) =
    (m ∣ muls) × All (λ k. m ∣ muls / k) ms × All (λ k. k ∣ muls / m) ms × IsReady muls ms

abbrev product_all : List ℕ → ℕ
product_all [] = 1
product_all (m ∷ ms) = m * product_all ms

pub product-take : (n : ℕ) (ms : List ℕ) → product n ms ≡ product_all (take n ms)
unfolding product
product-take zero ms = refl
product-take (suc n) [] = refl
product-take (suc n) (m ∷ ms) = ap (λ p. m * p) (product-take n ms)

map-All : {P Q : ℕ → Type 0} (ms : List ℕ) → ((m : ℕ) → P m → Q m) → All P ms → All Q ms
map-All [] f h = tt
map-All (m ∷ ms) f h = (f m h.0, map-All ms f h.1)

-- A factor `c` besides.
divides_product : (c : ℕ) (ms : List ℕ) → All (λ m. m ∣ c * product_all ms) ms
divides_product c [] = tt
divides_product c (m ∷ ms) = (
  dvd-mul_left_of_dvd m (dvd-mul_right m (product_all ms)) c,
  subst (λ p. All (λ k. k ∣ p) ms) (mul_assoc c m (product_all ms)) (divides_product (c * m) ms),
)

pub product_all-IsReady :
    (k : ℕ) (ms : List ℕ) → All (λ m. zero < m) ms → IsReady (k * product_all ms) ms
product_all-IsReady k [] h = tt
product_all-IsReady k (m ∷ ms) h =
    let all : All (λ j. j ∣ product_all ms) ms =
      subst (λ p. All (λ j. j ∣ p) ms) (omega arith) (divides_product 1 ms) in
    (
      dvd-mul_left_of_dvd m (dvd-mul_right m (product_all ms)) k,
      map-All ms
          (λ j d.
            rw (sym (mul_assoc k m (product_all ms)), mul-div_assoc j (k * m) d)
              (dvd-mul_right_of_dvd m (dvd-mul_left m k) (product_all ms / j)))
          all,
      map-All ms
          (λ j d.
            rw (mul_left_comm k m (product_all ms), mul-div_right (k * product_all ms) h.0)
              (dvd-mul_left_of_dvd j d k))
          all,
      subst (λ p. IsReady p ms) (mul_assoc k m (product_all ms))
          (product_all-IsReady (k * m) ms h.1),
    )
