-- ===== src/Aby3/Tests.antt =====
-- Three parties that hold 5 and 2^64 - 1, in parts.
use primihub.Prelude.{ℕ, ◌^◌, ◌≡◌, refl, Bool, true, false, some, [], ◌∷◌, arith, leb}
use primihub.Aby3.Share.{Views, word_add}
use primihub.Aby3.Compare.{mpc_compare}
use primihub.Aby3.Less.{third1, mpc_compare-less}

abbrev parts : Views
parts = (
  (1 ∷ 7 ∷ [], 3 ∷ 18446744073709551600 ∷ []),
  (1 ∷ 8 ∷ [], 1 ∷ 7 ∷ []),
  (3 ∷ 18446744073709551600 ∷ [], 1 ∷ 8 ∷ []),
)

abbrev topmost_bit : ℕ → ℕ → Bool
topmost_bit x y = leb (2 ^ 63) (word_add x y)

-- -1 is less than 3, and 4 is not less than 4.
mpc_compare-less_example :
    mpc_compare topmost_bit
      ((1, 2), 18446744073709551615 ∷ 4 ∷ [])
      ((0, 0), [])
      ((1, 2), 3 ∷ 4 ∷ [])
    ≡ some (true ∷ false ∷ [])
mpc_compare-less_example =
    mpc_compare-less topmost_bit third1 (1, 2) (18446744073709551615 ∷ 4 ∷ []) (3 ∷ 4 ∷ [])
      (λ x y hx hy. refl) refl refl (omega arith)
      (
        (omega arith, omega arith, omega arith, omega arith),
        ((omega arith, omega arith, omega arith, omega arith), tt),
      )
