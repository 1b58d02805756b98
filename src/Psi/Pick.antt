-- ===== src/Psi/Pick.antt =====
-- src/primihub/kernel/psi/operator/base_psi.cc: what `GetResult` returns, in whatever order its tasks
-- run.
use primihub.Prelude.{
  ℕ, zero, suc, ◌+◌, ◌<◌, ◌≡◌, refl, ap, inl, inr, true, Option, some, List, [], ◌∷◌, ◌++◌, arith,
  Bool-cases, Option-cases, Bytes, length, get_elem?, replicate,
}
use primihub.Psi.Result.{
  Block, pick, run_blocks, blocks, difference_from, get_result, is_absent, block_size, intersection,
  picked, difference,
}
use mathlib.Core.List.{Perm, perm_middle}
use mathlib.Core.List.Perm
use mathlib.Core.Logic.{∥∥₁_elim}
use primihub.Psi.Blocks.{InRange, pick-Picks, run_blocks-pick, blocks-Exact, Exact-Perm}

results_set : IsSet (Option (List Bytes))
results_set = hlevel

-- In the INTERSECTION mode, for indices that lie in the input, the result is the input's items at
-- those indices, one for each index and in the order of the indices, whatever the order in which the
-- concurrent tasks run.
pub get_result-intersection :
    (input : List Bytes) (index : List ℕ) (order : List Block)
    → InRange input index
    → Perm (blocks block_size (length index)) order
    → (xs : List Bytes) × (pick input index ≡ some xs)
      × (get_result intersection order input index ≡ picked xs)
unfolding get_result
get_result-intersection input index order h p =
    let (xs, e, m, w) = pick-Picks input index h in
    let same : run_blocks input index order (replicate (length index) []) ≡ pick input index =
      ∥∥₁_elim p (results_set _ _) (λ d.
        run_blocks-pick input index order h
          (Exact-Perm (length index) d (blocks-Exact block_size (length index) (omega arith)))) in
    (xs, e, rw (same, get_result) (rw (e, get_result)))

-- No index is given twice.
abbrev pub Distinct : List ℕ → Type 0
Distinct [] = Unit
Distinct (i ∷ is) = (is_absent i is ≡ true) × Distinct is

difference_from-nil : (i : ℕ) (input : List Bytes) → difference_from i input [] ≡ input
unfolding difference_from
difference_from-nil i [] = refl
difference_from-nil i (x ∷ xs) = ap (◌∷◌ x) (difference_from-nil (i + 1) xs)

-- An index before the place changes nothing.
difference_from-lt :
    (i j : ℕ) (input : List Bytes) (is : List ℕ)
    → j < i
    → difference_from i input (j ∷ is) ≡ difference_from i input is
unfolding difference_from
difference_from-lt i j [] is h = refl
difference_from-lt i j (x ∷ xs) is h =
    ground (arith, difference_from-lt (i + 1) j xs is (omega arith))

-- One more index takes one item away.
difference_from-cons :
    (first i j : ℕ) (input : List Bytes) (is : List ℕ) (x : Bytes)
    → j ≡ first + i
    → get_elem? input i ≡ some x
    → is_absent j is ≡ true
    → Perm (x ∷ difference_from first input (j ∷ is)) (difference_from first input is)
unfolding difference_from
difference_from-cons first i j [] is x q e a = absurd (ground (arith, e))
difference_from-cons first zero j (y ∷ ys) is x q e a =
    let f : j ≡ first = omega arith in
    let later = difference_from-lt (first + 1) j ys is (omega arith) in
    let left : x ∷ difference_from first (y ∷ ys) (j ∷ is) ≡ difference_from first (y ∷ ys) is =
      ground (arith, later, f, a, e) in
    rw left (Perm.refl _)
difference_from-cons first (suc i) j (y ∷ ys) is x q e a =
    let ih = difference_from-cons (first + 1) i j ys is x (omega arith) e a in
    let skip : is_absent first (j ∷ is) ≡ is_absent first is = ground arith in
    elim (Bool-cases (is_absent first is)) [
      | inl kept ↦ rw (skip, kept) (Perm.trans (Perm.swap _ _ _) (Perm.cons y ih))
      | inr gone ↦ rw (skip, gone) ih
    ]

pub pick-difference :
    (input : List Bytes) (index : List ℕ) (xs : List Bytes)
    → Distinct index
    → pick input index ≡ some xs
    → Perm (xs ++ difference_from 0 input index) input
unfolding pick
pick-difference input [] xs d e =
    let f : xs ≡ [] = ground (arith, e) in rw (f, difference_from-nil 0 input) (Perm.refl input)
pick-difference input (i ∷ is) xs d e = elim (Option-cases (get_elem? input i)) [
  | inl miss ↦ absurd (ground (arith, e, miss))
  | inr (x, at) ↦ elim (Option-cases (pick input is)) [
    | inl miss ↦ absurd (ground (arith, e, at, miss))
    | inr (zs, rest) ↦
        let f : xs ≡ x ∷ zs = ground (arith, e, at, rest) in
        rw f (
          Perm.trans (Perm.symm (perm_middle zs _)) (
            Perm.trans
              (Perm.append_left zs (difference_from-cons 0 i i input is x (omega arith) at d.0))
              (pick-difference input is zs d.1 rest)))
  ]
]

-- The two modes split the input: for distinct indices that lie in the input, the items that the
-- INTERSECTION mode returns, in whatever order its tasks run, together with those that the DIFFERENCE
-- mode returns are the items of the input, each as often as there.
get_result-partition :
    (input : List Bytes) (index : List ℕ) (order other : List Block)
    → InRange input index
    → Distinct index
    → Perm (blocks block_size (length index)) order
    → (xs ys : List Bytes) → get_result intersection order input index ≡ picked xs
    → get_result difference other input index ≡ picked ys
    → Perm (xs ++ ys) input
unfolding get_result
get_result-partition input index order other h d p xs ys ei ed =
    let (zs, e, q) = get_result-intersection input index order h p in
    let fx : zs ≡ xs = cc (q, ei) in
    let fy : difference_from 0 input index ≡ ys = ground (arith, ed) in
    rw fx at (rw fy at (pick-difference input index zs d e))
