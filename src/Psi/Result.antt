-- ===== src/Psi/Result.antt =====
-- src/primihub/kernel/psi/operator/base_psi.cc: `GetResult`, which picks the result's items out of the
-- input. The intersection is copied by concurrent tasks, a block of places each.
use primihub.Prelude.{
  ℕ, zero, suc, ◌+◌, ◌*◌, ◌/◌, ◌%◌, Bool, true, false, Option, none, some, List, [], ◌∷◌, ◌++◌, ltb,
  nat_beq, if◌then◌else◌, Bytes, length, get_elem?, set, replicate,
}

pub data PsiResultType : Type 0 where
  intersection difference : PsiResultType

pub data Picked : Type 0 where
  picked : List Bytes → Picked
  -- an index beyond the end of a vector is read
  out_of_range : Picked
  -- `reserve` of a size that wrapped around
  length_error : Picked

-- `result_index_set.find(i) == end()`.
unfoldable pub is_absent : ℕ → List ℕ → Bool
is_absent i [] = true
is_absent i (j ∷ js) = if nat_beq i j then false else is_absent i js

-- The items from place `i` on that no index names.
unfoldable pub difference_from : ℕ → List Bytes → List ℕ → List Bytes
unfolding is_absent
difference_from i [] index = []
difference_from i (x ∷ xs) index =
    let rest = difference_from (i + 1) xs index in if is_absent i index then x ∷ rest else rest

-- `input[intersection_index[index]]`.
unfoldable pub value_at : List Bytes → List ℕ → ℕ → Option Bytes
value_at input index i = elim (get_elem? index i) [ none ↦ none | some pos ↦ get_elem? input pos ]

-- The loop of one task: `count` places from `i` on.
unfoldable pub copy_block : List Bytes → List ℕ → ℕ → ℕ → List Bytes → Option (List Bytes)
unfolding value_at
copy_block input index zero i result = some result
copy_block input index (suc count) i result = elim (value_at input index i) [
  | none ↦ none
  | some x ↦ copy_block input index count (i + 1) (set result i x)
]

-- The first place and the number of places of each task.
abbrev pub Block : Type 0
Block = ℕ × ℕ

unfoldable pub full_blocks : ℕ → ℕ → ℕ → List Block
full_blocks block_size zero i = []
full_blocks block_size (suc n) i = (i * block_size, block_size) ∷ full_blocks block_size n (i + 1)

unfoldable pub blocks : ℕ → ℕ → List Block
unfolding full_blocks
blocks block_size size =
    full_blocks block_size (size / block_size) 0
    ++ (if nat_beq (size % block_size) 0
        then []
        else (size / block_size * block_size, size % block_size) ∷ [])

-- The tasks, in the order in which they run.
unfoldable pub run_blocks : List Bytes → List ℕ → List Block → List Bytes → Option (List Bytes)
unfolding copy_block
run_blocks input index [] result = some result
run_blocks input index ((i, count) ∷ bs) result = elim (copy_block input index count i result) [
  | none ↦ none
  | some r ↦ run_blocks input index bs r
]

abbrev pub block_size : ℕ
block_size = 10_000_000

-- `order` is the order in which the tasks happen to run.
unfoldable pub get_result : PsiResultType → List Block → List Bytes → List ℕ → Picked
unfolding difference_from run_blocks
get_result difference order input index =
    if ltb (length input) (length index)
    then length_error
    else picked (difference_from 0 input index)
get_result intersection order input index =
    elim (run_blocks input index order (replicate (length index) [])) [
      | none ↦ out_of_range
      | some r ↦ picked r
    ]

-- The items that the indices name, in the order of the indices.
unfoldable pub pick : List Bytes → List ℕ → Option (List Bytes)
pick input [] = some []
pick input (i ∷ is) = elim (get_elem? input i) [
  | none ↦ none
  | some x ↦ elim (pick input is) [ none ↦ none | some xs ↦ some (x ∷ xs) ]
]
