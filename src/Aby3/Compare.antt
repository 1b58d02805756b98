-- ===== src/Aby3/Compare.antt =====
-- src/primihub/operator/aby3_operator.{h,cc}: `MPC_Compare`, which compares the values of two parties;
-- the third gives none. `all_party_shape` is what the parties have told each other.
use primihub.Prelude.{
  ℕ, suc, ◌*◌, ◌%◌, ◌^◌, Bool, true, false, ◌&&◌, ◌||◌, Option, none, some, List, [], ◌∷◌, map,
  nat_beq, if◌then◌else◌, length,
}
use primihub.Aby3.Share.{word_neg}

-- Rows and columns.
abbrev pub Shape : Type 0
Shape = ℕ × ℕ

abbrev pub is_empty_shape : Shape → Bool
is_empty_shape (r, c) = nat_beq r 0 && nat_beq c 0

abbrev pub same_shape : Shape → Shape → Bool
same_shape (r, c) (s, d) = nat_beq r s && nat_beq c d

-- The loop for `skip_index`, in which `none` is -1; the result `none` is an exception.
unfoldable pub find_skip : ℕ → List Shape → Option ℕ → Option (Option ℕ)
find_skip i [] skip_index = some skip_index
find_skip i (s ∷ shapes) skip_index = elim (is_empty_shape s) [
  | true ↦ elim skip_index [ none ↦ find_skip (suc i) shapes (some i) | some k ↦ none ]
  | false ↦ find_skip (suc i) shapes skip_index
]

-- Moves the two shapes that count to the front, and compares them.
unfoldable pub agreed_shape : ℕ → Shape → Shape → Shape → Option Shape
agreed_shape skip_index s0 s1 s2 =
    let (t0, t1) : Shape × Shape =
      if nat_beq skip_index 0
      then (s1, s2)
      else if nat_beq skip_index 2
      then (s0, s1)
      else (s0, s2) in
    if same_shape t0 t1 then some t0 else none

-- `MPC_Compare` of a party with a matrix: who gives no values, and the number of elements, a
-- `uint64_t`. `none` is an exception.
unfoldable pub compare_elements : Shape → Shape → Shape → Option (ℕ × ℕ)
unfolding find_skip agreed_shape
compare_elements s0 s1 s2 = elim (find_skip 0 (s0 ∷ s1 ∷ s2 ∷ []) none) [
  | some (some skip_index) ↦ elim (agreed_shape skip_index s0 s1 s2) [
    | none ↦ none
    | some (r, c) ↦ some (skip_index, r * c % 2 ^ 64)
  ]
  | _ ↦ none
]

-- `MPC_Compare` of the party without a matrix: the number of elements, a `uint32_t`.
unfoldable pub compare_elements_absent : ℕ → Shape → Shape → Shape → Option ℕ
unfolding agreed_shape
compare_elements_absent party_idx s0 s1 s2 = elim (agreed_shape party_idx s0 s1 s2) [
  | none ↦ none
  | some (r, c) ↦ some (r * c % 2 ^ 32)
]

-- "Set value to it's negative for some party", and "Recover original value".
unfoldable pub change_sign : ℕ → ℕ → List ℕ → List ℕ
change_sign skip_index party_idx m =
    if nat_beq skip_index 0 || nat_beq skip_index 1
    then (if nat_beq party_idx 2 then map word_neg m else m)
    else (if nat_beq party_idx 1 then map word_neg m else m)

-- What is shared, in `sh_m_vec`: the matrices of the parties from `i` on but for the one that is skipped.
unfoldable pub shared_inputs : ℕ → ℕ → List (List ℕ) → List (List ℕ)
unfolding change_sign
shared_inputs skip_index i [] = []
shared_inputs skip_index i (m ∷ ms) =
    let rest = shared_inputs skip_index (suc i) ms in
    if nat_beq i skip_index then rest else change_sign skip_index i m ∷ rest

-- `asyncEvaluate` on each element; `msb` is the circuit `int_int_add_msb`.
unfoldable pub evaluate_circuit : (ℕ → ℕ → Bool) → List ℕ → List ℕ → List Bool
evaluate_circuit msb (x ∷ xs) (y ∷ ys) = msb x y ∷ evaluate_circuit msb xs ys
evaluate_circuit msb _ _ = []

-- The number of elements, if the party without a matrix, which counts in 32 bits, has the same number as
-- the others, and their matrices have so many. Else the parties share matrices of different sizes,
-- which the library is not made for: `none`.
unfoldable pub agreed_elements : ℕ → Option ℕ → List ℕ → List ℕ → Option ℕ
agreed_elements num_elem none a b = none
agreed_elements num_elem (some absent) a b =
    if nat_beq num_elem absent && (nat_beq (length a) num_elem && nat_beq (length b) num_elem)
    then some num_elem
    else none

-- The run of the three parties, revealed.
unfoldable pub mpc_compare :
    (ℕ → ℕ → Bool) → (Shape × List ℕ) → (Shape × List ℕ) → (Shape × List ℕ) → Option (List Bool)
unfolding compare_elements compare_elements_absent agreed_elements shared_inputs evaluate_circuit
mpc_compare msb (s0, m0) (s1, m1) (s2, m2) = elim (compare_elements s0 s1 s2) [
  | none ↦ none
  | some (skip_index, num_elem) ↦ elim (shared_inputs skip_index 0 (m0 ∷ m1 ∷ m2 ∷ [])) [
    | a ∷ b ∷ _ ↦
        elim (agreed_elements num_elem (compare_elements_absent skip_index s0 s1 s2) a b) [
          | none ↦ none
          | some k ↦ some (evaluate_circuit msb a b)
        ]
    | _ ↦ none
  ]
]
