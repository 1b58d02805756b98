-- ===== src/Psi/Blocks.antt =====
-- src/primihub/kernel/psi/operator/base_psi.cc: the blocks of the result that the tasks of `GetResult`
-- write.
use primihub.Prelude.{
  ℕ, zero, suc, ◌+◌, ◌*◌, ◌/◌, ◌%◌, ◌≤◌, ◌<◌, ◌≡◌, refl, sym, ap, ◌∙◌, inl, inr, Bool, true, false,
  ◌&&◌, ◌||◌, Option, some, List, [], ◌∷◌, ◌++◌, append-nil, arith, dec_lt, ltb, leb, nat_beq,
  if◌then◌else◌, Bool-cases, Bytes, length, get_elem?, All, set, replicate, length-replicate,
  length-set, get_elem?-set, get_elem?-ext, get_elem?-lt, All-mono, All-append,
}
use primihub.Psi.Result.{Block, copy_block, pick, run_blocks, value_at, full_blocks, blocks}
use mathlib.Core.List.{Permᴰ}
use native.Mathlib.Nat.{div-add-mod'}

-- Every index is a place of the input.
abbrev pub InRange : List Bytes → List ℕ → Type 0
InRange input index = All (λ i. i < length input) index

abbrev Picks : List Bytes → List ℕ → Option (List Bytes) → Type 0
Picks input index o =
    (xs : List Bytes) × (o ≡ some xs)
    × (length xs ≡ length index)
    × ((i : ℕ) → i < length index → get_elem? xs i ≡ value_at input index i)

pub pick-Picks :
    (input : List Bytes) (index : List ℕ)
    → InRange input index
    → Picks input index (pick input index)
unfolding pick value_at
pick-Picks input [] h = ([], refl, refl, λ i lt. elim lt [ ])
pick-Picks input (j ∷ js) h =
    let (x, e) = get_elem?-lt input j h.0 in
    let (xs, q, l, v) = pick-Picks input js h.1 in
    (x ∷ xs, ground (arith, e, q), omega (arith, l), values x xs e v)
  where
    values :
        (x : Bytes) (xs : List Bytes)
        → get_elem? input j ≡ some x
        → ((i : ℕ) → i < length js → get_elem? xs i ≡ value_at input js i)
        → (i : ℕ) → i < suc (length js)
        → get_elem? (x ∷ xs) i ≡ value_at input (j ∷ js) i
    values x xs e v zero lt = sym e
    values x xs e v (suc i) lt = v i (omega arith)

value_at-some :
    (input : List Bytes) (index : List ℕ) (i : ℕ)
    → InRange input index
    → i < length index
    → (x : Bytes) × (value_at input index i ≡ some x)
unfolding value_at
value_at-some input [] i h lt = elim lt [ ]
value_at-some input (j ∷ js) zero h lt = get_elem?-lt input j h.0
value_at-some input (j ∷ js) (suc i) h lt = value_at-some input js i h.1 (omega arith)

-- The place lies in the block.
abbrev inside : ℕ → Block → Bool
inside i (first, count) = leb first i && ltb i (first + count)

pub covered : ℕ → List Block → Bool
covered i [] = false
covered i (b ∷ bs) = inside i b || covered i bs

abbrev Fills : List Bytes → List ℕ → (ℕ → Bool) → List Bytes → Option (List Bytes) → Type 0
Fills input index done result o =
    (r : List Bytes) × (o ≡ some r)
    × (length r ≡ length result)
    × ((i : ℕ) → get_elem? r i ≡ (if done i then value_at input index i else get_elem? result i))

copy_block-Fills :
    (input : List Bytes) (index : List ℕ) (count first : ℕ) (result : List Bytes)
    → InRange input index
    → length result ≡ length index
    → first + count ≤ length index
    → Fills input index
        (λ i. inside i (first, count))
        result
        (copy_block input index count first result)
unfolding copy_block
copy_block-Fills input index zero first result h l b = (result, refl, refl, λ i. ground arith)
copy_block-Fills input index (suc count) first result h l b =
    let (x, e) = value_at-some input index first h (omega arith) in
    let (r, q, k, v) =
      copy_block-Fills input index count (first + 1) (set result first x) h
        (length-set result first x ∙ l) (omega arith) in
    (
      r,
      ground (arith, e, q),
      k ∙ length-set result first x,
      λ i. ground (arith, v i, get_elem?-set result first i x, e),
    )

run_blocks-Fills :
    (input : List Bytes) (index : List ℕ) (bs : List Block) (result : List Bytes)
    → InRange input index
    → length result ≡ length index
    → All (λ b. b.0 + b.1 ≤ length index) bs
    → Fills input index (λ i. covered i bs) result (run_blocks input index bs result)
unfolding run_blocks covered
run_blocks-Fills input index [] result h l b = (result, refl, refl, λ i. refl)
run_blocks-Fills input index ((first, count) ∷ bs) result h l b =
    let (r, q, k, v) = copy_block-Fills input index count first result h l b.0 in
    let (s, p, m, w) = run_blocks-Fills input index bs r h (k ∙ l) b.1 in
    (s, ground (arith, q, p), m ∙ k, λ i. ground (arith, v i, w i))

full_blocks-covered :
    (block_size k i j : ℕ)
    → i * block_size ≤ j
    → j < (i + k) * block_size
    → covered j (full_blocks block_size k i) ≡ true
unfolding full_blocks covered
full_blocks-covered b zero i j lo hi = absurd (omega arith)
full_blocks-covered b (suc k) i j lo hi = elim (dec_lt j ((i + 1) * b)) [
  | yes p ↦ let q : j < i * b + b = omega arith in ground arith
  | no p ↦
      let ih = full_blocks-covered b k (i + 1) j (omega arith) (omega arith) in ground (arith, ih)
]

full_blocks-All :
    (block_size k i : ℕ) → All (λ b. b.0 + b.1 ≤ (i + k) * block_size) (full_blocks block_size k i)
unfolding full_blocks
full_blocks-All b zero i = tt
full_blocks-All b (suc k) i = (
  omega arith,
  All-mono (full_blocks b k (i + 1)) (λ c h. omega arith) (full_blocks-All b k (i + 1)),
)

All-Permᴰ {ℓ κ} : {A : Type ℓ} (P : A → Type κ) {xs ys : List A} → Permᴰ xs ys → All P xs → All P ys
All-Permᴰ P Permᴰ.nil h = tt
All-Permᴰ P (Permᴰ.cons e p) h = (rw e at h.0, All-Permᴰ P p h.1)
All-Permᴰ P (Permᴰ.swap e f) h = (rw f at h.1.0, (rw e at h.0, h.1.1))
All-Permᴰ P (Permᴰ.trans p q) h = All-Permᴰ P q (All-Permᴰ P p h)

covered-Permᴰ : (i : ℕ) {xs ys : List Block} → Permᴰ xs ys → covered i xs ≡ covered i ys
unfolding covered
covered-Permᴰ i Permᴰ.nil = refl
covered-Permᴰ i (Permᴰ.cons e p) = rw (e, covered-Permᴰ i p)
covered-Permᴰ i (Permᴰ.swap {a} {b} e f) = rw (← e, ← f) (ground arith)
covered-Permᴰ i (Permᴰ.trans p q) = covered-Permᴰ i p ∙ covered-Permᴰ i q

covered-append :
    (i : ℕ) (xs ys : List Block) → covered i (xs ++ ys) ≡ (covered i xs || covered i ys)
unfolding covered
covered-append i [] ys = refl
covered-append i (b ∷ xs) ys = ground (arith, covered-append i xs ys)

-- The tasks stay inside the result and write all of it.
abbrev Exact : ℕ → List Block → Type 0
Exact size bs = All (λ b. b.0 + b.1 ≤ size) bs × ((i : ℕ) → i < size → covered i bs ≡ true)

pub blocks-Exact : (block_size size : ℕ) → 0 < block_size → Exact size (blocks block_size size)
unfolding blocks covered
blocks-Exact b size h =
    let e = div-add-mod' size b in
    let full = full_blocks b (size / b) 0 in
    elim (Bool-cases (nat_beq (size % b) 0)) [
      | inl none_left ↦
          let z : size % b ≡ 0 = ground arith in
          rw (none_left, append-nil)
            (
              All-mono full (λ c k. omega (arith, e)) (full_blocks-All b (size / b) 0),
              λ i lt. full_blocks-covered b (size / b) 0 i (omega arith) (omega (arith, e, z)),
            )
      | inr some_left ↦ rw some_left (
        All-append _ full _
            (All-mono full (λ c k. omega (arith, e)) (full_blocks-All b (size / b) 0))
            (omega (arith, e), tt),
        λ i lt. elim (dec_lt i (size / b * b)) [
          | yes p ↦ ground (
            arith,
            covered-append i full ((size / b * b, size % b) ∷ []),
            full_blocks-covered b (size / b) 0 i (omega arith) (omega arith),
          )
          | no p ↦ ground (arith, covered-append i full ((size / b * b, size % b) ∷ []), e)
        ],
      )
    ]

pub Exact-Perm : (size : ℕ) {xs ys : List Block} → Permᴰ xs ys → Exact size xs → Exact size ys
Exact-Perm size p (inner, all) = (All-Permᴰ _ p inner, λ i lt. sym (covered-Permᴰ i p) ∙ all i lt)

pub run_blocks-pick :
    (input : List Bytes) (index : List ℕ) (order : List Block)
    → InRange input index
    → Exact (length index) order
    → run_blocks input index order (replicate (length index) []) ≡ pick input index
run_blocks-pick input index order h (inner, all) =
    let l = length-replicate {0} {A = Bytes} (length index) [] in
    let (r, q, k, v) = run_blocks-Fills input index order (replicate (length index) []) h l inner in
    let (xs, e, m, w) = pick-Picks input index h in
    let same : r ≡ xs =
      get_elem?-ext r xs (k ∙ l ∙ sym m) (λ i lt. ground (arith, v i, w i, all i, k, l)) in
    q ∙ ap some same ∙ sym e
