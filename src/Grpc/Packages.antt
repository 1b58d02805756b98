-- ===== src/Grpc/Packages.antt =====
-- The packages of src/primihub/util/network/grpc_link_context.cc and src/primihub/node/node_interface.cc: how
-- many there are, how long, and that they are the data.
use primihub.Prelude.{
  ℕ, zero, suc, ◌+◌, ◌-◌, ◌/◌, ◌≤◌, ◌<◌, min, ◌≡◌, refl, sym, ap, ◌∙◌, inl, inr, some, List, [],
  ◌∷◌, ◌++◌, map, append-nil, arith, ltb, Bool-cases, Bytes, length, take, drop, length-drop,
  length-take, All, length-map, success,
}
use native.Mathlib.Nat.{div-eq_of_lt, div-eq-sub-div}
use primihub.Grpc.{
  TaskRequest, part, build_loop, TaskContext, TaskResponse, build_task_request, build_task_response,
  limited_package_size,
}

-- The bytes of a stream, one message after the other: `append` of each message's data.
unfoldable pub joined : List Bytes → Bytes
joined [] = []
joined (b ∷ r) = b ++ joined r

pub take-append_drop {ℓ} : {A : Type ℓ} (n : ℕ) (xs : List A) → take n xs ++ drop n xs ≡ xs
take-append_drop zero xs = refl
take-append_drop (suc n) [] = refl
take-append_drop (suc n) (x ∷ xs) = ap (◌∷◌ x) (take-append_drop n xs)

drop_nil {ℓ} : {A : Type ℓ} (n : ℕ) → drop {A = A} n [] ≡ []
drop_nil zero = refl
drop_nil (suc n) = refl

pub take_all {ℓ} : {A : Type ℓ} (n : ℕ) (xs : List A) → length xs ≤ n → take n xs ≡ xs
take_all zero [] h = refl
take_all zero (x ∷ xs) h = absurd (omega arith)
take_all (suc n) [] h = refl
take_all (suc n) (x ∷ xs) h = ap (◌∷◌ x) (take_all n xs (omega arith))

pub drop-drop {ℓ} : {A : Type ℓ} (n m : ℕ) (xs : List A) → drop n (drop m xs) ≡ drop (m + n) xs
drop-drop n zero xs = let e : 0 + n ≡ n = omega arith in rw e
drop-drop n (suc m) [] = drop_nil n ∙ sym (drop_nil (suc m + n))
drop-drop n (suc m) (x ∷ xs) =
    let e : suc m + n ≡ suc (m + n) = omega arith in rw e (drop-drop n m xs)

-- What the loop makes of the bytes behind the first `s` ones.
abbrev Cut : ℕ → Bytes → ℕ → List Bytes → Type 0
Cut limit d s ps =
    (joined ps ≡ drop s d)
    × All (λ (b : Bytes). length b ≤ limit) ps
    × (length ps ≡ 1 + (length d - s - 1) / limit)

Cut-last :
    (limit : ℕ) (d : Bytes) (s : ℕ)
    → 0 < limit
    → length d - s ≤ limit
    → Cut limit d s (part limit d s ∷ [])
unfolding joined
Cut-last limit d s h k =
    let e : min limit (length d - s) ≡ length d - s = omega arith in
    let all : take (length d - s) (drop s d) ≡ drop s d =
      take_all (length d - s) (drop s d) (omega (arith, length-drop s d)) in
    let q : (length d - s - 1) / limit ≡ 0 = div-eq_of_lt (omega arith) in
    (
      rw (e, all) (append-nil (drop s d)),
      (rw (e, all) (omega (arith, length-drop s d)), tt),
      omega arith,
    )

Cut-more :
    (limit : ℕ) (d : Bytes) (s : ℕ) (ps : List Bytes)
    → 0 < limit
    → limit < length d - s
    → Cut limit d (s + limit) ps
    → Cut limit d s (part limit d s ∷ ps)
unfolding joined
Cut-more limit d s ps h k c =
    let e : min limit (length d - s) ≡ limit = omega arith in
    let f : drop (s + limit) d ≡ drop limit (drop s d) = sym (drop-drop limit s d) in
    let q : (length d - s - 1) / limit ≡ (length d - s - 1 - limit) / limit + 1 =
      div-eq-sub-div h (omega arith) in
    let r : length d - s - 1 - limit ≡ length d - (s + limit) - 1 = omega arith in
    (
      rw (e, c.0, f) (take-append_drop limit (drop s d)),
      (rw e (omega (arith, length-take limit (drop s d))), c.1),
      rw (q, r) (omega (arith, c.2)),
    )

-- With a limit that is not 0 and more fuel than bytes that are left, the loop ends.
build_loop-Cut {ℓ} :
    {A : Type ℓ} (make : Bytes → A) (limit : ℕ) (d : Bytes)
    → 0 < limit
    → (fuel s : ℕ) → s ≤ length d
    → length d - s < fuel
    → (ps : List Bytes) × (build_loop fuel limit make d s ≡ some (map make ps)) × Cut limit d s ps
unfolding build_loop
build_loop-Cut make limit d h zero s le f = absurd (omega arith)
build_loop-Cut make limit d h (suc fuel) s le f = elim (Bool-cases (ltb limit (length d - s))) [
  | inr e ↦ (part limit d s ∷ [], ground (arith, e), Cut-last limit d s h (ground (arith, e)))
  | inl e ↦
      let k : limit < length d - s = ground (arith, e) in
      let m : min limit (length d - s) ≡ limit = omega arith in
      let (ps, b, c) = build_loop-Cut make limit d h fuel (s + limit) (omega arith) (omega arith) in
      (part limit d s ∷ ps, ground (arith, b, m), Cut-more limit d s ps h k c)
]

joined-map {ℓ} :
    {A : Type ℓ} (make : Bytes → A) (get : A → Bytes)
    → ((b : Bytes) → get (make b) ≡ b)
    → (ps : List Bytes) → joined (map get (map make ps)) ≡ joined ps
unfolding joined
joined-map make get h [] = refl
joined-map make get h (p ∷ ps) = rw (h p, joined-map make get h ps)

All-map {ℓ κ} :
    {A : Type ℓ} {P : Bytes → Type 0} (Q : A → Type κ) (f : Bytes → A)
    → ((b : Bytes) → P b → Q (f b))
    → (ps : List Bytes) → All P ps
    → All Q (map f ps)
All-map Q f h [] a = tt
All-map Q f h (p ∷ ps) a = (h p a.0, All-map Q f h ps a.1)

-- What each request of a sender has: the task, the key, the length of the whole, and a package.
abbrev pub IsPackage : TaskContext → Bytes → Bytes → TaskRequest → Type 0
IsPackage info key d q =
    (q.task_info ≡ info)
    × (q.role ≡ key)
    × (q.data_len ≡ length d)
    × (length q.bytes ≤ limited_package_size)

abbrev pub request_bytes : TaskRequest → Bytes
request_bytes q = q.bytes

abbrev response_bytes : TaskResponse → Bytes
response_bytes q = q.bytes

-- The requests that carry data are well formed and no longer than the limit, their bytes in order are
-- the data, and there is one for each whole package and one for the rest: a message without data is
-- one empty request.
pub build_task_request_lem :
    (info : TaskContext) (key d : Bytes)
    → (qs : List TaskRequest) × (build_task_request info key d ≡ some qs)
      × (joined (map request_bytes qs) ≡ d)
      × All (IsPackage info key d) qs
      × (length qs ≡ 1 + (length d - 1) / limited_package_size)
unfolding build_task_request
build_task_request_lem info key d =
    let request : Bytes → TaskRequest =
      λ b. record { task_info = info; role = key; data_len = length d; bytes = b } in
    let (ps, e, c) =
      build_loop-Cut request limited_package_size d (omega arith) (suc (length d)) 0 (omega arith)
        (omega arith) in
    (
      map request ps,
      e,
      joined-map request request_bytes (λ b. refl) ps ∙ c.0,
      All-map (IsPackage info key d) request (λ b h. (refl, refl, refl, h)) ps c.1,
      length-map request ps
          ∙ c.2
          ∙ ap (λ (k : ℕ). 1 + (k - 1) / limited_package_size) (omega arith),
    )

-- The responses that carry data are successes whose bytes in order are the data.
build_task_response_lem :
    (d : Bytes)
    → (qs : List TaskResponse) × (build_task_response d ≡ some qs)
      × (joined (map response_bytes qs) ≡ d)
      × All (λ (q : TaskResponse). q.ret_code ≡ success) qs
unfolding build_task_response
build_task_response_lem d =
    let response : Bytes → TaskResponse =
      λ b. record { ret_code = success; msg_info = []; data_len = length d; bytes = b } in
    let (ps, e, c) =
      build_loop-Cut response limited_package_size d (omega arith) (suc (length d)) 0 (omega arith)
        (omega arith) in
    (
      map response ps,
      e,
      joined-map response response_bytes (λ b. refl) ps ∙ c.0,
      All-map (λ (q : TaskResponse). q.ret_code ≡ success) response (λ b h. refl) ps c.1,
    )
