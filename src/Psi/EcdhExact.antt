-- ===== src/Psi/EcdhExact.antt =====
-- src/primihub/kernel/psi/operator/ecdh_psi.cc: what the client gets.
use primihub.Prelude.{
  ℕ, suc, ◌+◌, ◌%◌, ◌^◌, ◌<◌, ◌≡◌, refl, ap, subst, ◌∙◌, true, false, not, some, List, [], ◌∷◌,
  ◌++◌, arith, if◌then◌else◌, Bytes, has, length, get_elem?,
}
use mathlib.Core.List.{Perm}
use primihub.Grpc.Packages.{take_all}
use primihub.Psi.Ecdh.{
  parsed_part, frame, unframe, Library, copy_setup, run_ecdh, ServerSetup, client_messages, not_set,
  server_answer, client_finish, Structure, done, select, InitParam, gcs, bloom_filter,
}
use primihub.Psi.Message.{htonll, read_length-htonll, read_item-append, read_item, read_length}
use primihub.Psi.Result.{is_absent, difference_from, PsiResultType, difference, intersection}
use primihub.Psi.Blocks.{InRange, pick-Picks}
use primihub.Psi.Pick.{Distinct, pick-difference}

read_item-all : (s : Bytes) → read_item (length s) s ≡ some (s, [])
unfolding read_item
read_item-all [] = refl
read_item-all (b ∷ s) = ground (arith, read_item-all s)

unframe_step :
    (s r x q t y u : Bytes) (n m : ℕ)
    → read_length s ≡ some (n, r)
    → read_item n r ≡ some (x, q)
    → read_length q ≡ some (m, t)
    → read_item m t ≡ some (y, u)
    → parsed_part n x ≡ some x
    → parsed_part m y ≡ some y
    → unframe s ≡ some (x, y)
unfolding unframe
unframe_step s r x q t y u n m a b c d e f = ground (arith, a, b, c, d, e, f)

parsed_part-whole : (s : Bytes) → length s < 2 ^ 31 → parsed_part (length s) s ≡ some s
unfolding parsed_part
parsed_part-whole s h =
    let e : length s % 2 ^ 32 ≡ length s = omega arith in
    ground (arith, e, h, take_all (length s) s (omega arith))

unframe-frame :
    (r s : Bytes) → length r < 2 ^ 31 → length s < 2 ^ 31 → unframe (frame r s) ≡ some (r, s)
unfolding frame
unframe-frame r s h k =
    let a = read_length-htonll (length r) (r ++ (htonll (length s) ++ s)) (omega arith) in
    let b = read_item-append r (htonll (length s) ++ s) in
    let c = read_length-htonll (length s) s (omega arith) in
    let d = read_item-all s in
    unframe_step _ _ r _ _ s _ _ _ a b c d (parsed_part-whole r h) (parsed_part-whole s k)

-- The items of a list that are not in another, in their order.
unfoldable pub not_in : List Bytes → List Bytes → List Bytes
not_in ys [] = []
not_in ys (x ∷ xs) = let rest = not_in ys xs in if has x ys then rest else x ∷ rest

-- The places that a list of indices names are those of the items that are in the other list.
abbrev pub Matches : List Bytes → List Bytes → List ℕ → Type 0
Matches xs ys is = (i : ℕ) (x : Bytes) → get_elem? xs i ≡ some x → is_absent i is ≡ not (has x ys)

difference_from-not_in :
    (k : ℕ) (xs ys : List Bytes) (is : List ℕ)
    → ((i : ℕ) (x : Bytes) → get_elem? xs i ≡ some x → is_absent (k + i) is ≡ not (has x ys))
    → difference_from k xs is ≡ not_in ys xs
unfolding difference_from not_in
difference_from-not_in k [] ys is h = refl
difference_from-not_in k (x ∷ xs) ys is h =
    let first : is_absent k is ≡ not (has x ys) =
      subst (λ (j : ℕ). is_absent j is ≡ not (has x ys)) (omega arith) (h 0 x refl) in
    let rest =
      difference_from-not_in (k + 1) xs ys is (λ i y e.
        subst (λ (j : ℕ). is_absent j is ≡ not (has y ys)) (omega arith) (h (suc i) y e)) in
    ground (arith, first, rest)

copy_case :
    (b : Bytes) (t : Structure)
    → (t ≡ not_set → ⊥)
    → copy_setup (record { bits = b; structure = t }) ≡ some (record { bits = b; structure = t })
unfolding copy_setup
copy_case b (gcs n m) h = refl
copy_case b (bloom_filter n) h = refl
copy_case b not_set h = absurd (h refl)

module _ {C S Q : Type 0} (lib : Library C S Q) where
  -- What the library finds for these keys and inputs.
  abbrev pub found : C → S → List Bytes → List Bytes → List ℕ
  found client server xs ys =
      lib.find_matches client (lib.create_setup server (length xs) ys)
        (lib.process_request server (lib.create_request client xs))

  -- The answer to these inputs, and its two parts.
  abbrev AnswerFits : C → S → List Bytes → List Bytes → Type 0
  AnswerFits client server xs ys =
      (length (lib.put_response (lib.process_request server (lib.create_request client xs)))
        < 2 ^ 31)
      × (length (lib.put_setup (lib.create_setup server (length xs) ys)) < 2 ^ 31)

  finish_step :
      (type : PsiResultType) (client : C) (input : List Bytes) (m a b : Bytes) (s : ServerSetup)
      → unframe m ≡ some (a, b)
      → lib.get_setup b ≡ s
      → copy_setup s ≡ some s
      → client_finish lib type false client input m
        ≡ select type input (lib.find_matches client s (lib.get_response a))
  unfolding client_finish
  finish_step type client input [] a b s e g c =
      absurd (unfold unframe read_length in ground (arith, e))
  finish_step type client input (z ∷ m) a b s e g c = ground (arith, e, g, c)

  server_step :
      (server : S) (y : Bytes) (ys : List Bytes) (q : Q) (n : ℕ)
      → server_answer lib false server
          (y ∷ ys)
          (lib.put_param (record { dataset_size = some n; reveal_intersection = some true }))
          (lib.put_request q)
        ≡ done (
            frame
              (lib.put_response (lib.process_request server q))
              (lib.put_setup (lib.create_setup server n (y ∷ ys))))
  unfolding server_answer
  server_step server y ys q n =
      let p : InitParam = record { dataset_size = some n; reveal_intersection = some true } in
      ground (arith, lib.get_put_param p, lib.get_put_request q)

  run_ecdh-select :
      (type : PsiResultType) (client : C) (server : S) (x y : Bytes) (xs ys : List Bytes)
      → ((lib.create_setup server (length (x ∷ xs)) (y ∷ ys)).structure ≡ not_set → ⊥)
      → AnswerFits client server (x ∷ xs) (y ∷ ys)
      → run_ecdh lib type client server (x ∷ xs) (y ∷ ys)
        ≡ select type (x ∷ xs) (found client server (x ∷ xs) (y ∷ ys))
  unfolding run_ecdh client_messages
  run_ecdh-select type client server x y xs ys h f =
      let q = lib.create_request client (x ∷ xs) in
      let s = lib.create_setup server (length (x ∷ xs)) (y ∷ ys) in
      let r = lib.process_request server q in
      let a = server_step server y ys q (length (x ∷ xs)) in
      let u = unframe-frame (lib.put_response r) (lib.put_setup s) f.0 f.1 in
      let c =
        finish_step type client (x ∷ xs) _ _ _ s u (lib.get_put_setup s)
          (copy_case s.bits s.structure h) in
      rw (a, run_ecdh)
        (c
          ∙ ap (λ (e : List Bytes). select type (x ∷ xs) (lib.find_matches client s e))
              (lib.get_put_response r))

  -- The difference: if neither input is empty, the library sets the structure of its setup, it matches
  -- exactly the places of the client's items that are in the server's input, and both parts of the
  -- answer are shorter than 2^31 bytes, then the run ends, and the client has the items of its input
  -- that are not in the server's, in their order.
  pub run_ecdh-difference :
      (client : C) (server : S) (x y : Bytes) (xs ys : List Bytes)
      → ((lib.create_setup server (length (x ∷ xs)) (y ∷ ys)).structure ≡ not_set → ⊥)
      → AnswerFits client server (x ∷ xs) (y ∷ ys)
      → Matches (x ∷ xs) (y ∷ ys) (found client server (x ∷ xs) (y ∷ ys))
      → run_ecdh lib difference client server (x ∷ xs) (y ∷ ys) ≡ done (not_in (y ∷ ys) (x ∷ xs))
  unfolding select
  run_ecdh-difference client server x y xs ys h f m =
      run_ecdh-select difference client server x y xs ys h f
      ∙ ap done (
          difference_from-not_in 0 (x ∷ xs) (y ∷ ys) _ (λ i z e.
            subst
              (λ (j : ℕ).
                is_absent j (found client server (x ∷ xs) (y ∷ ys)) ≡ not (has z (y ∷ ys)))
              (omega arith) (m i z e)))

  -- The intersection: if neither input is empty, the library sets the structure of its setup, it matches
  -- exactly the places of the client's items that are in the server's input, each once and none behind
  -- the end, and both parts of the answer are shorter than 2^31 bytes, then the run ends, and what the
  -- client has together with the items that are not in the server's input is its own input, each item
  -- as often as there.
  pub run_ecdh-intersection :
      (client : C) (server : S) (x y : Bytes) (xs ys : List Bytes)
      → ((lib.create_setup server (length (x ∷ xs)) (y ∷ ys)).structure ≡ not_set → ⊥)
      → AnswerFits client server (x ∷ xs) (y ∷ ys)
      → Matches (x ∷ xs) (y ∷ ys) (found client server (x ∷ xs) (y ∷ ys))
      → InRange (x ∷ xs) (found client server (x ∷ xs) (y ∷ ys))
      → Distinct (found client server (x ∷ xs) (y ∷ ys))
      → (zs : List Bytes) × (run_ecdh lib intersection client server (x ∷ xs) (y ∷ ys) ≡ done zs)
        × Perm (zs ++ not_in (y ∷ ys) (x ∷ xs)) (x ∷ xs)
  unfolding select
  run_ecdh-intersection client server x y xs ys h f m r d =
      let is = found client server (x ∷ xs) (y ∷ ys) in
      let (zs, e, len, at) = pick-Picks (x ∷ xs) is r in
      let n = difference_from-not_in 0 (x ∷ xs) (y ∷ ys) is (λ i z e.
        subst (λ (j : ℕ). is_absent j is ≡ not (has z (y ∷ ys))) (omega arith) (m i z e)) in
      (
        zs,
        run_ecdh-select intersection client server x y xs ys h f ∙ ground (arith, e),
        rw (← n) (pick-difference (x ∷ xs) is zs d e),
      )
