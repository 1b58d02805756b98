-- ===== src/Grpc/Retry.antt =====
-- src/primihub/util/network/grpc_link_context.cc: how often a call is tried, and what it leaves at the peer.
use primihub.Prelude.{
  ℕ, zero, suc, ◌+◌, ◌-◌, ◌≤◌, ◌<◌, ◌≡◌, refl, inl, inr, Bool, true, false, Option, none, some,
  List, [], ◌∷◌, arith, ltb, if◌then◌else◌, Bool-cases, length, take, success, fail,
}
use primihub.Grpc.Call.{Attempt, replied, refused, unanswered, call_loop, retry_loop, submit_task}

abbrev pub has_reply : List Attempt → Bool
has_reply [] = false
has_reply (replied t ∷ r) = true
has_reply (refused ∷ r) = has_reply r
has_reply (unanswered t ∷ r) = has_reply r

-- The attempts up to the first that is replied to, that one included.
unfoldable pub until_reply : List Attempt → List Attempt
until_reply [] = []
until_reply (replied t ∷ r) = replied t ∷ []
until_reply (refused ∷ r) = refused ∷ until_reply r
until_reply (unanswered t ∷ r) = unanswered t ∷ until_reply r

module _ {ℓ κ} {S : Type ℓ} {R : Type κ} (handler : ℕ → S → S × R) where
  -- The state that failing attempts leave behind.
  unfoldable pub left_by : List Attempt → S → S
  left_by [] s = s
  left_by (replied t ∷ r) s = left_by r (handler t s).0
  left_by (refused ∷ r) s = left_by r s
  left_by (unanswered t ∷ r) s = left_by r (handler t s).0

  -- The reply of the first attempt that is replied to, by a peer that is as those before have left it.
  unfoldable pub reply_by : List Attempt → S → Option R
  reply_by [] s = none
  reply_by (replied t ∷ r) s = some (handler t s).1
  reply_by (refused ∷ r) s = reply_by r s
  reply_by (unanswered t ∷ r) s = reply_by r (handler t s).0

  -- What a call leaves after `k` retries.
  call_loop-left_by :
      (r : List Attempt) (k : ℕ) (s : S)
      → k < 3
      → 3 ≤ k + length r
      → call_loop handler k r s
        ≡ some (
          if has_reply (take (3 - k) r) then success else fail,
          reply_by (take (3 - k) r) s,
          left_by (until_reply (take (3 - k) r)) s,
        )
  unfolding retry_loop left_by reply_by until_reply
  call_loop-left_by [] k s h e = absurd (omega arith)
  call_loop-left_by (replied t ∷ r) k s h e = let p : 3 - k ≡ suc (2 - k) = omega arith in rw p refl
  call_loop-left_by (refused ∷ r) k s h e = elim (Bool-cases (ltb (k + 1) 3)) [
    | inl more ↦
        let p : 3 - k ≡ suc (3 - (k + 1)) = ground (arith, more) in
        let q = call_loop-left_by r (k + 1) s (ground (arith, more)) (omega arith) in
        rw p (ground (arith, q, more))
    | inr last ↦ let p : 3 - k ≡ suc zero = ground (arith, last) in rw p (ground (arith, last))
  ]
  call_loop-left_by (unanswered t ∷ r) k s h e = elim (Bool-cases (ltb (k + 1) 3)) [
    | inl more ↦
        let p : 3 - k ≡ suc (3 - (k + 1)) = ground (arith, more) in
        let q = call_loop-left_by r (k + 1) (handler t s).0 (ground (arith, more)) (omega arith) in
        rw p (ground (arith, q, more))
    | inr last ↦ let p : 3 - k ≡ suc zero = ground (arith, last) in rw p (ground (arith, last))
  ]

  pub call_ends :
      (a b c : Attempt) (rest : List Attempt) (s : S)
      → (o : Option R) × (call_loop handler 0 (a ∷ b ∷ c ∷ rest) s
          ≡ some (
            if has_reply (a ∷ b ∷ c ∷ []) then success else fail,
            o,
            left_by (until_reply (a ∷ b ∷ c ∷ [])) s,
          ))
  call_ends a b c rest s = (_, call_loop-left_by (a ∷ b ∷ c ∷ rest) 0 s (omega arith) (omega arith))

  first_attempt :
      (a : Attempt) (rest : List Attempt) (s : S)
      → submit_task handler (a ∷ rest) s ≡ some (success, reply_by (a ∷ []) s, left_by (a ∷ []) s)
  unfolding submit_task retry_loop left_by reply_by
  first_attempt (replied t) rest s = refl
  first_attempt refused rest s = refl
  first_attempt (unanswered t) rest s = refl

  -- `submitTask` never fails: whatever befalls the attempts, it returns SUCCESS, with the reply of the first
  -- attempt, which is none if that is not replied to, and the peer is as the first attempt has left it.
  -- The other calls return the reply of the first of three attempts that is replied to, or else FAIL
  -- without a reply, and the peer is as the attempts up to that one have left it.
  pub submit_task_succeeds :
      (a b c : Attempt) (rest : List Attempt) (s : S)
      → (submit_task handler (a ∷ b ∷ c ∷ rest) s
          ≡ some (success, reply_by (a ∷ []) s, left_by (a ∷ []) s))
        × (call_loop handler 0 (a ∷ b ∷ c ∷ rest) s
            ≡ some (
              if has_reply (a ∷ b ∷ c ∷ []) then success else fail,
              reply_by (a ∷ b ∷ c ∷ []) s,
              left_by (until_reply (a ∷ b ∷ c ∷ [])) s,
            ))
  submit_task_succeeds a b c rest s = (
    first_attempt a (b ∷ c ∷ rest) s,
    call_loop-left_by (a ∷ b ∷ c ∷ rest) 0 s (omega arith) (omega arith),
  )
