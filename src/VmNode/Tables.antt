-- ===== src/VmNode/Tables.antt =====
-- src/primihub/node/node_impl.cc: the tables whose entries grow old, the filter of duplicate task ids
-- and the statuses of finished tasks.
use primihub.Prelude.{
  ◌==◌, ℕ, ◌-◌, ◌≡◌, refl, inl, inr, true, false, none, some, List, [], ◌∷◌, append_assoc, arith,
  ltb, leb, if◌then◌else◌, Bool-cases, Bytes, ==_iff, ==_refl, has,
}
use primihub.Prelude.Dict.{
  Dict, lookup, assign, erase, insert, lookup-erase, lookup-assign_self, lookup-insert,
}
use primihub.Prelude.Keys.{IsUnique, assign-IsUnique, insert-IsUnique}
use primihub.Worker.{StatusCode}
use primihub.VmNode.{
  VmNode, timed_out, erase_all, task_uid, is_duplicate_task, clean_duplicate_task_id_filter,
  cache_last_task_status, clean_timeout_cached_task_status, is_finished_task,
}

module _ {ℓ} {V : Type ℓ} where
  pub lookup-erase_all :
      (k : Bytes) (ks : List Bytes) (m : Dict V)
      → lookup k (erase_all ks m) ≡ (if has k ks then none else lookup k m)
  unfolding erase_all
  lookup-erase_all k [] m = refl
  lookup-erase_all k (j ∷ ks) m =
      ground (arith, lookup-erase_all k ks (erase j m), lookup-erase j k m)

  module _ (time : V → ℕ) (limit now : ℕ) where
    absent :
        (k : Bytes) (m : Dict V) → lookup k m ≡ none → has k (timed_out time limit now m) ≡ false
    unfolding timed_out lookup
    absent k [] h = refl
    absent k ((j, w) ∷ m) h = ground (arith, absent k m, h)

    pub present :
        (k : Bytes) (v : V) (m : Dict V)
        → IsUnique m
        → lookup k m ≡ some v
        → has k (timed_out time limit now m) ≡ ltb limit (now - time v)
    unfolding timed_out lookup
    present k v [] u h = absurd (ground (arith, h))
    present k v ((j, w) ∷ m) u h = elim (Bool-cases (k == j)) [
      | inl e ↦
          let same : w ≡ v = ground (arith, h, e) in
          ground (arith, absent k m, u.0, e, same, ==_iff k j)
      | inr e ↦ ground (arith, present k v m u.1, h, e)
    ]

    -- After one round of cleaning, a key has its entry if that is young.
    pub lookup-clean :
        (k : Bytes) (v : V) (m : Dict V)
        → IsUnique m
        → lookup k m ≡ some v
        → lookup k (erase_all (timed_out time limit now m) m)
          ≡ (if ltb limit (now - time v) then none else some v)
    lookup-clean k v m u h =
        ground (arith, lookup-erase_all k (timed_out time limit now m) m, present k v m u h, h)

-- A task id that is not in the filter is new once: asked again after a round of cleaning at the time
-- `t`, it is a duplicate until 30 seconds have passed since it was first seen, and new afterwards.
is_duplicate-clean :
    (now t : ℕ) (r s : Bytes) (n : VmNode)
    → IsUnique n.duplicate_task_id_filter
    → lookup (task_uid r s) n.duplicate_task_id_filter ≡ none
    → ((is_duplicate_task now r s n).0 ≡ false)
      × ((is_duplicate_task t r s
            (clean_duplicate_task_id_filter t (is_duplicate_task now r s n).1)).0
          ≡ leb (t - now) 30)
unfolding is_duplicate_task clean_duplicate_task_id_filter
is_duplicate-clean now t r s n u h =
    let k : Bytes = task_uid r s in
    let m : Dict ℕ = insert k now n.duplicate_task_id_filter in
    let e : lookup k m ≡ some now =
      ground (arith, lookup-insert k k now n.duplicate_task_id_filter h, ==_refl k) in
    let c =
      lookup-clean (λ (x : ℕ). x) 30 t k now m (insert-IsUnique k now n.duplicate_task_id_filter u)
        e in
    (ground (arith, h), ground (arith, h, c))

-- The underscore that joins the two ids is no separator: once the sub-task `c` of the request `a_b` is
-- seen, the sub-task `b_c` of the request `a` is called a duplicate.
is_duplicate_clash :
    (now : ℕ) (a b c : Bytes) (n : VmNode)
    → (is_duplicate_task now a (task_uid b c) (is_duplicate_task now (task_uid a b) c n).1).0 ≡ true
unfolding is_duplicate_task insert
is_duplicate_clash now a b c n =
    let e = append_assoc a (b'_' ∷ b) (b'_' ∷ c) in
    ground (arith, e, lookup-assign_self (task_uid (task_uid a b) c) now n.duplicate_task_id_filter)

-- The status of a finished task is kept for 5 seconds: after a round of cleaning at the time `t`, the
-- task counts as finished, with the status noted at the time `now`, if at most 5 seconds have passed,
-- and as unknown afterwards.
is_finished-clean :
    (now t : ℕ) (k : Bytes) (s : StatusCode) (n : VmNode)
    → IsUnique n.finished_task_status
    → is_finished_task k (clean_timeout_cached_task_status t (cache_last_task_status now k s n))
      ≡ (if leb (t - now) 5 then (true, s) else (false, StatusCode.finished))
unfolding is_finished_task clean_timeout_cached_task_status cache_last_task_status
is_finished-clean now t k s n u =
    let m : Dict (StatusCode × ℕ) = assign k (s, now) n.finished_task_status in
    let c =
      lookup-clean (λ (x : StatusCode × ℕ). x.1) 5 t k (s, now) m
        (assign-IsUnique k (s, now) n.finished_task_status u)
        (lookup-assign_self k (s, now) n.finished_task_status) in
    ground (arith, c)
