-- ===== src/VmNode/Cleanup.antt =====
-- src/primihub/node/node_impl.cc: `CleanFinishedSchedulerWorkerThread`, which forgets the workers of
-- schedulers whose tasks have ended.
use primihub.Prelude.{
  ◌==◌, ℕ, ◌-◌, ◌≤◌, ◌≡◌, inl, inr, false, ◌||◌, some, List, [], ◌∷◌, arith, ltb, if◌then◌else◌,
  Bool-cases, Bytes, ==_iff, has, length,
}
use primihub.Prelude.Dict.{Dict, lookup, assign, lookup-assign}
use primihub.Prelude.Keys.{IsUnique, assign-IsUnique}
use primihub.VmNode.{VmNode, timed_out, erase_all}
use primihub.VmNode.Tables.{lookup-erase_all, present}

-- The thread's own tables: when each task ended, and the ids that are old enough to be forgotten (a
-- `std::set`).
pub record Cleaner : Type 0 where
  pub finished_scheduler : Dict ℕ
  pub timeouted : List Bytes

abbrev scheduler_worker_timeout : ℕ
scheduler_worker_timeout = 20

-- `timeouted_shceduler.insert` of some ids.
unfoldable insert_all : List Bytes → List Bytes → List Bytes
insert_all [] ts = ts
insert_all (k ∷ ks) ts = insert_all ks (if has k ts then ts else k ∷ ts)

-- The ids that are old at the time `now`, once `worker_id` has ended at that time.
unfoldable old_ids : ℕ → Bytes → Cleaner → List Bytes
unfolding timed_out
old_ids now worker_id c =
    timed_out (λ (t : ℕ). t) scheduler_worker_timeout now
      (assign worker_id now c.finished_scheduler)

-- One round of the inner loop, for the id that it has taken from the queue; and, if more than 100 ids
-- are to be forgotten, the rest of the outer one.
unfoldable clean_scheduler : ℕ → Bytes → Cleaner → VmNode → Cleaner × VmNode
unfolding old_ids insert_all erase_all
clean_scheduler now worker_id c n =
    let ids = old_ids now worker_id c in
    let ts = insert_all ids c.timeouted in
    let finished = erase_all ids (assign worker_id now c.finished_scheduler) in
    if ltb 100 (length ts)
    then (
      record { finished_scheduler = finished; timeouted = [] },
      record n { task_scheduler_map = erase_all ts n.task_scheduler_map },
    )
    else (record { finished_scheduler = finished; timeouted = ts }, n)

has-insert_all :
    (k : Bytes) (ks ts : List Bytes) → has k (insert_all ks ts) ≡ (has k ts || has k ks)
unfolding insert_all
has-insert_all k [] ts = ground arith
has-insert_all k (j ∷ ks) ts =
    ground (arith, has-insert_all k ks (if has j ts then ts else j ∷ ts), ==_iff k j, ==_iff j k)

-- A scheduler's worker is kept for 20 seconds at least: an id that is not on the list of those to be
-- forgotten, and that ended at the time `t`, at most 20 seconds ago, still has its worker after a round
-- that takes another id, is still not on the list, and is still remembered with its time.
clean_scheduler-young :
    (now t : ℕ) (id k : Bytes) (c : Cleaner) (n : VmNode)
    → IsUnique c.finished_scheduler
    → has k c.timeouted ≡ false
    → (k == id) ≡ false
    → lookup k c.finished_scheduler ≡ some t
    → now - t ≤ 20
    → let (d, m) = clean_scheduler now id c n in
      (lookup k m.task_scheduler_map ≡ lookup k n.task_scheduler_map)
      × (has k d.timeouted ≡ false)
      × (lookup k d.finished_scheduler ≡ some t)
unfolding clean_scheduler old_ids
clean_scheduler-young now t id k c n u f e h y =
    let ended : Dict ℕ = assign id now c.finished_scheduler in
    let there : lookup k ended ≡ some t =
      ground (arith, lookup-assign id k now c.finished_scheduler, e, h) in
    let ids = timed_out (λ (t : ℕ). t) 20 now ended in
    let young : has k ids ≡ false = ground (
      arith,
      present (λ (t : ℕ). t) 20 now k t ended (assign-IsUnique id now c.finished_scheduler u) there,
    ) in
    let ts = insert_all ids c.timeouted in
    let kept : has k ts ≡ false = ground (arith, has-insert_all k ids c.timeouted, young, f) in
    let a = lookup-erase_all k ts n.task_scheduler_map in
    let b = lookup-erase_all k ids ended in
    elim (Bool-cases (ltb 100 (length ts))) [
      | inl many ↦ (
        ground (arith, many, a, kept),
        ground (arith, many),
        ground (arith, many, b, young, there),
      )
      | inr few ↦
          (ground (arith, few), ground (arith, few, kept), ground (arith, few, b, young, there))
    ]
