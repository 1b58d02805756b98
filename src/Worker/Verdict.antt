-- ===== src/Worker/Verdict.antt =====
-- src/primihub/node/worker/worker.cc: when and how the scheduler decides that a task has ended.
use primihub.Prelude.{
  ℕ, ◌<◌, ◌≡◌, refl, sym, ap, ◌∙◌, ◌⊎◌, inl, inr, true, false, Option, none, some, List, [], ◌∷◌,
  ◌++◌, append-nil, append_assoc, arith, nat_beq, if◌then◌else◌, is_set, Bytes, length, All,
  Retcode,
}
use primihub.Worker.{
  StatusCode, TaskStatus, Worker, update_task_status, is_final, is_fail, update_all, create,
  wait_until_task_finish, set_party_count,
}
use primihub.Prelude.Dict.{Dict, assign}
use primihub.Queue.{push, new}

-- The flag says whether the promise is set.
abbrev pub IsConsistent : Worker → Type 0
IsConsistent w = w.scheduler_finished ≡ is_set w.task_finish

-- The code after the status `s`, by what was decided before and the parties that have reported a
-- final status.
abbrev judge_one : ℕ → Dict StatusCode → TaskStatus → Option Retcode → Option Retcode
judge_one n seen s (some r) = some r
judge_one n seen s none =
    if is_final s.status
    then (if is_fail s.status
        then some Retcode.fail
        else if nat_beq (length (assign s.party s.status seen)) n
        then some Retcode.success
        else none)
    else none

abbrev note : TaskStatus → Dict StatusCode → Dict StatusCode
note s seen = if is_final s.status then assign s.party s.status seen else seen

-- The worker after a report, by the reference.
abbrev pub after : TaskStatus → Worker → Worker
after s w =
    let r = judge_one w.party_count w.final_status s w.task_finish in
    record w {
      final_status = note s w.final_status;
      task_finish = r;
      scheduler_finished = is_set r;
      task_status = push s w.task_status;
    }

pub update-after :
    (s : TaskStatus) (w : Worker) → IsConsistent w → update_task_status s w ≡ some (after s w)
unfolding update_task_status
update-after s w c = ground (arith, c)

unfoldable pub judge : ℕ → Dict StatusCode → List TaskStatus → Option Retcode → Option Retcode
judge n seen [] r = r
judge n seen (s ∷ us) r = judge n (note s seen) us (judge_one n seen s r)

-- The parties that have reported a final status, with the last one of each.
unfoldable pub reported : List TaskStatus → Dict StatusCode → Dict StatusCode
reported [] seen = seen
reported (s ∷ us) seen = reported us (note s seen)

update_all-judge :
    (us : List TaskStatus) (w : Worker)
    → IsConsistent w
    → (v : Worker) × (update_all us w ≡ some v)
      × (v.task_finish ≡ judge w.party_count w.final_status us w.task_finish)
      × (v.final_status ≡ reported us w.final_status)
      × (v.task_status.items ≡ w.task_status.items ++ us)
unfolding update_all judge reported push
update_all-judge [] w c = (w, refl, refl, refl, sym (append-nil _))
update_all-judge (s ∷ us) w c =
    let (v, e, f, g, q) = update_all-judge us (after s w) refl in
    (
      v,
      rw (update-after s w c, update_all) e,
      f,
      g,
      q ∙ append_assoc w.task_status.items (s ∷ []) us,
    )

-- No report that the task failed.
abbrev pub NoFail : TaskStatus → Type 0
NoFail s = is_fail s.status ≡ false

-- What the reports must have been for this decision about `n` parties.
abbrev pub Explains : ℕ → Dict StatusCode → List TaskStatus → Option Retcode → Type 0
Explains n seen us none = All NoFail us
Explains n seen us (some Retcode.success) =
    (pre : List TaskStatus) × (post : List TaskStatus) × (us ≡ pre ++ post)
    × All NoFail pre
    × (length (reported pre seen) ≡ n)
Explains n seen us (some Retcode.fail) =
    (pre : List TaskStatus) × (s : TaskStatus) × (post : List TaskStatus) × (us ≡ pre ++ (s ∷ post))
    × All NoFail pre
    × (is_fail s.status ≡ true)

judge-some :
    (n : ℕ) (seen : Dict StatusCode) (us : List TaskStatus) (r : Retcode)
    → judge n seen us (some r) ≡ some r
unfolding judge
judge-some n seen [] r = refl
judge-some n seen (s ∷ us) r = judge-some n (note s seen) us r

Explains-cons :
    (n : ℕ) (seen : Dict StatusCode) (s : TaskStatus) (us : List TaskStatus) (r : Option Retcode)
    → NoFail s
    → Explains n (note s seen) us r
    → Explains n seen (s ∷ us) r
unfolding reported
Explains-cons n seen s us none h e = (h, e)
Explains-cons n seen s us (some Retcode.success) h (pre, post, q, k, l) =
    (s ∷ pre, post, ap (◌∷◌ s) q, (h, k), l)
Explains-cons n seen s us (some Retcode.fail) h (pre, t, post, q, k, l) =
    (s ∷ pre, t, post, ap (◌∷◌ s) q, (h, k), l)

judge_one-cases :
    (n : ℕ) (seen : Dict StatusCode) (s : TaskStatus)
    → ((is_fail s.status ≡ true) × (judge_one n seen s none ≡ some Retcode.fail))
      ⊎ (NoFail s
          × ((length (note s seen) ≡ n) × (judge_one n seen s none ≡ some Retcode.success)
              ⊎ (judge_one n seen s none ≡ none)))
judge_one-cases n seen s = ground arith

judge-Explains :
    (n : ℕ) (seen : Dict StatusCode) (us : List TaskStatus)
    → Explains n seen us (judge n seen us none)
unfolding judge
judge-Explains n seen [] = tt
judge-Explains n seen (s ∷ us) = elim (judge_one-cases n seen s) [
  | inl (h, e) ↦ rw (e, judge, judge-some n (note s seen) us Retcode.fail) ([], s, us, refl, tt, h)
  | inr (h, inl (l, e)) ↦
      rw (e, judge, judge-some n (note s seen) us Retcode.success)
        (s ∷ [], us, refl, (h, tt), unfold reported in l)
  | inr (h, inr e) ↦
      rw (e, judge) (Explains-cons n seen s us _ h (judge-Explains n (note s seen) us))
]

-- The scheduler's worker for a task of `n` parties takes any reports of statuses without an exception
-- (the promise is set once at most), keeps them all in order for the client, and has decided FAIL only
-- if some report said FAIL and none before it did, SUCCESS only after reports without FAIL by exactly
-- `n` different parties, and nothing only if no report said FAIL. The decision is the reference
-- `judge`, which looks at one report after the other.
pub update_all_lem :
    (n : ℕ) (worker_id : Bytes) (us : List TaskStatus)
    → (v : Worker) × (update_all us (set_party_count n (create worker_id)) ≡ some v)
      × (wait_until_task_finish v ≡ judge n [] us none)
      × Explains n [] us (wait_until_task_finish v)
      × (v.final_status ≡ reported us [])
      × (v.task_status.items ≡ us)
unfolding create set_party_count wait_until_task_finish new
update_all_lem n worker_id us =
    let (v, e, f, g, q) = update_all-judge us (set_party_count n (create worker_id)) refl in
    (v, e, f, rw f (judge-Explains n [] us), g, q)

-- A decision stands: for a worker whose flag says whether its promise is set, no later report changes
-- what the promise holds, and none throws.
update_all_stands :
    (us : List TaskStatus) (w : Worker) (r : Retcode)
    → IsConsistent w
    → wait_until_task_finish w ≡ some r
    → (v : Worker) × (update_all us w ≡ some v) × (wait_until_task_finish v ≡ some r)
unfolding wait_until_task_finish
update_all_stands us w r c h =
    let (v, e, f, g, q) = update_all-judge us w c in
    (v, e, f ∙ rw h (judge-some w.party_count w.final_status us r))

length-assign : (k : Bytes) (x : StatusCode) (m : Dict StatusCode) → 0 < length (assign k x m)
unfolding assign
length-assign k x [] = omega arith
length-assign k x ((j, y) ∷ m) = ground arith

judge-zero :
    (us : List TaskStatus) (seen : Dict StatusCode) → All NoFail us → judge 0 seen us none ≡ none
unfolding judge
judge-zero [] seen h = refl
judge-zero (s ∷ us) seen (h, k) =
    let e : judge_one 0 seen s none ≡ none =
      ground (arith, h, length-assign s.party s.status seen) in
    rw (e, judge) (judge-zero us (note s seen) k)

-- Reports that come in before the party count is set, none of them a FAIL: they decide nothing, nor does
-- setting the count.
pub early_reports :
    (n : ℕ) (worker_id : Bytes) (us : List TaskStatus)
    → All NoFail us
    → (v : Worker) × (update_all us (create worker_id) ≡ some v)
      × (v.final_status ≡ reported us [])
      × (wait_until_task_finish (set_party_count n v) ≡ none)
unfolding create set_party_count wait_until_task_finish
early_reports n worker_id us h =
    let (v, e, f, g, q) = update_all-judge us (create worker_id) refl in
    (v, e, g, f ∙ judge-zero us [] h)
