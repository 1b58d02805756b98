-- ===== src/Worker.antt =====
-- src/primihub/node/worker/worker.{h,cc}: the scheduler's side of a `Worker`, which collects the
-- statuses that the parties of one task report and decides once how the task ended.
pub mod Verdict
pub mod Reports
pub mod Tests
use primihub.Prelude.{
  ℕ, Bool, true, false, Option, none, some, List, [], ◌∷◌, nat_beq, if◌then◌else◌, Bytes, length,
  Retcode,
}
use primihub.Prelude.Dict.{Dict, assign}
use primihub.Queue.{Queue, new, push, try_pop}

-- `rpc::TaskStatus::StatusCode`.
pub data StatusCode : Type 0 where
  running : StatusCode
  success : StatusCode
  fail : StatusCode
  nonexist : StatusCode
  finished : StatusCode

-- `rpc::TaskStatus`.
pub record TaskStatus : Type 0 where
  pub request_id : Bytes
  pub party : Bytes
  pub status : StatusCode
  pub message : Bytes

pub record Worker : Type 0 where
  pub worker_id : Bytes
  pub task_status : Queue TaskStatus
  pub final_status : Dict StatusCode
  -- what `task_finish_promise_` holds
  pub task_finish : Option Retcode
  pub party_count : ℕ
  pub scheduler_finished : Bool

-- `Worker(node_id, task_info, nodelet)`.
unfoldable pub create : Bytes → Worker
create worker_id = record {
  worker_id = worker_id;
  task_status = new;
  final_status = [];
  task_finish = none;
  party_count = 0;
  scheduler_finished = false;
}

unfoldable pub set_party_count : ℕ → Worker → Worker
set_party_count n w = record w { party_count = n }

-- `task_finish_promise_.set_value(ret)`: `none` is the exception that a second call throws.
unfoldable pub set_finish : Retcode → Worker → Option Worker
set_finish ret w = elim w.task_finish [
  | some r ↦ none
  | none ↦ some (record w { task_finish = some ret; scheduler_finished = true })
]

-- `if (!scheduler_finished) { set_value(ret); scheduler_finished = true; }`.
unfoldable pub decide : Retcode → Worker → Option Worker
unfolding set_finish
decide ret w = if w.scheduler_finished then some w else set_finish ret w

abbrev pub is_fail : StatusCode → Bool
is_fail StatusCode.fail = true
is_fail _ = false

abbrev pub is_final : StatusCode → Bool
is_final StatusCode.success = true
is_final StatusCode.fail = true
is_final _ = false

-- `if (final_status_.size() == party_count_)`.
unfoldable pub check_count : Worker → Option Worker
unfolding decide
check_count w =
    if nat_beq (length w.final_status) w.party_count then decide Retcode.success w else some w

-- What happens to a SUCCESS or FAIL status before it is queued.
unfoldable pub collect : TaskStatus → Worker → Option Worker
unfolding decide check_count
collect s w =
    let v = record w { final_status = assign s.party s.status w.final_status } in
    let failed = decide Retcode.fail v in
    if is_fail s.status then elim failed [ none ↦ none | some u ↦ check_count u ] else check_count v

-- `none` is an exception of the promise.
unfoldable pub update_task_status : TaskStatus → Worker → Option Worker
unfolding collect
update_task_status s w =
    let collected = collect s w in
    elim (if is_final s.status then collected else some w) [
      | none ↦ none
      | some v ↦ some (record v { task_status = push s v.task_status })
    ]

unfoldable pub fetch_task_status : Worker → Retcode × Option TaskStatus × Worker
fetch_task_status w = elim (try_pop w.task_status) [
  | none ↦ (Retcode.fail, none, w)
  | some (s, q) ↦ (Retcode.success, some s, record w { task_status = q })
]

-- What `waitUntilTaskFinish` waits for.
unfoldable pub wait_until_task_finish : Worker → Option Retcode
wait_until_task_finish w = w.task_finish

unfoldable pub update_all : List TaskStatus → Worker → Option Worker
update_all [] w = some w
update_all (s ∷ r) w = elim (update_task_status s w) [ none ↦ none | some v ↦ update_all r v ]
