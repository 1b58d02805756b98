-- ===== src/Worker/Reports.antt =====
-- src/primihub/node/node_impl.cc: `FetchTaskStatus`, which hands the client the statuses that the
-- parties reported.
use primihub.Prelude.{
  ℕ, zero, suc, ◌≡◌, refl, Option, none, some, List, [], ◌∷◌, ◌++◌, arith, codes, length, Retcode,
}
use primihub.Worker.{Worker, TaskStatus, StatusCode, fetch_task_status}
use primihub.Queue.{try_pop}

-- `rpc::TaskStatus()`: the status code 0 is RUNNING.
abbrev default_status : TaskStatus
default_status = record { request_id = []; party = []; status = StatusCode.running; message = [] }

abbrev nonexist_status : TaskStatus
nonexist_status = record {
  request_id = [];
  party = [];
  status = StatusCode.nonexist;
  message = codes "No shecudler found for task";
}

abbrev filled : Option TaskStatus → TaskStatus
filled none = default_status
filled (some s) = s

-- The loop: it adds an entry to the reply, fills it if a status is left, and else leaves. `none` if it
-- has not left after as many rounds as there is fuel.
unfoldable fetch_loop : ℕ → Worker → Option (List TaskStatus × Worker)
fetch_loop zero w = none
fetch_loop (suc fuel) w =
    let (ret, o, v) = fetch_task_status w in
    elim ret [
      | Retcode.fail ↦ some (filled o ∷ [], v)
      | Retcode.success ↦ elim (fetch_loop fuel v) [
        | none ↦ none
        | some (r, u) ↦ some (filled o ∷ r, u)
      ]
    ]

-- `FetchTaskStatus` for the scheduler's worker that was found.
unfoldable fetch_statuses : Option Worker → Option (List TaskStatus × Option Worker)
unfolding fetch_loop
fetch_statuses none = some (nonexist_status ∷ [], none)
fetch_statuses (some w) = elim (fetch_loop (suc (length w.task_status.items)) w) [
  | none ↦ none
  | some (r, v) ↦ some (r, some v)
]

fetch_loop-items :
    (us : List TaskStatus) (w : Worker)
    → w.task_status.items ≡ us
    → fetch_loop (suc (length us)) w
      ≡ some (
        us ++ default_status ∷ [],
        record w { task_status = record (w.task_status) { items = [] } },
      )
unfolding fetch_loop fetch_task_status try_pop
fetch_loop-items [] w h = ground (arith, h)
fetch_loop-items (s ∷ us) w h = ground (
  arith,
  h,
  fetch_loop-items us (record w { task_status = record (w.task_status) { items = us } }) refl,
)

-- The loop ends, and the reply holds every status reported since the last call, in their order, and
-- then one entry more, which no party reported: the default status, whose code is RUNNING. The
-- worker's queue is empty afterwards, and nothing else of the worker has changed.
fetch_statuses_lem :
    (w : Worker)
    → fetch_statuses (some w)
      ≡ some (
        w.task_status.items ++ default_status ∷ [],
        some (record w { task_status = record (w.task_status) { items = [] } }),
      )
unfolding fetch_statuses
fetch_statuses_lem w = ground (arith, fetch_loop-items w.task_status.items w refl)
