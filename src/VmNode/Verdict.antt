-- ===== src/VmNode/Verdict.antt =====
-- src/primihub/node/node_impl.cc: what the scheduler of a dispatched task decides.
use primihub.Prelude.{
  ◌≡◌, refl, inl, inr, none, some, List, [], ◌∷◌, arith, Option-cases, Bytes, ==_refl, length, All,
  success,
}
use primihub.Prelude.Dict.{lookup, assign, lookup-assign_self, lookup-insert}
use primihub.Common.{Node}
use primihub.Worker.{
  Worker, TaskStatus, create, set_party_count, update_all, update_task_status,
  wait_until_task_finish,
}
use primihub.Worker.Verdict.{judge, reported, NoFail, update_all_lem, early_reports}
use primihub.VmNode.{VmNode}
use primihub.VmNode.Dispatch.{
  TaskConfig, dispatch_task, dispatched, update_status, update_statuses, register, count_parties,
  scheduler_func,
}

update_statuses-update_all :
    (k : Bytes) (us : List TaskStatus) (n : VmNode) (w v : Worker)
    → lookup k n.task_scheduler_map ≡ some w
    → update_all us w ≡ some v
    → (m : VmNode) × (update_statuses k us n ≡ some m) × (lookup k m.task_scheduler_map ≡ some v)
unfolding update_statuses update_status update_all
update_statuses-update_all k [] n w v h e = (n, refl, ground (arith, h, e))
update_statuses-update_all k (s ∷ us) n w v h e = elim (Option-cases (update_task_status s w)) [
  | inl miss ↦ absurd (ground (arith, e, miss))
  | inr (u, f) ↦
      let next : VmNode = record n { task_scheduler_map = assign k u n.task_scheduler_map } in
      let (m, g, l) =
        update_statuses-update_all k us next u v (lookup-assign_self k u n.task_scheduler_map)
          (ground (arith, e, f)) in
      (m, ground (arith, h, f, g), l)
]

registered :
    (k : Bytes) (n : VmNode)
    → lookup k n.task_scheduler_map ≡ none
    → lookup k (register k n).task_scheduler_map ≡ some (create k)
unfolding register
registered k n h = ground (arith, lookup-insert k k (create k) n.task_scheduler_map h, ==_refl k)

-- A task whose id is free is dispatched to the nodes of `servers`; the statuses `us` come in
-- afterwards. The dispatch succeeds, no report throws, and the decision of the worker that the scheduler waits
-- for is the reference `judge` of these statuses for as many parties as there are nodes.
pub dispatch-judge :
    (k : Bytes) (servers : List Node) (us : List TaskStatus) (n : VmNode)
    → lookup k n.task_scheduler_map ≡ none
    → (m₀ m : VmNode) × (v : Worker) × (dispatch_task k [] (dispatched servers) n
        ≡ some (success, 0, m₀))
      × (update_statuses k us m₀ ≡ some m)
      × (lookup k m.task_scheduler_map ≡ some v)
      × (wait_until_task_finish v ≡ judge (length servers) [] us none)
unfolding dispatch_task count_parties update_statuses
dispatch-judge k servers us n h =
    let a = register k n in
    let w = set_party_count (length servers) (create k) in
    let b : VmNode = record a { task_scheduler_map = assign k w a.task_scheduler_map } in
    let (v, e, j, x, r, q) = update_all_lem (length servers) k us in
    let (m, f, l) =
      update_statuses-update_all k us b w v (lookup-assign_self k w a.task_scheduler_map) e in
    (b, m, v, ground (arith, h, registered k n h), f, l, j)

-- `DispatchTask` counts the parties after it has sent the task out. If statuses without a FAIL come in before that,
-- they are lost to the decision: the dispatch succeeds, the worker holds the last status of each
-- party and the number of the parties, and the scheduler's thread still waits, also if all parties have reported
-- success.
dispatch_early :
    (c : TaskConfig) (k : Bytes) (servers : List Node) (us : List TaskStatus) (n : VmNode)
    → lookup k n.task_scheduler_map ≡ none
    → All NoFail us
    → (m : VmNode) × (v : Worker) × (dispatch_task k us (dispatched servers) n
        ≡ some (success, 0, m))
      × (lookup k m.task_scheduler_map ≡ some v)
      × (v.final_status ≡ reported us [])
      × (v.party_count ≡ length servers)
      × (scheduler_func c servers k v m ≡ none)
unfolding dispatch_task count_parties scheduler_func
dispatch_early c k servers us n h q =
    let (u, e, f, g) = early_reports (length servers) k us q in
    let (a, d, l) =
      update_statuses-update_all k us (register k n) (create k) u (registered k n h) e in
    let v = set_party_count (length servers) u in
    (
      record a { task_scheduler_map = assign k v a.task_scheduler_map },
      v,
      ground (arith, h, d, l),
      lookup-assign_self k v a.task_scheduler_map,
      unfold set_party_count in f,
      unfold set_party_count in refl,
      ground (arith, g),
    )
