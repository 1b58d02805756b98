-- ===== src/Task/Dispatched.antt =====
-- src/primihub/task/semantic/scheduler/scheduler.cc: what the dispatch of a task comes to.
use primihub.Prelude.{
  ℕ, suc, ◌+◌, ◌≤◌, ◌≡◌, refl, ap, ◌∙◌, Bool, true, false, ◌||◌, Option, none, some, List, [], ◌∷◌,
  ◌++◌, map, append-nil, append_assoc, arith, if◌then◌else◌, length, length-append, All, length-map,
  Retcode, success, fail,
}
use primihub.Task.Schedule.{
  Scheduler, new_scheduler, schedule_all, schedule_task, parse_notify_server, dispatch,
}
use primihub.Grpc.{TaskContext}
use primihub.Grpc.Call.{Attempt, PushTaskReply, send_execute_task}
use primihub.Grpc.Once.{IsSoon, at_once, new_reply}
use primihub.Grpc.Retry.{has_reply}
use primihub.Grpc.Seen.{IsNew}
use primihub.VmNode.{VmNode, Executor}
use primihub.Common.{Node}

abbrev has_failed : List (Retcode × Option PushTaskReply) → Bool
has_failed [] = false
has_failed ((fail, o) ∷ r) = true
has_failed ((success, o) ∷ r) = has_failed r

-- The servers that the successful replies name, in the order of the replies, without their ids.
named_servers : List (Retcode × Option PushTaskReply) → List Node
named_servers [] = []
named_servers ((fail, o) ∷ r) = named_servers r
named_servers ((success, none) ∷ r) = named_servers r
named_servers ((success, some reply) ∷ r) =
    map (λ (n : Node). record n { id = [] }) reply.task_server ++ named_servers r

schedule_all_lem :
    (rs : List (Retcode × Option PushTaskReply)) (s : Scheduler)
    → schedule_all rs s
      ≡ record { error = s.error || has_failed rs; task_server = s.task_server ++ named_servers rs }
unfolding schedule_all schedule_task parse_notify_server named_servers
schedule_all_lem [] s = ground (arith, append-nil s.task_server)
schedule_all_lem ((fail, o) ∷ r) s = ground (arith, schedule_all_lem r (record s { error = true }))
schedule_all_lem ((success, none) ∷ r) s = schedule_all_lem r s
schedule_all_lem ((success, some reply) ∷ r) s =
    let more : List Node = map (λ (n : Node). record n { id = [] }) reply.task_server in
    schedule_all_lem r (record s { task_server = s.task_server ++ more })
    ∙ ap (λ (l : List Node). record { error = s.error || has_failed r; task_server = l })
        (append_assoc s.task_server more (named_servers r))

-- A dispatch fails exactly if the call to one of the parties does, in whatever order the calls end, and
-- the servers of the task are those that the replies name.
dispatch_lem :
    (rs : List (Retcode × Option PushTaskReply))
    → dispatch rs ≡ (if has_failed rs then fail else success, named_servers rs)
unfolding dispatch
dispatch_lem rs = rw (schedule_all_lem rs new_scheduler) refl

-- The task as it is sent to one party, with what befalls the attempts, the first of which comes at the
-- time `sent_at` or later.
pub record Sent : Type 0 where
  pub attempts : List Attempt
  pub sent_at : ℕ
  pub address : Node
  pub info : TaskContext
  pub executor : Executor
  pub peer : VmNode

abbrev outcome : Option (Retcode × Option PushTaskReply × VmNode) → Retcode × Option PushTaskReply
outcome none = (fail, none)
outcome (some (ret, reply, m)) = (ret, reply)

-- What `executeTask` returns for it.
abbrev pub result_of : Sent → Retcode × Option PushTaskReply
result_of s = outcome (send_execute_task s.address s.info s.executor success s.attempts s.peer)

-- How many parties answer the first attempt that reaches them.
abbrev quick : List Sent → ℕ
quick [] = 0
quick (s ∷ r) = if at_once s.attempts then suc (quick r) else quick r

-- The node of the party is new to the task, and one of at most three attempts is answered; those that
-- reach the node do so within 30 seconds.
abbrev IsTaken : Sent → Type 0
IsTaken s =
    (length s.attempts ≤ 3)
    × (has_reply s.attempts ≡ true)
    × All (IsSoon s.sent_at) s.attempts
    × IsNew s.info s.peer

result_of_lem :
    (s : Sent)
    → IsTaken s
    → (reply : PushTaskReply) × (result_of s ≡ (success, some reply))
      × (reply.task_server ≡ (if at_once s.attempts then s.address ∷ [] else []))
unfolding send_execute_task
result_of_lem s (l, a, b, v) =
    let (m, p, e, q) =
      new_reply s.address s.info s.executor success s.sent_at 0 s.attempts s.peer (omega (arith, l))
        a b v in
    (p, ap outcome e, q)

results_cons :
    (x : Retcode × Option PushTaskReply) (reply : PushTaskReply)
    (rs : List (Retcode × Option PushTaskReply))
    → x ≡ (success, some reply)
    → (has_failed (x ∷ rs) ≡ has_failed rs)
      × (length (named_servers (x ∷ rs)) ≡ length reply.task_server + length (named_servers rs))
unfolding named_servers
results_cons x reply rs e = rw e (
  refl,
  length-append (map (λ (n : Node). record n { id = [] }) reply.task_server) (named_servers rs)
      ∙ ap (λ (k : ℕ). k + length (named_servers rs))
          (length-map (λ (n : Node). record n { id = [] }) reply.task_server),
)

counted :
    (quickly : Bool) (address : Node) (n k : ℕ)
    → n ≡ k
    → length (if quickly then address ∷ [] else []) + n ≡ (if quickly then suc k else k)
counted true address n k e = omega arith
counted false address n k e = omega arith

results_lem :
    (ss : List Sent)
    → All IsTaken ss
    → (has_failed (map result_of ss) ≡ false)
      × (length (named_servers (map result_of ss)) ≡ quick ss)
unfolding named_servers
results_lem [] h = (refl, refl)
results_lem (s ∷ r) h =
    let ih = results_lem r h.1 in
    let (p, e, q) = result_of_lem s h.0 in
    let c = results_cons (result_of s) p (map result_of r) e in
    (
      c.0 ∙ ih.0,
      c.1
          ∙ ap (λ (l : List Node). length l + length (named_servers (map result_of r))) q
          ∙ counted (at_once s.attempts) s.address _ _ ih.1,
    )

-- Parties that take the task are not all counted: where the node of each party is new to the task and
-- gets its worker ready, and one of at most three attempts is answered, with those that reach the node
-- doing so within 30 seconds, the dispatch succeeds. But it has as many servers, by whose number the
-- scheduler's worker counts the parties to wait for, as there are parties that answered the first
-- attempt that reached them.
pub dispatch_undercounts :
    (ss : List Sent)
    → All IsTaken ss
    → ((dispatch (map result_of ss)).0 ≡ success)
      × (length (dispatch (map result_of ss)).1 ≡ quick ss)
dispatch_undercounts ss h =
    let k = results_lem ss h in
    let d = dispatch_lem (map result_of ss) in (ground (arith, d, k.0), ground (arith, d, k.1))
