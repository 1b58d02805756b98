-- ===== src/Grpc/Seen.antt =====
-- src/primihub/node/node_impl.cc, as src/primihub/node/node_interface.cc calls it: a request to run a task, at a
-- node that has seen the task and at one that has not.
use primihub.Prelude.{
  ℕ, ◌+◌, ◌≤◌, ◌≡◌, refl, none, some, List, [], ◌∷◌, ◌++◌, arith, Bytes, ==_refl, Retcode, success,
  fail,
}
use primihub.Prelude.Keys.{insert-IsUnique, IsUnique, erase-IsUnique}
use primihub.Grpc.{TaskContext}
use primihub.VmNode.Tables.{lookup-erase_all, lookup-clean}
use primihub.Grpc.Call.{server_of, on_execute_task}
use primihub.VmNode.{
  VmNode, Executor, Manage, OperateTaskType, task_uid, erase_all, clean_duplicate_task_id_filter,
  is_duplicate_task, timed_out, task_id_timeout,
}
use primihub.VmNode.Execute.{execute_task, start_thread}
use primihub.Common.{Node}
use primihub.Queue.{Queue, push}
use primihub.Prelude.Dict.{Dict, erase, lookup, insert, lookup-insert}

-- The message by which the manage thread learns of a task.
abbrev pub add_message : TaskContext → Executor → Manage
add_message info x = record {
  worker_id = info.request_id;
  executor = some x;
  operation = OperateTaskType.add;
}

-- The messages of the manage thread behind this wait for the worker.
abbrev pub announced : Retcode → Manage → Queue Manage → Queue Manage
announced success a q = push a q
announced fail a q = q

-- The node has not seen the task.
pub record IsNew (info : TaskContext) (n : VmNode) : Type 0 where
  pub unique : IsUnique n.duplicate_task_id_filter
  pub unseen : lookup (task_uid info.request_id info.sub_task_id) n.duplicate_task_id_filter ≡ none

-- The node has seen it at the time `t` or later.
pub record IsSeen (info : TaskContext) (t : ℕ) (n : VmNode) : Type 0 where
  pub unique : IsUnique n.duplicate_task_id_filter
  pub since : ℕ
  pub seen :
      lookup (task_uid info.request_id info.sub_task_id) n.duplicate_task_id_filter ≡ some since
  pub late : t ≤ since

erase_all-IsUnique :
    {V : Type 0} (ks : List Bytes) (m : Dict V) → IsUnique m → IsUnique (erase_all ks m)
unfolding erase_all
erase_all-IsUnique [] m u = u
erase_all-IsUnique (k ∷ ks) m u = erase_all-IsUnique ks (erase k m) (erase-IsUnique k m u)

module _ (server : Node) (info : TaskContext) (x : Executor) where
  abbrev uid : Bytes
  uid = task_uid info.request_id info.sub_task_id

  -- The filter after a round of cleaning at the time `u`.
  abbrev cleaned : ℕ → VmNode → Dict ℕ
  cleaned u n =
      erase_all (timed_out (λ (s : ℕ). s) task_id_timeout u n.duplicate_task_id_filter)
        n.duplicate_task_id_filter

  cleaned-IsUnique :
      (u : ℕ) (n : VmNode) → IsUnique n.duplicate_task_id_filter → IsUnique (cleaned u n)
  cleaned-IsUnique u n v = erase_all-IsUnique _ n.duplicate_task_id_filter v

  execute_new :
      (ready : Retcode) (u : ℕ) (n : VmNode)
      → lookup uid (cleaned u n) ≡ none
      → on_execute_task server info x ready u n ≡ (
        record n {
          duplicate_task_id_filter = insert uid u (cleaned u n);
          started = n.started ++ info.request_id ∷ [];
          task_manage_queue = announced ready (add_message info x) n.task_manage_queue;
        },
        record { task_info = info; task_server = server_of server ready },
      )
  unfolding on_execute_task execute_task clean_duplicate_task_id_filter is_duplicate_task
      start_thread
  execute_new success u n e = ground (arith, e)
  execute_new fail u n e = ground (arith, e)

  execute_seen :
      (ready : Retcode) (u s : ℕ) (n : VmNode)
      → lookup uid (cleaned u n) ≡ some s
      → on_execute_task server info x ready u n ≡ (
        record n { duplicate_task_id_filter = cleaned u n },
        record { task_info = info; task_server = [] },
      )
  unfolding on_execute_task execute_task clean_duplicate_task_id_filter is_duplicate_task
  execute_seen ready u s n e = ground (arith, e)

  gone : (u : ℕ) (n : VmNode) → IsNew info n → lookup uid (cleaned u n) ≡ none
  gone u n v = ground (
    arith,
    lookup-erase_all uid (timed_out (λ (s : ℕ). s) task_id_timeout u n.duplicate_task_id_filter)
        n.duplicate_task_id_filter,
    v.unseen,
  )

  kept :
      (t u : ℕ) (n : VmNode) (v : IsSeen info t n)
      → u ≤ t + 30
      → lookup uid (cleaned u n) ≡ some v.since
  kept t u n v k = ground (
    arith,
    lookup-clean (λ (s : ℕ). s) task_id_timeout u uid v.since n.duplicate_task_id_filter v.unique
        v.seen,
    v.late,
  )

  pub first_time :
      (ready : Retcode) (t u : ℕ) (n : VmNode)
      → t ≤ u
      → IsNew info n
      → let (m, reply) = on_execute_task server info x ready u n in
        IsSeen info t m
        × (m.task_manage_queue ≡ announced ready (add_message info x) n.task_manage_queue)
        × (m.started ≡ n.started ++ info.request_id ∷ [])
        × (reply.task_server ≡ server_of server ready)
  first_time ready t u n h v =
      let e = gone u n v in
      rw (execute_new ready u n e) (
        record {
          unique = insert-IsUnique uid u (cleaned u n) (cleaned-IsUnique u n v.unique);
          since = u;
          seen = ground (arith, lookup-insert uid uid u (cleaned u n) e, ==_refl uid);
          late = h;
        },
        refl,
        refl,
        refl,
      )

  pub next_time :
      (ready : Retcode) (t u : ℕ) (n : VmNode)
      → u ≤ t + 30
      → IsSeen info t n
      → let (m, reply) = on_execute_task server info x ready u n in
        IsSeen info t m
        × (m.task_manage_queue ≡ n.task_manage_queue)
        × (m.started ≡ n.started)
        × (reply.task_server ≡ [])
  next_time ready t u n k v =
      let e = kept t u n v k in
      rw (execute_seen ready u v.since n e) (
        record { unique = cleaned-IsUnique u n v.unique; since = v.since; seen = e; late = v.late },
        refl,
        refl,
        refl,
      )
