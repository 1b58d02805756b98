-- ===== src/Grpc/Once.antt =====
-- src/primihub/util/network/grpc_link_context.cc and src/primihub/node/node_impl.cc: a task that is sent several
-- times is run once.
use primihub.Prelude.{
  ℕ, ◌+◌, ◌≤◌, ◌<◌, ◌≡◌, refl, ap, ◌∙◌, Bool, true, false, Option, some, List, [], ◌∷◌, ◌++◌, arith,
  if◌then◌else◌, length, All, Retcode, success, fail,
}
use primihub.Grpc.{TaskContext}
use primihub.Grpc.Call.{
  server_of, retry_loop, Attempt, replied, refused, unanswered, on_execute_task, send_execute_task,
  PushTaskReply, retry_loop, call_loop,
}
use primihub.VmNode.{VmNode, Executor}
use primihub.Common.{Node}
use primihub.Grpc.Retry.{left_by, until_reply, has_reply, call_ends}
use primihub.Grpc.Seen.{announced, add_message, IsNew, IsSeen, first_time, next_time}

-- The attempt comes at the peer within the 30 seconds after `t`, or not at all.
abbrev pub IsSoon : ℕ → Attempt → Type 0
IsSoon t (replied u) = (t ≤ u) × (u ≤ t + 30)
IsSoon t refused = Unit
IsSoon t (unanswered u) = (t ≤ u) × (u ≤ t + 30)

-- No attempt reaches the peer.
abbrev none_reached : List Attempt → Bool
none_reached [] = true
none_reached (replied u ∷ r) = false
none_reached (refused ∷ r) = none_reached r
none_reached (unanswered u ∷ r) = false

-- The first attempt that reaches the node is replied to.
abbrev pub at_once : List Attempt → Bool
at_once [] = false
at_once (replied u ∷ r) = true
at_once (refused ∷ r) = at_once r
at_once (unanswered u ∷ r) = false

has_reply-length : (r : List Attempt) → has_reply r ≡ true → 0 < length r
has_reply-length [] h = absurd (ground (arith, h))
has_reply-length (a ∷ r) h = omega arith

module _ (server : Node) (info : TaskContext) (x : Executor) where
  -- On a node that has seen the task, no attempt starts a thread or adds to the manage thread's messages.
  seen_left :
      (ready : Retcode) (t : ℕ) (r : List Attempt) (n : VmNode)
      → All (IsSoon t) r
      → IsSeen info t n
      → let m = left_by (on_execute_task server info x ready) r n in
        (m.task_manage_queue ≡ n.task_manage_queue) × (m.started ≡ n.started)
  unfolding left_by
  seen_left ready t [] n a v = (refl, refl)
  seen_left ready t (replied u ∷ r) n a v =
      let w = next_time server info x ready t u n a.0.1 v in
      let e = seen_left ready t r (on_execute_task server info x ready u n).0 a.1 w.0 in
      (e.0 ∙ w.1, e.1 ∙ w.2)
  seen_left ready t (refused ∷ r) n a v = seen_left ready t r n a.1 v
  seen_left ready t (unanswered u ∷ r) n a v =
      let w = next_time server info x ready t u n a.0.1 v in
      let e = seen_left ready t r (on_execute_task server info x ready u n).0 a.1 w.0 in
      (e.0 ∙ w.1, e.1 ∙ w.2)

  new_left :
      (ready : Retcode) (t : ℕ) (r : List Attempt) (n : VmNode)
      → All (IsSoon t) r
      → IsNew info n
      → let m = left_by (on_execute_task server info x ready) r n in
        (m.task_manage_queue ≡ (
          if none_reached r
          then n.task_manage_queue
          else announced ready (add_message info x) n.task_manage_queue))
        × (m.started ≡ (if none_reached r then n.started else n.started ++ info.request_id ∷ []))
  unfolding left_by
  new_left ready t [] n a v = (refl, refl)
  new_left ready t (replied u ∷ r) n a v =
      let w = first_time server info x ready t u n a.0.0 v in
      let e = seen_left ready t r (on_execute_task server info x ready u n).0 a.1 w.0 in
      (e.0 ∙ w.1, e.1 ∙ w.2)
  new_left ready t (refused ∷ r) n a v = new_left ready t r n a.1 v
  new_left ready t (unanswered u ∷ r) n a v =
      let w = first_time server info x ready t u n a.0.0 v in
      let e = seen_left ready t r (on_execute_task server info x ready u n).0 a.1 w.0 in
      (e.0 ∙ w.1, e.1 ∙ w.2)

  IsSoon-until_reply :
      (t : ℕ) (r : List Attempt) → All (IsSoon t) r → All (IsSoon t) (until_reply r)
  unfolding until_reply
  IsSoon-until_reply t [] a = tt
  IsSoon-until_reply t (replied u ∷ r) a = (a.0, tt)
  IsSoon-until_reply t (refused ∷ r) a = (tt, IsSoon-until_reply t r a.1)
  IsSoon-until_reply t (unanswered u ∷ r) a = (a.0, IsSoon-until_reply t r a.1)

  none_reached-until_reply : (r : List Attempt) → none_reached (until_reply r) ≡ none_reached r
  unfolding until_reply
  none_reached-until_reply [] = refl
  none_reached-until_reply (replied u ∷ r) = refl
  none_reached-until_reply (refused ∷ r) = none_reached-until_reply r
  none_reached-until_reply (unanswered u ∷ r) = refl

  -- A task is run once however often it is sent: on a node that has not seen it, and where all attempts
  -- that reach the node do so within 30 seconds, `executeTask` ends, with SUCCESS exactly if one of its
  -- three attempts is replied to. If any of them reached the node, however many did, it has started one
  -- thread more, and has one message more that announces the task to the manage thread if the wait for
  -- the worker succeeds, and none if it fails; if none reached it, neither.
  pub executes_once :
      (ready : Retcode) (t : ℕ) (a b c : Attempt) (rest : List Attempt) (n : VmNode)
      → All (IsSoon t) (a ∷ b ∷ c ∷ [])
      → IsNew info n
      → (o : Option PushTaskReply) × (m : VmNode) × (send_execute_task server info x ready
            (a ∷ b ∷ c ∷ rest)
            n
          ≡ some (if has_reply (a ∷ b ∷ c ∷ []) then success else fail, o, m))
        × (m.started ≡ (
            if none_reached (a ∷ b ∷ c ∷ []) then n.started else n.started ++ info.request_id ∷ []))
        × (m.task_manage_queue ≡ (
            if none_reached (a ∷ b ∷ c ∷ [])
            then n.task_manage_queue
            else announced ready (add_message info x) n.task_manage_queue))
  unfolding send_execute_task
  executes_once ready t a b c rest n h v =
      let r : List Attempt = a ∷ b ∷ c ∷ [] in
      let (o, e) = call_ends (on_execute_task server info x ready) a b c rest n in
      let w = new_left ready t (until_reply r) n (IsSoon-until_reply t r h) v in
      let same = none_reached-until_reply r in
      (
        o,
        left_by (on_execute_task server info x ready) (until_reply r) n,
        e,
        w.1 ∙ ap (λ (b : Bool). if b then n.started else n.started ++ info.request_id ∷ []) same,
        w.0
            ∙ ap
                (λ (b : Bool).
                  if b
                  then n.task_manage_queue
                  else announced ready (add_message info x) n.task_manage_queue)
                same,
      )

  -- The reply that ends a call after `k` retries, at a node that has seen the task.
  seen_reply :
      (ready : Retcode) (t k : ℕ) (r : List Attempt) (n : VmNode)
      → k + length r ≤ 3
      → has_reply r ≡ true
      → All (IsSoon t) r
      → IsSeen info t n
      → (m : VmNode) × (reply : PushTaskReply) × (call_loop
            (on_execute_task server info x ready)
            k
            r
            n
          ≡ some (success, some reply, m))
        × (reply.task_server ≡ [])
  unfolding retry_loop
  seen_reply ready t k [] n l h a v = absurd (ground (arith, h))
  seen_reply ready t k (replied u ∷ r) n l h a v =
      let w = next_time server info x ready t u n a.0.1 v in (_, _, refl, w.3)
  seen_reply ready t k (refused ∷ r) n l h a v =
      let (m, p, e, q) = seen_reply ready t (k + 1) r n (omega arith) h a.1 v in
      (m, p, ground (arith, e, has_reply-length r h, l), q)
  seen_reply ready t k (unanswered u ∷ r) n l h a v =
      let w = next_time server info x ready t u n a.0.1 v in
      let (m, p, e, q) =
        seen_reply ready t (k + 1) r (on_execute_task server info x ready u n).0 (omega arith) h a.1
          w.0 in
      (m, p, ground (arith, e, has_reply-length r h, l), q)

  -- The same at a node that has not: the reply names the node's server, if its worker gets ready, exactly
  -- if the first attempt that reaches the node is replied to.
  pub new_reply :
      (ready : Retcode) (t k : ℕ) (r : List Attempt) (n : VmNode)
      → k + length r ≤ 3
      → has_reply r ≡ true
      → All (IsSoon t) r
      → IsNew info n
      → (m : VmNode) × (reply : PushTaskReply) × (call_loop
            (on_execute_task server info x ready)
            k
            r
            n
          ≡ some (success, some reply, m))
        × (reply.task_server ≡ (if at_once r then server_of server ready else []))
  unfolding retry_loop
  new_reply ready t k [] n l h a v = absurd (ground (arith, h))
  new_reply ready t k (replied u ∷ r) n l h a v =
      let w = first_time server info x ready t u n a.0.0 v in (_, _, refl, w.3)
  new_reply ready t k (refused ∷ r) n l h a v =
      let (m, p, e, q) = new_reply ready t (k + 1) r n (omega arith) h a.1 v in
      (m, p, ground (arith, e, has_reply-length r h, l), q)
  new_reply ready t k (unanswered u ∷ r) n l h a v =
      let w = first_time server info x ready t u n a.0.0 v in
      let (m, p, e, q) =
        seen_reply ready t (k + 1) r (on_execute_task server info x ready u n).0 (omega arith) h a.1
          w.0 in
      (m, p, ground (arith, e, has_reply-length r h, l), q)
