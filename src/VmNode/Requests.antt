-- ===== src/VmNode/Requests.antt =====
-- src/primihub/node/node_impl.cc: what the requests to a node bring about.
use primihub.Prelude.{
  ◌==◌, ℕ, ◌<◌, ◌≡◌, refl, ◌⊎◌, inl, inr, true, false, Option, none, some, List, [], ◌∷◌, arith,
  ltb, Bool-cases, Option-cases, Bytes, length, success, fail,
}
use primihub.Prelude.Dict.{lookup, assign, lookup-assign_self, lookup-assign}
use primihub.VmNode.{
  VmNode, Executor, get_worker, is_finished_task, is_task_worker_ready, get_scheduler_worker,
}
use primihub.VmNode.Exchange.{
  process_received_data, find_link, put_link, kill_task, fail_worker, by_client, kill_status,
  wait_until_worker_ready,
}
use primihub.Link.{LinkContext, deliver}
use primihub.Link.Order.{deliver_all, recv_many, addressed, recv_many-deliver_all, IsOpen, pending}
use primihub.Worker.{Worker, update_task_status, wait_until_task_finish}
use primihub.Worker.Verdict.{after, update-after}
use primihub.Link.Order.{deliver_all}

-- A kill by the client ends the task: while the task is not noted as finished and its scheduler's
-- worker has not decided, the call succeeds, the worker's wait returns a failure, and every other
-- scheduler's worker is what it was.
pub kill_task_by_client :
    (r k : Bytes) (w : Worker) (n : VmNode)
    → lookup k n.task_scheduler_map ≡ some w
    → (is_finished_task k n).0 ≡ false
    → w.scheduler_finished ≡ false
    → w.task_finish ≡ none
    → (j : Bytes) → (j == k) ≡ false
    → (m : VmNode) × (v : Worker) × (kill_task by_client r k n ≡ some m)
      × (lookup k m.task_scheduler_map ≡ some v)
      × (wait_until_task_finish v ≡ some fail)
      × (lookup j m.task_scheduler_map ≡ lookup j n.task_scheduler_map)
unfolding kill_task fail_worker get_scheduler_worker wait_until_task_finish
kill_task_by_client r k w n h f c d j q =
    let v = after (kill_status r) w in
    let e : update_task_status (kill_status r) w ≡ some v =
      update-after (kill_status r) w (ground (arith, c, d)) in
    (
      record n { task_scheduler_map = assign k v n.task_scheduler_map },
      v,
      ground (arith, h, f, e),
      lookup-assign_self k v n.task_scheduler_map,
      ground (arith, d),
      ground (arith, q, lookup-assign k j v n.task_scheduler_map),
    )

abbrev pub IsReady : Bytes → VmNode × ℕ → Type 0
IsReady k (n, t) = is_task_worker_ready k n ≡ true

abbrev IsLate : ℕ → VmNode × ℕ → Type 0
IsLate ms (n, t) = ms < t

abbrev Some : (VmNode × ℕ → Type 0) → List (VmNode × ℕ) → Type 0
Some P [] = ⊥
Some P (p ∷ r) = P p ⊎ Some P r

-- With a limit, the wait for a worker returns once its timer has passed the limit: it fails, or
-- succeeds because one of its polls found the worker ready.
wait_returns :
    (k : Bytes) (ms : ℕ) (polls : List (VmNode × ℕ))
    → Some (IsLate ms) polls
    → (wait_until_worker_ready k (some ms) polls ≡ some fail)
      ⊎ ((wait_until_worker_ready k (some ms) polls ≡ some success) × Some (IsReady k) polls)
unfolding wait_until_worker_ready
wait_returns k ms [] h = absurd h
wait_returns k ms ((n, t) ∷ r) h = elim (Bool-cases (is_task_worker_ready k n)) [
  | inl e ↦ inr (ground (arith, e), inl e)
  | inr e ↦ elim (Bool-cases (ltb ms t)) [
    | inl l ↦ inl (ground (arith, e, l))
    | inr l ↦
        let later : Some (IsLate ms) r = elim h [
          | inl q ↦ absurd (ground (arith, q, l))
          | inr q ↦ q
        ] in
        elim (wait_returns k ms r later) [
          | inl q ↦ inl (ground (arith, e, l, q))
          | inr q ↦ inr (ground (arith, e, l, q.0), inr q.1)
        ]
  ]
]

-- Without a limit, the wait never returns while no poll finds the worker ready.
wait_forever :
    (k : Bytes) (polls : List (VmNode × ℕ))
    → ¬ Some (IsReady k) polls
    → wait_until_worker_ready k none polls ≡ none
unfolding wait_until_worker_ready
wait_forever k [] h = refl
wait_forever k ((n, t) ∷ r) h = elim (Bool-cases (is_task_worker_ready k n)) [
  | inl e ↦ absurd (h (inl e))
  | inr e ↦ ground (arith, e, wait_forever k r (λ q. h (inr q)))
]

-- The context that the handlers find for an id on a node whose worker is ready.
abbrev pub link_of : Bytes → VmNode → Option LinkContext
link_of k n = find_link k n success n

-- Requests that bring data for one task, one after the other, on a node whose worker is ready.
unfoldable pub receive_all : Bytes → List (Bytes × Bytes) → VmNode → Option VmNode
unfolding process_received_data
receive_all k [] n = some n
receive_all k ((key, a) ∷ r) n =
    let (ret, m) = process_received_data k key a n success n in
    let rest = receive_all k r m in elim ret [ success ↦ rest | fail ↦ none ]

pub link_of-put_link :
    (k : Bytes) (l m : LinkContext) (n : VmNode)
    → link_of k n ≡ some l
    → (link_of k (put_link k m n) ≡ some m)
      × ((j : Bytes) → (j == k) ≡ false → get_worker j (put_link k m n) ≡ get_worker j n)
unfolding find_link put_link get_worker is_finished_task
link_of-put_link k l m n h = elim (Bool-cases (is_finished_task k n).0) [
  | inl f ↦ absurd (ground (arith, h, f))
  | inr f ↦ elim (Option-cases (lookup k n.task_executor_map)) [
    | inl e ↦ absurd (ground (arith, h, f, e))
    | inr ([], e) ↦ absurd (ground (arith, h, f, e))
    | inr (x ∷ r, e) ↦
        let q : List Executor = record x { link = some m } ∷ r in
        (
          ground (arith, f, e, lookup-assign_self k q n.task_executor_map),
          λ j d. ground (arith, d, e, lookup-assign k j q n.task_executor_map),
        )
  ]
]

pub receive_all-deliver_all :
    (k : Bytes) (msgs : List (Bytes × Bytes)) (l : LinkContext) (n : VmNode)
    → link_of k n ≡ some l
    → (m : VmNode) × (receive_all k msgs n ≡ some m)
      × (link_of k m ≡ some (deliver_all msgs l))
      × ((j : Bytes) → (j == k) ≡ false → get_worker j m ≡ get_worker j n)
unfolding receive_all deliver_all
receive_all-deliver_all k [] l n h = (n, refl, h, λ j d. refl)
receive_all-deliver_all k ((key, a) ∷ r) l n h =
    let v : LinkContext = deliver key a l in
    let (p, w) = link_of-put_link k l v n h in
    let (m, e, f, g) = receive_all-deliver_all k r v (put_link k v n) p in
    (
      m,
      unfold process_received_data in ground (arith, h, e),
      f,
      λ j d. ground (arith, g j d, w j d),
    )

-- The node delivers what it is sent: the requests that bring the messages of a task, one after the
-- other, all succeed while the task runs; from the context that the task then works with, `Recv` takes
-- exactly the messages of each key, in their order; and the workers of other ids are untouched. The
-- context is open and has nothing pending for the key.
node_delivers :
    (k key : Bytes) (msgs : List (Bytes × Bytes)) (l : LinkContext) (n : VmNode)
    → link_of k n ≡ some l
    → IsOpen l
    → pending key l ≡ []
    → (j : Bytes) → (j == k) ≡ false
    → (m : VmNode) × (v : LinkContext) × (receive_all k msgs n ≡ some m)
      × (link_of k m ≡ some v)
      × (recv_many (length (addressed key msgs)) key v ≡ some (addressed key msgs))
      × (get_worker j m ≡ get_worker j n)
node_delivers k key msgs l n h o p j d =
    let (m, e, f, g) = receive_all-deliver_all k msgs l n h in
    (m, deliver_all msgs l, e, f, (recv_many-deliver_all msgs key l o p).0, g j d)
