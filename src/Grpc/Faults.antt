-- ===== src/Grpc/Faults.antt =====
-- src/primihub/util/network/grpc_link_context.cc at src/primihub/node/node_interface.cc: what a sender is not told,
-- and what arrives twice.
use primihub.Prelude.{
  ℕ, zero, suc, ◌<◌, ◌≡◌, refl, ap, ◌∙◌, none, some, List, [], ◌∷◌, ◌++◌, map, append_assoc, arith,
  Bytes, ==_refl, take, drop, success,
}
use primihub.Grpc.{TaskContext, TaskRequest}
use primihub.Grpc.Packages.{request_bytes, joined}
use primihub.Grpc.Client.{Fate, answered, send, send_loop, cut}
use primihub.VmNode.{VmNode}
use primihub.VmNode.Exchange.{process_received_data}
use primihub.Link.{LinkContext}
use primihub.VmNode.Requests.{link_of, receive_all-deliver_all}
use primihub.Link.Order.{IsOpen, pending, addressed, deliver_all, deliver_all-pending}
use primihub.Grpc.Deliver.{
  requests_of, send_lem, received, receive_all-cons, receive_all-nil, on_send-packages,
}

joined-take-drop :
    (k : ℕ) (qs : List TaskRequest)
    → joined (map request_bytes (take k qs)) ++ joined (map request_bytes (drop k qs))
      ≡ joined (map request_bytes qs)
unfolding joined
joined-take-drop zero qs = refl
joined-take-drop (suc k) [] = refl
joined-take-drop (suc k) (q ∷ r) =
    append_assoc q.bytes (joined (map request_bytes (take k r)))
      (joined (map request_bytes (drop k r)))
    ∙ ap (λ (b : Bytes). q.bytes ++ b) (joined-take-drop k r)

-- An attempt whose stream breaks behind its first packages, at least one, and an answered attempt.
send-cut :
    (info : TaskContext) (key d : Bytes) (k : ℕ) (rest : List Fate) (n : VmNode)
    → 0 < k
    → (b : Bytes) × (c : Bytes) × (b ++ c ≡ d)
      × (send info key d (cut k ∷ answered ∷ rest) n
          ≡ some (success, received info key d (received info key b n)))
unfolding send send_loop
send-cut info key d zero rest n h = absurd (omega arith)
send-cut info key d (suc k) rest n h =
    let (q, r, e, b, a) = requests_of info key d in
    let p : Bytes = joined (map request_bytes (q ∷ take k r)) in
    let f = on_send-packages info key d q (take k r) n a.0 in
    let g = on_send-packages info key d q r (received info key p n) a.0 in
    (
      p,
      joined (map request_bytes (drop k r)),
      joined-take-drop (suc k) (q ∷ r) ∙ b,
      rw (e, send) (rw f (rw (g, b) refl)),
    )

-- A retry is not harmless: where the stream of an attempt broke behind its first packages, at least
-- one, and the next attempt is answered, the call succeeds, and the task has two messages more to
-- receive for the key: what had come of the data, and the data. The task runs and its context is open.
pub send_twice :
    (info : TaskContext) (key d : Bytes) (k : ℕ) (rest : List Fate) (l : LinkContext) (n : VmNode)
    → link_of info.request_id n ≡ some l
    → IsOpen l
    → 0 < k
    → (b : Bytes) × (c : Bytes) × (m : VmNode) × (v : LinkContext) × (b ++ c ≡ d)
      × (send info key d (cut k ∷ answered ∷ rest) n ≡ some (success, m))
      × (link_of info.request_id m ≡ some v)
      × (pending key v ≡ pending key l ++ b ∷ d ∷ [])
send_twice info key d k rest l n h o p =
    let (b, c, w, s) = send-cut info key d k rest n p in
    let msgs : List (Bytes × Bytes) = (key, b) ∷ (key, d) ∷ [] in
    let (m, e, f, g) = receive_all-deliver_all info.request_id msgs l n h in
    let at =
      receive_all-cons info.request_id key d [] (received info key b n) m
        (receive_all-cons info.request_id key b ((key, d) ∷ []) n m e) in
    (
      b,
      c,
      m,
      deliver_all msgs l,
      w,
      s ∙ ap (λ (u : VmNode). some (success, u)) (receive_all-nil info.request_id _ m at),
      f,
      (deliver_all-pending msgs key l o).1 ∙ unfold addressed in ground (arith, ==_refl key),
    )

-- A message is reported as sent though the node had no place for it: where the task is finished or
-- unknown there, the call returns SUCCESS and the node is what it was.
pub send_lost :
    (info : TaskContext) (key d : Bytes) (rest : List Fate) (n : VmNode)
    → link_of info.request_id n ≡ none
    → send info key d (answered ∷ rest) n ≡ some (success, n)
send_lost info key d rest n h =
    send_lem info key d 0 rest n (omega arith) ∙ unfold process_received_data in ground (arith, h)
