-- ===== src/Grpc/Deliver.antt =====
-- src/primihub/util/network/grpc_link_context.cc at src/primihub/node/node_interface.cc: what arrives of what a
-- channel sends.
use primihub.Prelude.{
  ℕ, zero, suc, ◌+◌, ◌-◌, ◌/◌, ◌<◌, ◌≡◌, refl, sym, ap, ◌∙◌, inl, inr, true, false, some, List, [],
  ◌∷◌, ◌++◌, map, append-nil, append_assoc, arith, Option-cases, Bytes, length, All, replicate,
  Retcode, success, fail,
}
use primihub.Grpc.{TaskContext, TaskRequest, build_task_request, limited_package_size}
use primihub.Grpc.Packages.{IsPackage, request_bytes, joined, build_task_request_lem}
use primihub.Grpc.Server.{Received, nothing, read_stream, on_send, set_ret_code}
use primihub.Grpc.Client.{Fate, answered, unreached, send, send_loop}
use primihub.VmNode.{VmNode}
use primihub.VmNode.Exchange.{process_received_data}
use primihub.VmNode.Requests.{link_of, receive_all}

-- Behind the first message only the bytes count.
read_stream_rest :
    (s : Received) (qs : List TaskRequest)
    → read_stream true s qs
      ≡ record s { received_data = s.received_data ++ joined (map request_bytes qs) }
unfolding read_stream joined
read_stream_rest s [] =
    ap (λ (b : Bytes). record s { received_data = b }) (sym (append-nil s.received_data))
read_stream_rest s (q ∷ r) =
    read_stream_rest (record s { received_data = s.received_data ++ q.bytes }) r
    ∙ ap (λ (b : Bytes). record s { received_data = b })
        (append_assoc s.received_data q.bytes (joined (map request_bytes r)))

-- A stream of packages that is not empty has their task, their key, and their bytes.
read_stream-packages :
    (info : TaskContext) (key d : Bytes) (q : TaskRequest) (r : List TaskRequest)
    → IsPackage info key d q
    → read_stream false nothing (q ∷ r)
      ≡ record { task_info = info; key = key; received_data = joined (map request_bytes (q ∷ r)) }
unfolding read_stream joined
read_stream-packages info key d q r h =
    read_stream_rest (record { task_info = q.task_info; key = q.role; received_data = q.bytes }) r
    ∙ rw (h.0, h.1) refl

-- The peer's handler at such a stream.
pub on_send-packages :
    (info : TaskContext) (key d : Bytes) (q : TaskRequest) (r : List TaskRequest) (n : VmNode)
    → IsPackage info key d q
    → (on_send (q ∷ r) n success n).1
      ≡ (process_received_data info.request_id key
          (joined (map request_bytes (q ∷ r)))
          n
          success
          n).1
unfolding on_send
on_send-packages info key d q r n h = rw (read_stream-packages info key d q r h) refl

-- `Send` answers with the code SUCCESS whatever becomes of the data.
on_send_success :
    (qs : List TaskRequest) (entry n : VmNode) (ready : Retcode)
    → (on_send qs entry ready n).0.ret_code ≡ success
unfolding on_send set_ret_code
on_send_success qs entry n ready = refl

send_loop-answered :
    (qs : List TaskRequest) (j t : ℕ) (rest : List Fate) (n : VmNode)
    → t + j < 3
    → send_loop t qs (replicate j unreached ++ answered ∷ rest) n
      ≡ some (success, (on_send qs n success n).1)
unfolding send_loop
send_loop-answered qs zero t rest n h = ground (arith, on_send_success qs n n success)
send_loop-answered qs (suc j) t rest n h =
    ground (arith, send_loop-answered qs j (t + 1) rest n (omega arith))

-- The node that the data of one message leaves behind.
abbrev pub received : TaskContext → Bytes → Bytes → VmNode → VmNode
received info key d n = (process_received_data info.request_id key d n success n).1

-- The requests of a message, of which there is at least one.
pub requests_of :
    (info : TaskContext) (key d : Bytes)
    → (q : TaskRequest) × (r : List TaskRequest) × (build_task_request info key d ≡ some (q ∷ r))
      × (joined (map request_bytes (q ∷ r)) ≡ d)
      × All (IsPackage info key d) (q ∷ r)
requests_of info key d =
    let (qs, e, b, a, c) = build_task_request_lem info key d in first qs e b a c
  where
    first :
        (qs : List TaskRequest)
        → build_task_request info key d ≡ some qs
        → joined (map request_bytes qs) ≡ d
        → All (IsPackage info key d) qs
        → length qs ≡ 1 + (length d - 1) / limited_package_size
        → (q : TaskRequest) × (r : List TaskRequest) × (build_task_request info key d
            ≡ some (q ∷ r))
          × (joined (map request_bytes (q ∷ r)) ≡ d)
          × All (IsPackage info key d) (q ∷ r)
    first [] e b a c = absurd (omega (arith, c))
    first (q ∷ r) e b a c = (q, r, e, b, a)

-- After fewer than three attempts that do not reach the peer, an answered one brings the whole message to
-- the handler of the node, once, and the call succeeds.
pub send_lem :
    (info : TaskContext) (key d : Bytes) (j : ℕ) (rest : List Fate) (n : VmNode)
    → j < 3
    → send info key d (replicate j unreached ++ answered ∷ rest) n
      ≡ some (success, received info key d n)
unfolding send
send_lem info key d j rest n h =
    let (q, r, e, b, a) = requests_of info key d in
    let f = send_loop-answered (q ∷ r) j 0 rest n (omega arith) in
    let g = on_send-packages info key d q r n a.0 in rw (e, send) (f ∙ rw (g, b) refl)

-- Three attempts that do not reach the peer end the call with a failure, and the peer is what it was.
send_gives_up :
    (info : TaskContext) (key d : Bytes) (rest : List Fate) (n : VmNode)
    → send info key d (unreached ∷ unreached ∷ unreached ∷ rest) n ≡ some (fail, n)
unfolding send send_loop
send_gives_up info key d rest n =
    let (q, r, e, b, a) = requests_of info key d in rw (e, send) (ground arith)

pub receive_all-cons :
    (k key d : Bytes) (r : List (Bytes × Bytes)) (n m : VmNode)
    → receive_all k ((key, d) ∷ r) n ≡ some m
    → receive_all k r (process_received_data k key d n success n).1 ≡ some m
unfolding receive_all process_received_data
receive_all-cons k key d r n m e = elim (Option-cases (link_of k n)) [
  | inl x ↦ absurd (ground (arith, e, x))
  | inr (l, x) ↦ ground (arith, e, x)
]

pub receive_all-nil : (k : Bytes) (n m : VmNode) → receive_all k [] n ≡ some m → n ≡ m
unfolding receive_all
receive_all-nil k n m e = cc
