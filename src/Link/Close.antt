-- ===== src/Link/Close.antt =====
-- src/primihub/util/network/link_context.cc: what `Clean` does to those who wait.
use primihub.Prelude.{
  ◌≡◌, refl, ◌∙◌, inl, inr, true, none, some, List, [], ◌∷◌, arith, if◌then◌else◌, Option-cases,
  Bytes, success, fail,
}
use primihub.Prelude.Dict.{
  lookup, assign, lookup-assign, lookup-map_values, map_values, lookup-assign_self,
}
use primihub.Queue.{Queue, shutdown, wait_and_pop, new, push, stopped}
use primihub.Link.{
  LinkContext, clean, Call, acknowledge, deliver, get_recv_queue, recv, fetch, waits, returns,
  answer, forward, send_recv, take_complete,
}

-- No receive queue of a stopped context is open.
pub record IsClosed (l : LinkContext) : Type 0 where
  pub stopped_context : l.stop ≡ true
  pub stopped_queues : (k : Bytes) (q : Queue Bytes) → lookup k l.in_data ≡ some q → q.stop ≡ true

clean-IsClosed : (l : LinkContext) → IsClosed (clean l)
unfolding clean
clean-IsClosed l = record {
  stopped_context = refl;
  stopped_queues =
      λ k q h. unfold shutdown in ground (arith, h, lookup-map_values shutdown k l.in_data);
}

-- To write a queue back keeps the context closed, if that queue is shut down.
store-IsClosed :
    (key : Bytes) (q : Queue Bytes) (l : LinkContext)
    → q.stop ≡ true
    → IsClosed l
    → IsClosed (record l { in_data = assign key q l.in_data })
store-IsClosed key q l e v = record {
  stopped_context = v.stopped_context;
  stopped_queues =
      λ k r h. ground (arith, h, lookup-assign key k q l.in_data, v.stopped_queues k r);
}

abbrev IsShut : LinkContext × Queue Bytes → Type 0
IsShut p = IsClosed p.0 × (p.1.stop ≡ true)

get_recv_queue-IsShut : (key : Bytes) (l : LinkContext) → IsClosed l → IsShut (get_recv_queue key l)
unfolding get_recv_queue
get_recv_queue-IsShut key l v = elim (Option-cases (lookup key l.in_data)) [
  | inl e ↦
      let shut : (if l.stop then shutdown new else new {A = Bytes}).stop ≡ true =
        unfold shutdown in ground (arith, v.stopped_context) in
      rw (e, get_recv_queue) (store-IsClosed key _ l shut v, shut)
  | inr (q, e) ↦ rw (e, get_recv_queue) (v, v.stopped_queues key q e)
]

-- The context that a call leaves behind.
abbrev pub after {ℓ} : {A : Type ℓ} → Call A → LinkContext
after (waits m) = m
after (returns r a m) = m

-- What a closed context answers a receiver.
abbrev Drained : Call Bytes → Type 0
Drained (waits m) = ⊥
Drained (returns r a m) = (r ≡ success) × (a ≡ []) × IsClosed m

wait-stopped : (q : Queue Bytes) → q.stop ≡ true → wait_and_pop q ≡ stopped
unfolding wait_and_pop
wait-stopped q h = ground arith

recv-Drained : (key : Bytes) (l : LinkContext) → IsClosed l → Drained (recv key l)
unfolding recv
recv-Drained key l v =
    let (m, shut) = get_recv_queue-IsShut key l v in
    rw (wait-stopped (get_recv_queue key l).1 shut, recv) (refl, refl, m)

deliver-IsClosed :
    (key data_buffer : Bytes) (l : LinkContext) → IsClosed l → IsClosed (deliver key data_buffer l)
unfolding deliver
deliver-IsClosed key data_buffer l v =
    let (m, shut) = get_recv_queue-IsShut key l v in store-IsClosed key _ _ (unfold push in shut) m

-- Only the receive queues and the flag matter.
frame-IsClosed :
    (l m : LinkContext) → (m.in_data ≡ l.in_data) × (m.stop ≡ l.stop) → IsClosed l → IsClosed m
frame-IsClosed l m e v = record {
  stopped_context = e.1 ∙ v.stopped_context;
  stopped_queues = λ k q h. v.stopped_queues k q (rw e.0 at h);
}

acknowledge_frame :
    (key : Bytes) (l : LinkContext)
    → ((acknowledge key l).in_data ≡ l.in_data) × ((acknowledge key l).stop ≡ l.stop)
unfolding acknowledge
acknowledge_frame key l = ground arith

fetch_frame :
    (key : Bytes) (l : LinkContext)
    → ((after (fetch key l)).in_data ≡ l.in_data) × ((after (fetch key l)).stop ≡ l.stop)
unfolding fetch
fetch_frame key l = ground arith

take_complete_frame :
    (key : Bytes) (l : LinkContext)
    → ((after (take_complete key l)).in_data ≡ l.in_data)
      × ((after (take_complete key l)).stop ≡ l.stop)
unfolding take_complete
take_complete_frame key l = ground arith

-- `SendRecv` of a receiver fails on a closed context.
answer-IsClosed :
    (key send_buf : Bytes) (l : LinkContext)
    → IsClosed l
    → (m : LinkContext) × (answer key send_buf l ≡ returns fail [] m) × IsClosed m
unfolding answer
answer-IsClosed key send_buf l v = go (recv key l) refl (recv-Drained key l v)
  where
    go :
        (c : Call Bytes)
        → recv key l ≡ c
        → Drained c
        → (m : LinkContext) × (answer key send_buf l ≡ returns fail [] m) × IsClosed m
    go (waits m) e d = absurd d
    go (returns r a m) e d = (m, rw (e, answer) (ground (arith, d.2.stopped_context)), d.2)

-- What threads may do with a context.
pub data Use : Type 0 where
  delivers answers : Bytes → Bytes → Use
  receives forwards fetches acknowledges completes : Bytes → Use
  cleans : Use

perform : Use → LinkContext → LinkContext
perform (delivers key data_buffer) l = deliver key data_buffer l
perform (answers key send_buf) l = after (send_recv key send_buf l)
perform (receives key) l = after (recv key l)
perform (forwards key) l = after (forward key l)
perform (fetches key) l = after (fetch key l)
perform (acknowledges key) l = acknowledge key l
perform (completes key) l = after (take_complete key l)
perform cleans l = clean l

perform_all : List Use → LinkContext → LinkContext
perform_all [] l = l
perform_all (u ∷ us) l = perform_all us (perform u l)

after-Drained : (c : Call Bytes) → Drained c → IsClosed (after c)
after-Drained (waits m) d = absurd d
after-Drained (returns r a m) d = d.2

forward-IsClosed : (key : Bytes) (l : LinkContext) → IsClosed l → IsClosed (after (forward key l))
forward-IsClosed key l v = go (recv key l) refl (recv-Drained key l v)
  where
    go : (c : Call Bytes) → recv key l ≡ c → Drained c → IsClosed (after (forward key l))
    go (waits m) e d = absurd d
    go (returns r a m) e d =
        unfold forward in rw (e, forward) (frame-IsClosed m _ (acknowledge_frame key m) d.2)

send_recv-IsClosed :
    (key send_buf : Bytes) (l : LinkContext)
    → IsClosed l
    → IsClosed (after (send_recv key send_buf l))
unfolding send_recv
send_recv-IsClosed key send_buf l v =
    let (m, e, w) = answer-IsClosed key send_buf l v in rw (e, send_recv) w

perform-IsClosed : (u : Use) (l : LinkContext) → IsClosed l → IsClosed (perform u l)
unfolding perform
perform-IsClosed (delivers key data_buffer) l v = deliver-IsClosed key data_buffer l v
perform-IsClosed (answers key send_buf) l v = send_recv-IsClosed key send_buf l v
perform-IsClosed (receives key) l v = after-Drained _ (recv-Drained key l v)
perform-IsClosed (forwards key) l v = forward-IsClosed key l v
perform-IsClosed (fetches key) l v = frame-IsClosed l _ (fetch_frame key l) v
perform-IsClosed (acknowledges key) l v = frame-IsClosed l _ (acknowledge_frame key l) v
perform-IsClosed (completes key) l v = frame-IsClosed l _ (take_complete_frame key l) v
perform-IsClosed cleans l v = clean-IsClosed l

perform_all-IsClosed : (us : List Use) (l : LinkContext) → IsClosed l → IsClosed (perform_all us l)
unfolding perform_all
perform_all-IsClosed [] l v = v
perform_all-IsClosed (u ∷ us) l v = perform_all-IsClosed us _ (perform-IsClosed u l v)

-- After `Clean`, whatever threads then do with the context, `Recv` on any key returns at once, with
-- SUCCESS and an empty buffer, also on a key that was never used before or that gets data later, and
-- the receiver's `SendRecv` returns FAIL.
recv-clean :
    (us : List Use) (key send_buf : Bytes) (l : LinkContext)
    → let m = perform_all us (clean l) in
      Drained (recv key m) × ((k : LinkContext) × (send_recv key send_buf m ≡ returns fail [] k))
unfolding send_recv
recv-clean us key send_buf l =
    let v = perform_all-IsClosed us (clean l) (clean-IsClosed l) in
    let (k, e, w) = answer-IsClosed key send_buf _ v in
    (recv-Drained key _ v, (k, rw (e, send_recv)))

-- `GetSendQueue` does not look at the stop flag: on a key whose send queue does not exist yet, a
-- thread that fetches data after `Clean` sleeps, and what it sleeps on is an open queue.
fetch-clean :
    (key : Bytes) (l : LinkContext)
    → lookup key l.out_data ≡ none
    → (m : LinkContext) × (fetch key (clean l) ≡ waits m)
      × (m.stop ≡ true)
      × (lookup key m.out_data ≡ some new)
unfolding fetch clean new wait_and_pop
fetch-clean key l h =
    let e : lookup key (map_values shutdown l.out_data) ≡ none =
      ground (arith, h, lookup-map_values (shutdown {A = Bytes}) key l.out_data) in
    (
      record (clean l) { out_data = assign key new (map_values shutdown l.out_data) },
      ground (arith, e),
      refl,
      lookup-assign_self key new (map_values shutdown l.out_data),
    )
