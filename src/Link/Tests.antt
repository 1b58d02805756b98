-- ===== src/Link/Tests.antt =====
-- Runs and instances for src/primihub/util/network/link_context.cc.
use primihub.Prelude.{
  ◌==◌, ◌≡◌, refl, Bool, true, false, none, some, List, [], ◌∷◌, arith, Bytes, codes,
}
use primihub.Link.Order.{IsOpen, addressed, recv_many, deliver_all, recv_many-deliver_all, pending}
use primihub.Link.{LinkContext}
use primihub.Prelude.Dict.{lookup}
use primihub.Prelude.{
  ◌==◌, ◌≡◌, refl, Bool, true, false, none, some, List, [], ◌∷◌, arith, Bytes, codes,
}
use primihub.Link.Memory.{recv_impl_many, exchange}
use primihub.Link.Ends.{first_end, second_end, both_open, recv_impl_many-exchange}

abbrev idle : LinkContext
idle = record { in_data = []; out_data = []; complete = []; stop = false }

idle-IsOpen : IsOpen idle
idle-IsOpen = record { running = refl; open_queues = λ k q h. unfold lookup in cc }

abbrev mixed : List (Bytes × Bytes)
mixed = (1 ∷ [], 7 ∷ []) ∷ (2 ∷ [], 8 ∷ []) ∷ (1 ∷ [], 9 ∷ []) ∷ []

recv_many-deliver_all_example :
    (recv_many 2 (1 ∷ []) (deliver_all mixed idle) ≡ some ((7 ∷ []) ∷ (9 ∷ []) ∷ []))
    × (recv_many 3 (1 ∷ []) (deliver_all mixed idle) ≡ none)
unfolding addressed ◌==◌
recv_many-deliver_all_example =
    recv_many-deliver_all mixed (1 ∷ []) idle idle-IsOpen (unfold pending lookup in refl)

abbrev talk : List (Bool × Bytes)
talk = (true, 1 ∷ []) ∷ (false, 2 ∷ []) ∷ (true, 3 ∷ []) ∷ []

recv_impl_many-exchange_example :
    (recv_impl_many 2 (second_end (codes "r") (codes "a") (codes "b")) (
        exchange
          (first_end (codes "r") (codes "a") (codes "b"))
          (second_end (codes "r") (codes "a") (codes "b"))
          talk
          (both_open (codes "r") (codes "a") (codes "b")))
      ≡ some ((1 ∷ []) ∷ (3 ∷ []) ∷ []))
    × (recv_impl_many 3 (second_end (codes "r") (codes "a") (codes "b")) (
          exchange
            (first_end (codes "r") (codes "a") (codes "b"))
            (second_end (codes "r") (codes "a") (codes "b"))
            talk
            (both_open (codes "r") (codes "a") (codes "b")))
        ≡ none)
recv_impl_many-exchange_example =
    recv_impl_many-exchange (codes "r") (codes "a") (codes "b") talk (unfold ◌==◌ in refl)
      (omega arith) (omega arith)
