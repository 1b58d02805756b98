-- ===== src/Queue.antt =====
-- src/primihub/util/threadsafe_queue.h: `ThreadSafeQueue<T>`, one call at a time. What several
-- threads do at once is in Queue/Schedule.
pub mod Schedule
pub mod Delivery
pub mod Tests
use primihub.Prelude.{Bool, true, false, Option, none, some, List, [], ◌∷◌, ◌++◌}

pub record Queue {ℓ} (A : Type ℓ) : Type ℓ where
  pub items : List A
  pub stop : Bool

-- What a call that may wait does: it sleeps on the condition variable, returns because the queue is
-- shut down, or takes a value.
pub data Wait {ℓ} (A : Type ℓ) : Type ℓ where
  blocked : Wait A
  stopped : Wait A
  popped : A → Queue A → Wait A

module _ {ℓ} {A : Type ℓ} where
  unfoldable pub new : Queue A
  new = record { items = []; stop = false }

  -- `push` and `emplace`.
  unfoldable pub push : A → Queue A → Queue A
  push a q = record q { items = q.items ++ a ∷ [] }

  unfoldable pub is_empty : Queue A → Bool
  is_empty q = elim q.items [ [] ↦ true | a ∷ r ↦ false ]

  unfoldable pub try_pop : Queue A → Option (A × Queue A)
  try_pop q = elim q.items [ [] ↦ none | a ∷ rest ↦ some (a, record q { items = rest }) ]

  -- `wait_and_pop`, from the test of the predicate on.
  unfoldable pub wait_and_pop : Queue A → Wait A
  wait_and_pop q = elim q.stop [
    | true ↦ stopped
    | false ↦ elim q.items [ [] ↦ blocked | a ∷ rest ↦ popped a (record q { items = rest }) ]
  ]

  unfoldable pub shutdown : Queue A → Queue A
  shutdown q = record q { stop = true }

-- `pop` returns a default value once the queue is shut down.
unfoldable pub pop {ℓ} : {A : Type ℓ} → A → Queue A → Option (A × Queue A)
pop default q = elim q.stop [
  | true ↦ some (default, q)
  | false ↦ elim q.items [ [] ↦ none | a ∷ rest ↦ some (a, record q { items = rest }) ]
]
