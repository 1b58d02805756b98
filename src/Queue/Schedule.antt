-- ===== src/Queue/Schedule.antt =====
-- src/primihub/util/threadsafe_queue.h: many threads over one `ThreadSafeQueue`. A schedule is a list
-- of actions, each of them one critical section; `notify_one` wakes the thread that the schedule
-- names.
use primihub.Prelude.{ℕ, zero, suc, Option, none, some, List, [], ◌∷◌, ◌++◌}
use primihub.Queue.{Queue, blocked, stopped, popped, push, wait_and_pop, try_pop, shutdown}

-- The threads that sleep on `m_cv`, those that have the lock's promise to run, and the values handed
-- out so far, oldest first.
pub record Shared {ℓ} (A : Type ℓ) : Type ℓ where
  pub queue : Queue A
  pub asleep : List ℕ
  pub awake : List ℕ
  pub taken : List A

pub data Action {ℓ} (A : Type ℓ) : Type ℓ where
  -- a producer pushes, and wakes the sleeper at this place
  pushes : A → ℕ → Action A
  -- a thread enters `wait_and_pop`
  enters : ℕ → Action A
  -- the awake thread at this place tests the predicate
  runs : ℕ → Action A
  -- some thread calls `try_pop`
  tries : Action A
  -- some thread calls `shutdown`, and wakes the sleeper at this place
  stops : ℕ → Action A
  -- the sleeper at this place wakes up without a notification
  wakes : ℕ → Action A

unfoldable pub remove_at {ℓ} : {B : Type ℓ} → ℕ → List B → Option (B × List B)
remove_at n [] = none
remove_at zero (x ∷ xs) = some (x, xs)
remove_at (suc n) (x ∷ xs) = elim (remove_at n xs) [
  | none ↦ some (x, xs)
  | some (y, ys) ↦ some (y, x ∷ ys)
]

module _ {ℓ} {A : Type ℓ} where
  -- `m_cv.notify_one()`; a place behind the last sleeper stands for some sleeper before it.
  unfoldable pub notify_one : ℕ → Shared A → Shared A
  unfolding remove_at
  notify_one n s = elim (remove_at n s.asleep) [
    | none ↦ s
    | some (t, rest) ↦ record s { asleep = rest; awake = t ∷ s.awake }
  ]

  -- A woken thread finds the predicate false and sleeps again, or returns.
  unfoldable pub resume : ℕ → List ℕ → Shared A → Shared A
  unfolding wait_and_pop
  resume t rest s = elim (wait_and_pop s.queue) [
    | blocked ↦ record s { asleep = t ∷ s.asleep; awake = rest }
    | stopped ↦ record s { awake = rest }
    | popped a q ↦ record s { queue = q; awake = rest; taken = s.taken ++ a ∷ [] }
  ]

  unfoldable pub act : Action A → Shared A → Shared A
  unfolding notify_one resume remove_at push try_pop shutdown
  act (pushes a n) s = notify_one n (record s { queue = push a s.queue })
  act (enters t) s = record s { awake = t ∷ s.awake }
  act (runs n) s = elim (remove_at n s.awake) [ none ↦ s | some (t, rest) ↦ resume t rest s ]
  act tries s = elim (try_pop s.queue) [
    | none ↦ s
    | some (a, q) ↦ record s { queue = q; taken = s.taken ++ a ∷ [] }
  ]
  act (stops n) s = notify_one n (record s { queue = shutdown s.queue })
  act (wakes n) s = notify_one n s

  unfoldable pub run : List (Action A) → Shared A → Shared A
  unfolding act
  run [] s = s
  run (c ∷ cs) s = run cs (act c s)

  -- The values that a schedule pushes, in order.
  unfoldable pub pushed : List (Action A) → List A
  pushed [] = []
  pushed (pushes a n ∷ cs) = a ∷ pushed cs
  pushed (c ∷ cs) = pushed cs
