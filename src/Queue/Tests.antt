-- ===== src/Queue/Tests.antt =====
-- Runs and instances for src/primihub/util/threadsafe_queue.h.
use primihub.Prelude.{ℕ, ◌≤◌, ◌≡◌, refl, inr, true, false, some, List, [], ◌∷◌, arith, length}
use primihub.Queue.{push, new, try_pop}
use primihub.Queue.Schedule.{Shared, Action, pushes, enters, runs, stops, act, run, pushed}
use primihub.Queue.Delivery.{flow, flow-run, IsServed, run-IsServed, shutdown_strands}

fifo : try_pop {A = ℕ} (push 2 (push 1 new)) ≡ some (1, push 2 new)
unfolding push new try_pop
fifo = refl

-- Two threads sleep on an empty queue.
abbrev two_sleepers : Shared ℕ
two_sleepers = record {
  queue = record { items = []; stop = false };
  asleep = 8 ∷ 9 ∷ [];
  awake = [];
  taken = [];
}

abbrev two_values : List (Action ℕ)
two_values = pushes 5 0 ∷ pushes 6 0 ∷ runs 0 ∷ enters 7 ∷ runs 0 ∷ []

both_taken : (run two_values two_sleepers).taken ≡ 5 ∷ 6 ∷ []
unfolding run
both_taken = refl

flow-run_example : flow (run two_values two_sleepers) ≡ 5 ∷ 6 ∷ []
unfolding pushed
flow-run_example = flow-run two_values two_sleepers

run-IsServed_example : IsServed (run two_values two_sleepers)
unfolding run
run-IsServed_example = run-IsServed two_values two_sleepers refl (inr (omega arith))

-- After `shutdown`, thread 9 sleeps on, though nothing will ever wake it.
shutdown_strands_example :
    let t = run (runs 0 ∷ enters 7 ∷ runs 0 ∷ []) (act (stops 0) two_sleepers) in
    (t.queue.stop ≡ true) × (1 ≤ length t.asleep)
shutdown_strands_example =
    shutdown_strands 0 1 (runs 0 ∷ enters 7 ∷ runs 0 ∷ []) two_sleepers (omega arith)
      (tt, (tt, (tt, tt)))
