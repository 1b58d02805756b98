-- ===== src/VmNode/Shutdown.antt =====
-- src/primihub/node/node_impl.cc: the destructor of a node, and the threads whose ends it waits for.
use primihub.Prelude.{◌≡◌, refl, true, false, List, [], arith, if◌then◌else◌, Bytes}
use primihub.Queue.{shutdown, wait_and_pop, blocked, stopped, popped}
use primihub.VmNode.{VmNode, Executor}

-- `~VMNodeImpl`, before it waits for the threads.
unfoldable pub destroy : VmNode → VmNode
destroy n = record n {
  stop = true;
  finished_workers = shutdown n.finished_workers;
  finished_scheduler_workers = shutdown n.finished_scheduler_workers;
}

-- What a thread does next: it sleeps, leaves its loop, or does a round on what it has taken.
pub data Thread (A : Type 0) : Type 0 where
  sleeping : Thread A
  left : Thread A
  works : A → VmNode → Thread A

-- One round of `CleanFinishedTaskThread`: the executors taken are destroyed.
unfoldable clean_finished_task : VmNode → Thread (List Executor)
clean_finished_task n = elim (wait_and_pop n.finished_task_queue) [
  | blocked ↦ sleeping
  | stopped ↦ if n.stop then left else works [] n
  | popped xs q ↦ if n.stop then left else works xs (record n { finished_task_queue = q })
]

-- One round of `ProcessKillTaskThread`: the workers taken are killed, then destroyed.
unfoldable process_kill_task : VmNode → Thread (List Executor)
process_kill_task n = elim (wait_and_pop n.kill_task_queue) [
  | blocked ↦ sleeping
  | stopped ↦ if n.stop then left else works [] n
  | popped xs q ↦ if n.stop then left else works xs (record n { kill_task_queue = q })
]

-- The first wait of `CleanFinishedSchedulerWorkerThread`: the id of a scheduler's worker.
unfoldable take_finished_scheduler : VmNode → Thread Bytes
take_finished_scheduler n = elim (wait_and_pop n.finished_scheduler_workers) [
  | blocked ↦ sleeping
  | stopped ↦ if n.stop then left else works [] n
  | popped id q ↦ if n.stop then left else works id (record n { finished_scheduler_workers = q })
]

-- The destructor wakes one thread of those that it waits for. On a node whose queues of finished
-- and killed tasks and of manage messages are open and empty, the thread that cleans the scheduler's
-- workers leaves after the destructor's first steps, while those that destroy, kill and register tasks still sleep.
destroy_hangs :
    (n : VmNode)
    → n.finished_task_queue ≡ record { items = []; stop = false }
    → n.kill_task_queue ≡ record { items = []; stop = false }
    → n.task_manage_queue ≡ record { items = []; stop = false }
    → (take_finished_scheduler (destroy n) ≡ left)
      × (clean_finished_task (destroy n) ≡ sleeping)
      × (process_kill_task (destroy n) ≡ sleeping)
      × (wait_and_pop (destroy n).task_manage_queue ≡ blocked)
unfolding take_finished_scheduler clean_finished_task process_kill_task destroy wait_and_pop
    shutdown
destroy_hangs n f k m = (refl, ground (arith, f), ground (arith, k), ground (arith, m))
