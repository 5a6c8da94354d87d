-- ===== src/Store/Tasks/Steps.antt =====
-- The operations on task_queue as one type of steps, and sequences of them.
use workbuddy.Prelude.{ℕ, String, List, [], ◌∷◌, ℤ}
use workbuddy.Store.Tasks.Row.{Status, Task}
use workbuddy.Store.Tasks.Queue.{
  Tasks, insert_task, transition_task_status_if_running, finalize_task_for_operator, claim_task,
  release_task, claim_next_task, ack_task, heartbeat_task, complete_task,
}

-- What a worker asks for its own sake.
pub data WorkerOp : Type 0 where
  claim : (id : String) → WorkerOp
  release : (id : String) → WorkerOp
  claim_next : (roles repos : List String) (runtime token : String) (lease : ℕ) → WorkerOp
  ack heartbeat : (id : String) (lease : ℕ) → WorkerOp
  complete : (id : String) (exit : ℤ) (refs : String) → WorkerOp

-- Every operation but UpdateTaskStatus, which overwrites any row.
pub data Op : Type 0 where
  by_worker : (worker : String) → WorkerOp → Op
  insert : Task → Op
  transition : (id : String) (status : Status) → Op
  finalize : (id : String) (status : Status) (exit : ℤ) → Op

unfoldable pub work : ℕ → String → WorkerOp → Tasks → Tasks
work now w (claim id) ts = (claim_task now id w ts).1
work now w (release id) ts = (release_task now id w ts).1
work now w (claim_next roles repos runtime token lease) ts =
    (claim_next_task now w roles repos runtime token lease ts).1
work now w (ack id lease) ts = (ack_task now id w lease ts).1
work now w (heartbeat id lease) ts = (heartbeat_task now id w lease ts).1
work now w (complete id exit refs) ts = (complete_task now id w exit refs ts).1

unfoldable pub apply : ℕ → Op → Tasks → Tasks
apply now (by_worker w op) ts = work now w op ts
apply now (insert t) ts = (insert_task now t ts).1
apply now (transition id status) ts = (transition_task_status_if_running now id status ts).1
apply now (finalize id status exit) ts = (finalize_task_for_operator now id status exit ts).1

unfoldable pub replay : List (ℕ × Op) → Tasks → Tasks
replay [] ts = ts
replay ((now, op) ∷ ops) ts = replay ops (apply now op ts)
