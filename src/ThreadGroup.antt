-- ===== src/ThreadGroup.antt =====
-- rust_task/thread_pool/thread_group.rs: the queue and the workers. A worker is a program counter
-- in `worker_loop` with what it holds there; one call of `advance` is what it does between two
-- accesses of shared state, so that any interleaving of workers is a list of such calls.
use rust_task_runner.Common.{ℕ, Bool, true, false, List, Option, none, some, if◌then◌else◌, max}
use rust_task_runner.Task.{Callback}
use rust_task_runner.ThreadLocals.{
  ThreadLocals, CurrentDefaultHandle, enter_token, leave_token, enter_default, leave_default,
}
use rust_task_runner.Sequence.{Sequence}
use rust_task_runner.PriorityQueue
use rust_task_runner.PriorityQueue.{QueueEntry}

-- Where a worker is: in `get_work`; with a source from it; after `will_run_task` let it; in the
-- callback of a task; at `did_process_task`; between its two halves; at `push_task_source`; or
-- out of the loop. The number is that of the source.
pub data Pc : Type 0 where
  seeking : Pc
  got : ℕ → Pc
  claimed : ℕ → Pc
  running : ℕ → Callback → Pc
  processed : ℕ → Pc
  released : ℕ → Pc
  requeueing : ℕ → Pc
  exited : Pc

-- `slot` is the worker's slot in the monitor, if there is one.
pub record Worker : Type 0 where
  pub pc : Pc
  pub locals : ThreadLocals
  pub default_handle : Option CurrentDefaultHandle
  pub slot : Option ℕ

-- The state under the lock of the group, its shutdown flag, and its worker threads.
pub record ThreadGroup : Type 0 where
  pub priority_queue : List QueueEntry
  pub shutdown : Bool
  pub workers : ℕ → Worker

abbrev pub idle_worker : Worker
idle_worker = record {
  pc = seeking;
  locals = record { current_sequence_token = none; current_default = none };
  default_handle = none;
  slot = none;
}

-- `ThreadGroup::new`
unfoldable pub new : ThreadGroup
new = record { priority_queue = PriorityQueue.new; shutdown = false; workers = λ _. idle_worker }

unfoldable pub push_task_source : ℕ → ℕ → Sequence → ThreadGroup → ThreadGroup
unfolding PriorityQueue.push
push_task_source now source s g = record g {
  priority_queue = PriorityQueue.push now source s g.priority_queue;
}

-- The flag that `join_all` sets before it joins the workers.
unfoldable pub begin_join : ThreadGroup → ThreadGroup
begin_join g = record g { shutdown = true }

-- What `get_work` finds under its lock: it leaves, waits, or has a source.
pub data Work : Type 0 where
  leave : Work
  wait : Work
  work : QueueEntry → List QueueEntry → Work

abbrev work_of : Option (QueueEntry × List QueueEntry) → Work
work_of none = wait
work_of (some (e, rest)) = work e rest

unfoldable pub get_work : ThreadGroup → Work
get_work g = if g.shutdown then leave else work_of (PriorityQueue.pop g.priority_queue)

-- `env.task_runner.map(CurrentDefaultHandle::new)`
abbrev enter_runner : Option ℕ → Worker → Worker
enter_runner none w = record w { default_handle = none }
enter_runner (some runner) w =
    let (h, t) = enter_default runner w.locals in record w { default_handle = some h; locals = t }

-- The guards at the start of a round, and their drops at its end, the later one first.
unfoldable pub begin_round : Sequence → Worker → Worker
unfolding enter_token enter_default
begin_round s w = enter_runner s.task_runner (record w { locals = enter_token s.token w.locals })

abbrev leave_runner : Option CurrentDefaultHandle → ThreadLocals → ThreadLocals
leave_runner none t = t
leave_runner (some h) t = leave_default h t

unfoldable pub end_round : Worker → Worker
unfolding leave_token leave_default
end_round w = record w {
  pc = seeking;
  locals = leave_token (leave_runner w.default_handle w.locals);
  default_handle = none;
}

-- `WorkerSlot::task_started` and `task_finished`, on a slot if there is one; time 0 is the
-- reference of the monitor.
abbrev pub task_started : ℕ → Option ℕ → Option ℕ
task_started now none = none
task_started now (some _) = some (max now 1)

abbrev pub task_finished : Option ℕ → Option ℕ
task_finished none = none
task_finished (some _) = some 0
