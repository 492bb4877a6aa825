-- ===== src/Task.antt =====
-- rust_task/task_traits.rs and rust_task/task.rs, and the closures that the library itself builds.
use rust_task_runner.Common.{ℕ, Bool, false, Option, none, some}

pub data TaskPriority : Type 0 where
  best_effort user_visible user_blocking : TaskPriority

pub data TaskShutdownBehavior : Type 0 where
  continue_on_shutdown skip_on_shutdown block_shutdown : TaskShutdownBehavior

pub data ThreadPolicy : Type 0 where
  prefer_background must_use_foreground : ThreadPolicy

pub record TaskTraits : Type 0 where
  pub priority : TaskPriority
  pub shutdown_behavior : TaskShutdownBehavior
  pub thread_policy : ThreadPolicy
  pub may_block : Bool

-- `TaskTraits::default`.
abbrev pub default_traits : TaskTraits
default_traits = record {
  priority = user_visible;
  shutdown_behavior = skip_on_shutdown;
  thread_policy = prefer_background;
  may_block = false;
}

-- A boxed closure. `user` is one of the program's, by number; each other constructor is a closure
-- expression of the library with what it captures: `timed` that of `TaskMonitor::wrap_task` (the
-- time of posting), `guarded` that of `ThreadPool::wrap`, and `with_reply` that of
-- `post_task_and_reply` (the task, the runner of the caller, the reply).
pub data Callback : Type 0 where
  user : ℕ → Callback
  timed : ℕ → Callback → Callback
  guarded : TaskTraits → Callback → Callback
  with_reply : Callback → Option ℕ → Callback → Callback

-- Instants are numbers on one monotonic clock; `posted_from` is a number for the place in the text.
pub record Task : Type 0 where
  pub callback : Callback
  pub posted_from : ℕ
  pub delayed_run_time : Option ℕ
  pub sequence_num : ℕ

-- `Task::new`
unfoldable pub new : Callback → ℕ → Task
new callback caller = record {
  callback = callback;
  posted_from = caller;
  delayed_run_time = none;
  sequence_num = 0;
}

-- `Task::new_delayed`
unfoldable pub new_delayed : Callback → ℕ → ℕ → Task
new_delayed callback run_time caller = record {
  callback = callback;
  posted_from = caller;
  delayed_run_time = some run_time;
  sequence_num = 0;
}
