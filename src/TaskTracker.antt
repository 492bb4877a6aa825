-- ===== src/TaskTracker.antt =====
-- rust_task/thread_pool/task_tracker.rs: the count of tasks that block the shutdown.
use rust_task_runner.Common.{ℕ, ◌+◌, ◌-◌, ◌^◌, Bool, true, false, u64, ◌==◌, ltb, if◌then◌else◌}
use rust_task_runner.Task.{
  TaskTraits, TaskShutdownBehavior, continue_on_shutdown, skip_on_shutdown, block_shutdown,
}

-- `TaskTrackerInner`
pub record Tracker : Type 0 where
  pub shutdown_started : Bool
  pub num_tasks_blocking_shutdown : ℕ

-- `TaskTracker::new`
abbrev pub new : Tracker
new = record { shutdown_started = false; num_tasks_blocking_shutdown = 0 }

abbrev pub is_continue : TaskShutdownBehavior → Bool
is_continue continue_on_shutdown = true
is_continue _ = false

abbrev pub is_skip : TaskShutdownBehavior → Bool
is_skip skip_on_shutdown = true
is_skip _ = false

abbrev pub is_block : TaskShutdownBehavior → Bool
is_block block_shutdown = true
is_block _ = false

unfoldable pub will_post_task : TaskTraits → Tracker → Bool × Tracker
will_post_task traits t =
    if t.shutdown_started then (is_continue traits.shutdown_behavior, t) else (
      true,
      if is_block traits.shutdown_behavior
          then record t { num_tasks_blocking_shutdown = u64 (t.num_tasks_blocking_shutdown + 1) }
          else t,
    )

-- The count after the task, and whether the condition variable is notified. `- 1` wraps.
unfoldable pub after_run_task : TaskTraits → Tracker → Bool × Tracker
after_run_task traits t =
    if is_block traits.shutdown_behavior
    then (let n = u64 (t.num_tasks_blocking_shutdown + 2 ^ 64 - 1) in
        (n == 0, record t { num_tasks_blocking_shutdown = n }))
    else (false, t)

unfoldable pub is_shutdown_started : Tracker → Bool
is_shutdown_started t = t.shutdown_started

-- The first critical section of `shutdown`: whether it returns there, and the state.
unfoldable pub begin_shutdown : Tracker → Bool × Tracker
begin_shutdown t = (t.num_tasks_blocking_shutdown == 0, record t { shutdown_started = true })

-- The test of its loop `while inner.num_tasks_blocking_shutdown > 0`.
unfoldable pub must_wait : Tracker → Bool
must_wait t = ltb 0 t.num_tasks_blocking_shutdown
