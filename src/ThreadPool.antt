-- ===== src/ThreadPool.antt =====
-- rust_task/thread_pool/thread_pool.rs: posting against the tracker, the closure that `wrap` puts
-- round a callback, and the thread that calls `shutdown`, step by step. The queue between posting
-- and running is the part of System.antt: here a task that was accepted may start at any later
-- step, in any order. ThreadPool.AtWork has both.
pub mod Length
pub mod Counted
pub mod Shutdown
pub mod AtWork
pub mod Runners
use rust_task_runner.Common.{
  ℕ, Bool, true, false, ◌&&◌, List, [], ◌∷◌, ◌++◌, Option, none, some, if◌then◌else◌, get_elem?,
  set,
}
use rust_task_runner.Task.{TaskTraits, Callback, guarded, timed}
use rust_task_runner.TaskTracker
use rust_task_runner.TaskTracker.{
  Tracker, is_skip, will_post_task, after_run_task, is_shutdown_started, begin_shutdown, must_wait,
}

-- `ThreadPool::wrap`: `TaskMonitor::wrap_task` is innermost, if there is a monitor.
unfoldable pub wrap : Bool → ℕ → TaskTraits → Callback → Callback
wrap monitored now traits callback =
    guarded traits (if monitored then timed now callback else callback)

-- Where a task is: accepted and not started; in its callback; past `after_run_task`; or dropped by
-- the closure of `wrap` because the shutdown had started.
pub data Stage : Type 0 where
  queued running finished skipped : Stage

pub record PostedTask : Type 0 where
  pub traits : TaskTraits
  pub stage : Stage

-- Where the thread that calls `shutdown` is: before the call; between its two critical sections,
-- or woken; in `shutdown_done.wait`; or past the loop.
pub data Caller : Type 0 where
  outside deciding sleeping returned : Caller

pub record Pool : Type 0 where
  pub task_tracker : Tracker
  pub tasks : List PostedTask
  pub caller : Caller

-- `ThreadPool::new`
abbrev pub new : Pool
new = record { task_tracker = TaskTracker.new; tasks = []; caller = outside }

-- `post_task` and `post_delayed_task`: both ask the tracker first.
unfoldable pub post_task : TaskTraits → Pool → Bool × Pool
post_task traits p =
    let (may_post, t) = will_post_task traits p.task_tracker in
    (
      may_post,
      record p {
        task_tracker = t;
        tasks =
            if may_post
            then p.tasks ++ record { traits = traits; stage = queued } ∷ []
            else p.tasks;
      },
    )

-- The test of the closure of `wrap`.
abbrev pub start_stage : Tracker → TaskTraits → Stage
start_stage t traits =
    if is_shutdown_started t && is_skip traits.shutdown_behavior then skipped else running

-- `notify_all` wakes the caller of `shutdown`, who looks at the count again.
abbrev pub notified : Bool → Caller → Caller
notified true sleeping = deciding
notified true c = c
notified false c = c

-- The start of the closure of a task in its place `k`.
unfoldable pub start_task : ℕ → TaskTraits → Stage → Pool → Pool
start_task k traits queued p = record p {
  tasks = set p.tasks k (record { traits = traits; stage = start_stage p.task_tracker traits });
}
start_task k traits _ p = p

-- The end of its callback, with `after_run_task`.
unfoldable pub end_task : ℕ → TaskTraits → Stage → Pool → Pool
end_task k traits running p =
    let (wake, t) = after_run_task traits p.task_tracker in
    record {
      task_tracker = t;
      tasks = set p.tasks k (record { traits = traits; stage = finished });
      caller = notified wake p.caller;
    }
end_task k traits _ p = p

unfoldable pub on_task :
    (ℕ → TaskTraits → Stage → Pool → Pool) → ℕ → Option PostedTask → Pool → Pool
on_task f k none p = p
on_task f k (some x) p = f k x.traits x.stage p

-- `shutdown` of the tracker, one critical section at a time.
unfoldable pub call_shutdown : Caller → Pool → Pool
call_shutdown outside p =
    let (done, t) = begin_shutdown p.task_tracker in
    record p { task_tracker = t; caller = if done then returned else deciding }
call_shutdown deciding p = record p {
  caller = if must_wait p.task_tracker then sleeping else returned;
}
call_shutdown sleeping p = p
call_shutdown returned p = p

-- A wait may end with no notification.
abbrev pub woken : Caller → Caller
woken sleeping = deciding
woken c = c

pub data Event : Type 0 where
  posts : TaskTraits → Event
  starts : ℕ → Event
  ends : ℕ → Event
  shuts_down : Event
  wakes : Event

unfoldable pub step : Event → Pool → Pool
unfolding start_task end_task on_task call_shutdown
step (posts traits) p = (post_task traits p).1
step (starts k) p = on_task start_task k (get_elem? p.tasks k) p
step (ends k) p = on_task end_task k (get_elem? p.tasks k) p
step shuts_down p = call_shutdown p.caller p
step wakes p = record p { caller = woken p.caller }

unfoldable pub run : List Event → Pool → Pool
run [] p = p
run (e ∷ es) p = run es (step e p)
