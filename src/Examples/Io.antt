-- ===== src/Examples/Io.antt =====
-- Runs of the IO thread and of the watchdog.
use rust_task_runner.Common.{
  ℕ_discrete, ℕ, ◌+◌, ◌*◌, ◌<◌, ◌^◌, ◌≤◌, ◌≡◌, refl, true, false, List, [], ◌∷◌, ◌++◌, All, total,
  max, ◌⊎◌, some, arith,
}
use rust_task_runner.Task.{user}
use rust_task_runner.IoTaskRunner.{
  write, WatchEntry, watch_file_descriptor, stop_watching_file_descriptor, unregister_fd, Kernel,
  ok, DelayedTask, timeout_ms, read, post_task,
}
use rust_task_runner.IoTaskRunner.Loop.{
  stops, step, watch, Io, Event, runs, polls, posts, watches, ReadyEvent, ready, init, run, polling,
  advance, drain, run_delayed,
}
use rust_task_runner.IoTaskRunner.Loop.Wake
use rust_task_runner.IoTaskRunner.Loop.Wake.{Waking, WakeEvent, steps, wakes, new_waking}
use rust_task_runner.IoTaskRunner.Loop.Awake.{IsWoken, run-polling}
use rust_task_runner.IoTaskRunner.Loop.Order.{timeout_ms-bounds, run-in_order, accepted}
use rust_task_runner.IoTaskRunner.Loop.Stops.{after, stop-spares}
use rust_task_runner.IoTaskRunner.Loop.Once.{watch-fires_once}
use rust_task_runner.IoTaskRunner.Loop.Watches.{shot}
use rust_task_runner.TaskMonitor.{HangInfo}

-- A kernel that takes every watch.
abbrev willing : Kernel
willing = record { State = ℕ; epoll_ctl = λ op fd flags calls. (ok, calls + 1) }

abbrev new_io : Io willing
new_io = init {kernel = willing} 3 1 false 0

abbrev readable : ℕ → ReadyEvent
readable fd = record { fd = fd; flags = record { epollin = true; epollout = false }; alive = true }

-- Controller 0 watches descriptor 7 once; the kernel reports it twice in one batch.
abbrev reported_twice : List Event
reported_twice =
    watches 0 7 false read 9
    ∷ runs 0
    ∷ runs 0
    ∷ polls (ready (readable 7 ∷ readable 7 ∷ []))
    ∷ runs 0
    ∷ runs 0
    ∷ []

watch-fires_once_example : total (shot 0) (run reported_twice new_io).fired ≤ 1
watch-fires_once_example = watch-fires_once willing 3 1 false 0 reported_twice 0 (omega arith)

abbrev two_posts : List Event
two_posts = posts 0 (user 1) ∷ runs 0 ∷ posts 2 (user 2) ∷ runs 3 ∷ runs 4 ∷ []

run-in_order_example :
    (run two_posts new_io).ran ++ (run two_posts new_io).runner.tasks
    ≡ (new_io.ran ++ new_io.runner.tasks) ++ accepted two_posts new_io
run-in_order_example = run-in_order two_posts new_io

abbrev sleepers : List DelayedTask
sleepers =
    record { deadline = 7000000; callback = user 1 }
    ∷ record { deadline = 9000000; callback = user 2 }
    ∷ []

timeout_ms-bounds_example :
    (5 < 2 ^ 31)
    × All (λ (d : DelayedTask). 1500000 + 5 * 1000000 ≤ max 1500000 d.deadline) sleepers
unfolding timeout_ms
timeout_ms-bounds_example = timeout_ms-bounds 1500000 sleepers 5 ((refl, tt), (tt, tt)) timeout
  where
    timeout : timeout_ms 1500000 sleepers ≡ some 5
    timeout = refl

-- The second worker has been in a task for 70.
abbrev stuck : HangInfo
stuck = record { worker_id = 1; stuck_duration = 70 }

-- Controllers 0 and 1 watch descriptor 7, one after the other.
abbrev shared_descriptor : List Event
shared_descriptor = watches 0 7 false read 9 ∷ watches 1 7 false write 9 ∷ []

abbrev second_watch : WatchEntry
second_watch = record { watcher = 9; persistent = false; mode = write; generation = 1 }

stop-spares_example :
    (step (stops 0) (after willing 3 1 false 0 shared_descriptor)).runner.watches
      ((after willing 3 1 false 0 shared_descriptor).controllers 1).fd
    ≡ some second_watch
unfolding run step init watch watch_file_descriptor stop_watching_file_descriptor unregister_fd
    ℕ_discrete
stop-spares_example =
    stop-spares willing 3 1 false 0 shared_descriptor 0 1 second_watch (omega arith)
      (λ h. absurd (cc h)) refl refl refl

-- A task is posted between the timeout and `epoll_wait`.
abbrev late_post : List WakeEvent
late_post =
    steps (runs 0)
    ∷ steps (runs 0)
    ∷ steps (runs 0)
    ∷ steps (runs 0)
    ∷ steps (posts 1 (user 1))
    ∷ wakes
    ∷ []

abbrev posted_late : Waking willing
posted_late = Wake.run late_post (new_waking {kernel = willing} 3 1 false 0)

late_post-polls : posted_late.io.phase ≡ polling
unfolding Wake.step Wake.turn advance drain run_delayed init post_task
late_post-polls = refl

run-polling_example :
    IsWoken posted_late
    ⊎ ((posted_late.io.runner.tasks ≡ [])
        × (posted_late.io.runner.delayed_tasks ≡ posted_late.seen)
        × (posted_late.io.runner.shutdown ≡ false))
run-polling_example = run-polling willing 3 1 false 0 late_post late_post-polls
