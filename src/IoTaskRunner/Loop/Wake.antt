-- ===== src/IoTaskRunner/Loop/Wake.antt =====
-- The wake-up of the loop of rust_io/io_task_runner.rs: `wake` writes to an eventfd, and the loop
-- reads it when `epoll_wait` reports it.
use rust_task_runner.Common.{ℕ, ◌+◌, ◌-◌, Bool, true, false, List, [], ◌∷◌, ◌==◌, if◌then◌else◌}
use rust_task_runner.IoTaskRunner.{
  Kernel, IoTaskRunner, DelayedTask, post_task, post_delayed_task, shut_down,
}
use rust_task_runner.IoTaskRunner.Loop.{
  Io, Event, runs, polls, posts, posts_delayed, watches, stops, shuts_down, Phase, draining, timing,
  delaying, polling, dispatching, stopped, PollResult, ready, interrupted, broken, ReadyEvent,
  advance, poll, drain, run_delayed, dispatch, on_ready, watch, init,
}
use rust_task_runner.IoTaskRunner.Loop

-- `signalled` says that the eventfd has been written to and not read since, `wakers` how many
-- threads stand before their call of `wake`, and `seen` are the delayed tasks from which the loop
-- has taken its timeout.
pub record Waking (kernel : Kernel) : Type 0 where
  pub io : Io kernel
  pub signalled : Bool
  pub wakers : ℕ
  pub seen : List DelayedTask

-- A step of the loop or of another thread, and the call of `wake` of a thread.
pub data WakeEvent : Type 0 where
  steps : Event → WakeEvent
  wakes : WakeEvent

-- The loop reads the eventfd at an event of it.
abbrev pub reads_wake_fd : Phase → ℕ → Bool
reads_wake_fd (dispatching (ev ∷ rest)) wake_fd = ev.fd == wake_fd
reads_wake_fd _ wake_fd = false

-- The loop takes its timeout between the test of `shutdown` and `epoll_wait`.
abbrev pub takes_timeout :
    {kernel : Kernel} → Phase → Io kernel → List DelayedTask → List DelayedTask
takes_timeout timing io seen = io.runner.delayed_tasks
takes_timeout _ io seen = seen

module _ {kernel : Kernel} where
  unfoldable pub turn : ℕ → Phase → Waking kernel → Waking kernel
  unfolding advance
  turn now p w =
      let io = advance now p w.io in
      record w {
        io = io;
        signalled = if reads_wake_fd p w.io.runner.wake_fd then false else w.signalled;
        seen = takes_timeout p io w.seen;
      }

  -- A post that was taken is followed by a `wake`.
  abbrev pub posted : Bool × IoTaskRunner kernel → Waking kernel → Waking kernel
  posted (taken, r) w = record w {
    io = record w.io { runner = r };
    wakers = if taken then w.wakers + 1 else w.wakers;
  }

  abbrev pub wake : ℕ → Waking kernel → Waking kernel
  wake wakers w = record w {
    signalled = if 0 == wakers then w.signalled else true;
    wakers = wakers - 1;
  }

  unfoldable pub step : WakeEvent → Waking kernel → Waking kernel
  unfolding turn poll watch
  step (steps (runs now)) w = turn now w.io.phase w
  step (steps (polls r)) w = record w { io = poll w.io.phase r w.io }
  step (steps (posts now callback)) w = posted (post_task now callback w.io.runner) w
  step (steps (posts_delayed now callback delay)) w =
      posted (post_delayed_task now callback delay w.io.runner) w
  step (steps shuts_down) w = posted (true, shut_down w.io.runner) w
  step (steps (watches c fd persistent mode watcher)) w = record w {
    io = Loop.step (watches c fd persistent mode watcher) w.io;
  }
  step (steps (stops c)) w = record w { io = Loop.step (stops c) w.io }
  step wakes w = wake w.wakers w

  abbrev pub run : List WakeEvent → Waking kernel → Waking kernel
  run [] w = w
  run (e ∷ es) w = run es (step e w)

  abbrev pub new_waking : ℕ → ℕ → Bool → kernel.State → Waking kernel
  new_waking wake_fd token monitored k = record {
    io = init wake_fd token monitored k;
    signalled = false;
    wakers = 0;
    seen = [];
  }
