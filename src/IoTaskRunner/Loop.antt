-- ===== src/IoTaskRunner/Loop.antt =====
-- `run_loop` of rust_io/io_task_runner.rs, one access of shared state per step, with the threads
-- that post tasks and the callbacks that add and stop watches in any order between its steps.
pub mod Watches
pub mod Queues
pub mod Order
pub mod Wake
pub mod Awake
pub mod Once
pub mod Counter
pub mod Owners
pub mod Stops
use rust_task_runner.Common.{
  ℕ, Bool, true, false, ◌&&◌, List, [], ◌∷◌, ◌++◌, Option, none, some, leb, ◌==◌, if◌then◌else◌,
  update,
}
use rust_task_runner.Task.{Callback}
use rust_task_runner.IoTaskRunner.{
  Kernel, IoTaskRunner, FdWatchController, WatchEntry, WatchMode, Flags, DelayedTask, remove_watch,
  stop_watching_file_descriptor, watch_file_descriptor, post_task, post_delayed_task, shut_down,
  reads, writes, new_controller,
}

-- One of the events that `epoll_wait` returns; `alive` says that the watcher of its descriptor is
-- not dropped, so that its weak reference upgrades.
pub record ReadyEvent : Type 0 where
  pub fd : ℕ
  pub flags : Flags
  pub alive : Bool

-- What `epoll_wait` returns: events, the error `EINTR`, or another error.
pub data PollResult : Type 0 where
  ready : List ReadyEvent → PollResult
  interrupted : PollResult
  broken : PollResult

-- Where the loop is: among the immediate tasks, among the delayed tasks, at the test of `shutdown`,
-- at the look for the timeout, at `epoll_wait`, among the events that it returned, or at its end.
pub data Phase : Type 0 where
  draining : Phase
  delaying : Phase
  testing : Phase
  timing : Phase
  polling : Phase
  dispatching : List ReadyEvent → Phase
  stopped : Phase

-- A watch that an event has reached, and which of the methods of its watcher were called.
pub record Firing : Type 0 where
  pub entry : WatchEntry
  pub can_read : Bool
  pub can_write : Bool

-- `ran`, `ran_delayed` and `fired` say what the thread has called, the latest last; `controllers`
-- are those of the program, by number.
pub record Io (kernel : Kernel) : Type 0 where
  pub runner : IoTaskRunner kernel
  pub controllers : ℕ → FdWatchController
  pub phase : Phase
  pub ran : List Callback
  pub ran_delayed : List DelayedTask
  pub fired : List Firing

pub data Event : Type 0 where
  runs : ℕ → Event
  polls : PollResult → Event
  posts : ℕ → Callback → Event
  posts_delayed : ℕ → Callback → ℕ → Event
  watches : ℕ → ℕ → Bool → WatchMode → ℕ → Event
  stops : ℕ → Event
  shuts_down : Event

abbrev pub firing : ReadyEvent → WatchEntry → Firing
firing ev e = record {
  entry = e;
  can_read = ev.flags.epollin && reads e.mode;
  can_write = ev.flags.epollout && writes e.mode;
}

module _ {kernel : Kernel} where
  -- The runner of `new_impl`, before its thread takes its first step.
  unfoldable pub init : ℕ → ℕ → Bool → kernel.State → Io kernel
  init wake_fd token monitored epoll = record {
    runner = record {
      wake_fd = wake_fd;
      tasks = [];
      delayed_tasks = [];
      watches = λ fd. none;
      generation_counter = 0;
      shutdown = false;
      token = token;
      monitored = monitored;
      epoll = epoll;
    };
    controllers = λ c. new_controller;
    phase = draining;
    ran = [];
    ran_delayed = [];
    fired = [];
  }

  -- The loop on the immediate tasks.
  unfoldable pub drain : List Callback → Io kernel → Io kernel
  drain [] io = record io { phase = delaying }
  drain (task ∷ rest) io = record io {
    runner = record io.runner { tasks = rest };
    ran = io.ran ++ task ∷ [];
  }

  -- The end of the loop on the delayed tasks.
  abbrev pub leave_delayed : Io kernel → Io kernel
  leave_delayed io = record io { phase = testing }

  -- The test of `shutdown` behind it.
  abbrev pub test_shutdown : Io kernel → Io kernel
  test_shutdown io = record io { phase = if io.runner.shutdown then stopped else timing }

  -- The loop on the delayed tasks.
  unfoldable pub run_delayed : ℕ → List DelayedTask → Io kernel → Io kernel
  run_delayed now [] io = leave_delayed io
  run_delayed now (d ∷ rest) io =
      if leb d.deadline now
      then record io {
        runner = record io.runner { delayed_tasks = rest };
        ran_delayed = io.ran_delayed ++ d ∷ [];
      }
      else leave_delayed io

  -- The body of the loop on the events, with the entry of the descriptor.
  unfoldable pub on_ready : ReadyEvent → Option WatchEntry → Io kernel → Io kernel
  on_ready ev none io = io
  on_ready ev (some e) io = record io {
    runner = if e.persistent then io.runner else remove_watch ev.fd io.runner;
    fired = if ev.alive then io.fired ++ firing ev e ∷ [] else io.fired;
  }

  -- An event of the descriptor that `wake` writes to is only read.
  unfoldable pub dispatch : ReadyEvent → Io kernel → Io kernel
  unfolding on_ready
  dispatch ev io =
      if ev.fd == io.runner.wake_fd then io else on_ready ev (io.runner.watches ev.fd) io

  unfoldable pub advance : ℕ → Phase → Io kernel → Io kernel
  unfolding drain run_delayed dispatch
  advance now draining io = drain io.runner.tasks io
  advance now delaying io = run_delayed now io.runner.delayed_tasks io
  advance now testing io = test_shutdown io
  advance now timing io = record io { phase = polling }
  advance now polling io = io
  advance now (dispatching []) io = record io { phase = draining }
  advance now (dispatching (ev ∷ rest)) io = dispatch ev (record io { phase = dispatching rest })
  advance now stopped io = io

  -- The return of `epoll_wait`.
  unfoldable pub poll : Phase → PollResult → Io kernel → Io kernel
  poll polling (ready evs) io = record io { phase = dispatching evs }
  poll polling interrupted io = record io { phase = draining }
  poll polling broken io = record io { phase = stopped }
  poll _ _ io = io

  unfoldable pub watch : ℕ → Bool × FdWatchController × IoTaskRunner kernel → Io kernel → Io kernel
  watch c (_, controller, runner) io = record io {
    runner = runner;
    controllers = update io.controllers c controller;
  }

  unfoldable pub step : Event → Io kernel → Io kernel
  unfolding advance poll watch
  step (runs now) io = advance now io.phase io
  step (polls r) io = poll io.phase r io
  step (posts now callback) io = record io { runner = (post_task now callback io.runner).1 }
  step (posts_delayed now callback delay) io = record io {
    runner = (post_delayed_task now callback delay io.runner).1;
  }
  step (watches c fd persistent mode watcher) io =
      watch c (watch_file_descriptor fd persistent mode (io.controllers c) watcher io.runner) io
  step (stops c) io = watch c (stop_watching_file_descriptor (io.controllers c) io.runner) io
  step shuts_down io = record io { runner = shut_down io.runner }

  unfoldable pub run : List Event → Io kernel → Io kernel
  run [] io = io
  run (e ∷ es) io = run es (step e io)
