-- ===== src/IoTaskRunner.antt =====
-- rust_io/io_task_runner.rs: watches on file descriptors, their controllers, the two task queues,
-- and the loop of the IO thread. A descriptor is the number of the 32 bits of a `RawFd`, so that
-- -1 is 2^32 - 1; watchers and closures are named by numbers. The kernel is a parameter: a state
-- and `epoll_ctl` on it.

pub mod Loop
use rust_task_runner.Common.{
  ℕ, ◌+◌, ◌-◌, ◌/◌, ◌^◌, ◌≡◌, Bool, true, false, List, [], ◌∷◌, ◌++◌, Option, none, some, Ordering,
  compare, leb, ◌==◌, if◌then◌else◌, u64, update, arith, min,
}
use rust_task_runner.BinaryHeap
use rust_task_runner.BinaryHeap.{Ord, is_gt}
use rust_task_runner.Task.{Callback, timed}

pub data WatchMode : Type 0 where
  read write read_write : WatchMode

-- The bits `EPOLLIN` and `EPOLLOUT` of an event mask.
pub record Flags : Type 0 where
  pub epollin : Bool
  pub epollout : Bool

abbrev pub mode_to_epoll_events : WatchMode → Flags
mode_to_epoll_events read = record { epollin = true; epollout = false }
mode_to_epoll_events write = record { epollin = false; epollout = true }
mode_to_epoll_events read_write = record { epollin = true; epollout = true }

pub data CtlOp : Type 0 where
  ctl_add ctl_mod ctl_del : CtlOp

-- What `epoll_ctl` returns: 0, the error `EEXIST`, or another error.
pub data CtlResult : Type 0 where
  ok eexist failed : CtlResult

pub record Kernel : Type 1 where
  pub State : Type 0
  pub epoll_ctl : CtlOp → ℕ → Flags → State → CtlResult × State

pub record FdWatchController : Type 0 where
  pub runner : Bool
  pub fd : ℕ
  pub generation : ℕ

-- `FdWatchController::new`
abbrev pub new_controller : FdWatchController
new_controller = record { runner = false; fd = 2 ^ 32 - 1; generation = 0 }

abbrev pub is_watching : FdWatchController → Bool
is_watching c = c.runner

pub record WatchEntry : Type 0 where
  pub watcher : ℕ
  pub persistent : Bool
  pub mode : WatchMode
  pub generation : ℕ

pub record DelayedTask : Type 0 where
  pub deadline : ℕ
  pub callback : Callback

-- `impl Ord for DelayedTask`
abbrev pub cmp_deadline : DelayedTask → DelayedTask → Ordering
cmp_deadline x y = compare y.deadline x.deadline

pub deadline_asym :
    (x y : DelayedTask) → is_gt (cmp_deadline x y) ≡ true → is_gt (cmp_deadline y x) ≡ false
deadline_asym x y h = ground arith

pub deadline_trans :
    (x y z : DelayedTask)
    → is_gt (cmp_deadline x y) ≡ false
    → is_gt (cmp_deadline y z) ≡ false
    → is_gt (cmp_deadline x z) ≡ false
deadline_trans x y z h k = ground arith

abbrev pub deadline_order : Ord DelayedTask
deadline_order = record { cmp = cmp_deadline; asym = deadline_asym; trans = deadline_trans }

pub record IoTaskRunner (kernel : Kernel) : Type 0 where
  pub wake_fd : ℕ
  pub tasks : List Callback
  pub delayed_tasks : List DelayedTask
  pub watches : ℕ → Option WatchEntry
  pub generation_counter : ℕ
  pub shutdown : Bool
  pub token : ℕ
  pub monitored : Bool
  pub epoll : kernel.State

abbrev no_flags : Flags
no_flags = record { epollin = false; epollout = false }

abbrev is_ok : CtlResult → Bool
is_ok ok = true
is_ok _ = false

-- `EPOLL_CTL_ADD`, and `EPOLL_CTL_MOD` where the descriptor is there already.
abbrev pub arm_epoll : (kernel : Kernel) → ℕ → Flags → kernel.State → Bool × kernel.State
arm_epoll kernel fd flags k =
    let (rc, k') = kernel.epoll_ctl ctl_add fd flags k in
    let (rc', k'') = kernel.epoll_ctl ctl_mod fd flags k' in
    elim rc [ ok ↦ (true, k') | eexist ↦ (is_ok rc', k'') | failed ↦ (false, k') ]

abbrev pub wrap_task : Bool → ℕ → Callback → Callback
wrap_task monitored now callback = if monitored then timed now callback else callback

abbrev pub reads : WatchMode → Bool
reads write = false
reads _ = true

abbrev pub writes : WatchMode → Bool
writes read = false
writes _ = true

module _ {kernel : Kernel} where
  -- Dropping an entry: `watches.remove` and `EPOLL_CTL_DEL`, whose result is not looked at.
  abbrev pub remove_watch : ℕ → IoTaskRunner kernel → IoTaskRunner kernel
  remove_watch fd r = record r {
    watches = update r.watches fd none;
    epoll = (kernel.epoll_ctl ctl_del fd no_flags r.epoll).1;
  }

  -- The branch of `unregister_fd` on the entry found.
  abbrev pub unregister_entry :
      Option WatchEntry → ℕ → ℕ → IoTaskRunner kernel → Bool × IoTaskRunner kernel
  unregister_entry none fd generation r = (false, r)
  unregister_entry (some e) fd generation r =
      if e.generation == generation then (true, remove_watch fd r) else (false, r)

  unfoldable pub unregister_fd : ℕ → ℕ → IoTaskRunner kernel → Bool × IoTaskRunner kernel
  unregister_fd fd generation r = unregister_entry (r.watches fd) fd generation r

  -- The runner that a controller has is the one of the model, and alive.
  unfoldable pub stop_watching_file_descriptor :
      FdWatchController → IoTaskRunner kernel → Bool × FdWatchController × IoTaskRunner kernel
  unfolding unregister_fd
  stop_watching_file_descriptor c r =
      let (stopped, r') = unregister_fd c.fd c.generation r in
      if c.runner then (stopped, record c { runner = false }, r') else (false, c, r)

  -- The end of `watch_file_descriptor`, where `registered` says that `epoll_ctl` took the watch.
  abbrev pub add_watch :
      Bool
      → ℕ
      → WatchEntry
      → FdWatchController
      → IoTaskRunner kernel
      → Bool × FdWatchController × IoTaskRunner kernel
  add_watch false fd entry c r = (false, c, r)
  add_watch true fd entry c r = (
    true,
    record { runner = true; fd = fd; generation = entry.generation },
    record r { watches = update r.watches fd (some entry) },
  )

  unfoldable pub watch_file_descriptor :
      ℕ
      → Bool
      → WatchMode
      → FdWatchController
      → ℕ
      → IoTaskRunner kernel
      → Bool × FdWatchController × IoTaskRunner kernel
  unfolding stop_watching_file_descriptor
  watch_file_descriptor fd persistent mode controller watcher r0 =
      let (_, c, r) = stop_watching_file_descriptor controller r0 in
      let (registered, k) = arm_epoll kernel fd (mode_to_epoll_events mode) r.epoll in
      add_watch registered fd
        (record {
          watcher = watcher;
          persistent = persistent;
          mode = mode;
          generation = r.generation_counter;
        })
        c (record r { generation_counter = u64 (r.generation_counter + 1); epoll = k })

  -- The test of `shutdown` and the push, which are one step here: a task that passes the test before
  -- a shutdown counts as pushed before it. The call of `wake` is a step of Loop.Wake.
  unfoldable pub post_task : ℕ → Callback → IoTaskRunner kernel → Bool × IoTaskRunner kernel
  post_task now callback r =
      if r.shutdown
      then (false, r)
      else (true, record r { tasks = r.tasks ++ wrap_task r.monitored now callback ∷ [] })

  unfoldable pub post_delayed_task :
      ℕ → Callback → ℕ → IoTaskRunner kernel → Bool × IoTaskRunner kernel
  post_delayed_task now callback delay r = if r.shutdown then (false, r) else (
    true,
    record r {
      delayed_tasks =
          BinaryHeap.push deadline_order
            (record { deadline = now + delay; callback = wrap_task r.monitored now callback })
            r.delayed_tasks;
    },
  )

  -- The flag that `shutdown` sets before it joins the thread.
  unfoldable pub shut_down : IoTaskRunner kernel → IoTaskRunner kernel
  shut_down r = record r { shutdown = true }

-- The timeout of `epoll_wait` in milliseconds from the first deadline in nanoseconds; `none` is
-- the timeout -1, which has no end.
unfoldable pub timeout_ms : ℕ → List DelayedTask → Option ℕ
timeout_ms now [] = none
timeout_ms now (next ∷ _) =
    some (if leb next.deadline now then 0 else min ((next.deadline - now) / 1000000) (2 ^ 31 - 1))
