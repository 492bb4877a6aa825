-- ===== src/ThreadPool/AtWork.antt =====
-- rust_task/thread_pool/thread_pool.rs on the pool at work: a task that is accepted goes into a
-- sequence of its own, a worker calls the closure of `wrap` in two steps, and `shutdown` waits,
-- joins the workers and stops the timer.
pub mod Shift
pub mod Placed
pub mod Present
pub mod Starts
pub mod Steps
pub mod Abstract
pub mod Refines
pub mod Histories
pub mod Attended
pub mod NoLost
use rust_task_runner.Common.{
  ℕ, Bool, true, false, ◌||◌, List, [], ◌∷◌, Option, none, some, if◌then◌else◌, length, update,
}
use rust_task_runner.Task
use rust_task_runner.Task.{Callback, guarded, timed, user, Task, TaskTraits}
use rust_task_runner.DelayedTaskManager
use rust_task_runner.Sequence.{Sequence}
use rust_task_runner.ThreadGroup.{Pc, running, begin_join}
use rust_task_runner.System
use rust_task_runner.System.{System}
use rust_task_runner.ThreadPool
use rust_task_runner.ThreadPool.{
  Pool, Stage, queued, skipped, finished, Caller, outside, deciding, sleeping, returned, wrap,
  post_task, start_task, end_task, start_stage, call_shutdown, woken,
}

-- Where `ThreadPool::shutdown` is once the tracker has let it go: before `join_all`, in it, or past
-- it and the stop of the timer.
pub data Closing : Type 0 where
  waiting joining closed : Closing

-- `ids q` is the place in `pool.tasks` of the task whose sequence is `q`; `inside i` says that
-- worker `i` is past the test of the closure of `wrap`. A sequence that is not yet in use stands
-- in the system as it will be made: empty, with its traits.
pub record Whole : Type 0 where
  pub system : System
  pub pool : Pool
  pub ids : ℕ → Option ℕ
  pub inside : ℕ → Bool
  pub closing : Closing

-- The threads of the program post to the pool, `posts q n` the closure `n` in the new sequence `q`,
-- or to the runners; the others are the threads of the pool, and the one that shuts it down.
pub data Event : Type 0 where
  posts : ℕ → ℕ → Event
  posts_delayed : ℕ → ℕ → ℕ → Event
  posts_to_runner : ℕ → Callback → Event
  posts_delayed_to_runner : ℕ → Callback → ℕ → Event
  works : ℕ → Event
  delivers : ℕ → Event
  registers : ℕ → Event
  timer : Event
  ticks : ℕ → Event
  shuts_down : Event
  wakes : Event

abbrev pub in_use : Option ℕ → Bool
in_use none = false
in_use (some k) = true

abbrev pub act : System.Event → Whole → Whole
act e w = record w { system = System.step e w.system }

-- A worker leaves the callback of its task.
abbrev pub leave : ℕ → Pool → Whole → Whole
leave i p w = record w {
  system = System.step (System.works i) w.system;
  pool = p;
  inside = update w.inside i false;
}

abbrev pub after_test : ℕ → Stage → Pool → Whole → Whole
after_test i skipped p w = leave i p w
after_test i _ p w = record w { pool = p; inside = update w.inside i true }

-- The closure of `wrap` with the traits of the task in place `k`: its test, and then what follows
-- the callback, `after_run_task`.
unfoldable pub run_wrapped : ℕ → ℕ → TaskTraits → Bool → Whole → Whole
unfolding start_task end_task System.step
run_wrapped i k traits false w =
    after_test i (start_stage w.pool.task_tracker traits) (start_task k traits queued w.pool) w
run_wrapped i k traits true w = leave i (end_task k traits ThreadPool.running w.pool) w

-- A closure of `wrap` takes two steps, its test and the rest; a sequence of a runner has none.
unfoldable pub on_closure : ℕ → TaskTraits → Option ℕ → Whole → Whole
unfolding run_wrapped System.step
on_closure i traits none w = act (System.works i) w
on_closure i traits (some k) w = run_wrapped i k traits (w.inside i) w

-- What a worker does: a step of the system, but in a closure of `wrap` one of its steps.
unfoldable pub work : ℕ → Pc → Whole → Whole
unfolding on_closure System.step
work i (running q (guarded traits callback)) w = on_closure i traits (w.ids q) w
work i _ w = act (System.works i) w

-- The end of `shutdown`: `join_all`, and the `shutdown` of the delayed task manager.
unfoldable pub close : Closing → Whole → Whole
unfolding System.step DelayedTaskManager.shut_down
close waiting w = record (act System.joins w) { closing = joining }
close joining w = record w {
  system = record w.system { manager = DelayedTaskManager.shut_down w.system.manager };
  closing = closed;
}
close closed w = w

-- `ThreadPool::shutdown`
unfoldable pub shutdown : Caller → Whole → Whole
unfolding call_shutdown close
shutdown returned w = close w.closing w
shutdown c w = record w { pool = call_shutdown c w.pool }

-- `monitor.wrap_task` in a runner, if there is a monitor.
abbrev pub timed_by_monitor : Bool → ℕ → Callback → Callback
timed_by_monitor monitored now callback = if monitored then timed now callback else callback

-- `runner q` says that `q` is the sequence of a runner, and `monitored` that there is a monitor.
module _ (runner : ℕ → Bool) (monitored : Bool) where
  -- `post_task` and `post_delayed_task`, in a sequence that is new: `push` is the event of the
  -- system with the wrapped closure.
  unfoldable pub post : ℕ → (Callback → System.Event) → ℕ → Whole → Whole
  post q push n w =
      let traits = (w.system.sequences q).traits in
      let (may_post, p) = post_task traits w.pool in
      if runner q || in_use (w.ids q)
      then w
      else if may_post
      then record w {
        system = System.step (push (wrap monitored w.system.now traits (user n))) w.system;
        pool = p;
        ids = update w.ids q (some (length w.pool.tasks));
      }
      else record w { pool = p }

  -- A runner posts to its sequence, and asks the tracker nothing.
  unfoldable pub post_to_runner : ℕ → System.Event → Whole → Whole
  unfolding System.step
  post_to_runner q e w = if runner q then act e w else w

  unfoldable pub step : Event → Whole → Whole
  unfolding post post_to_runner work shutdown System.step
  step (posts q n) w = post q (λ c. System.posts q (Task.new c 0)) n w
  step (posts_delayed q n delay) w = post q (λ c. System.posts_delayed q (Task.new c 0) delay) n w
  step (posts_to_runner q c) w =
      post_to_runner q (System.posts q (Task.new (timed_by_monitor monitored w.system.now c) 0)) w
  step (posts_delayed_to_runner q c delay) w =
      post_to_runner q
        (System.posts_delayed q (Task.new (timed_by_monitor monitored w.system.now c) 0) delay) w
  step (works i) w = work i (w.system.group.workers i).pc w
  step (delivers k) w = act (System.delivers k) w
  step (registers k) w = act (System.registers k) w
  step timer w = act System.timer w
  step (ticks n) w = act (System.ticks n) w
  step shuts_down w = shutdown w.pool.caller w
  step wakes w = record w { pool = record w.pool { caller = woken w.pool.caller } }

  abbrev pub run : List Event → Whole → Whole
  run [] w = w
  run (e ∷ es) w = run es (step e w)

-- A new pool, over sequences that are not in use.
abbrev pub new : (ℕ → Sequence) → Whole
new sequences = record {
  system = System.init sequences;
  pool = ThreadPool.new;
  ids = λ q. none;
  inside = λ i. false;
  closing = waiting;
}
