-- ===== src/Examples/Pool.antt =====
-- Runs of the whole pool, and of its shutdown.
use rust_task_runner.Common.{
  ℕ, ℕ_discrete, ◌<◌, ◌≡◌, refl, true, false, none, List, [], ◌∷◌, All, total, pick, arith,
}
use rust_task_runner.BinaryHeap
use rust_task_runner.Task.{Task, user, TaskTraits, default_traits, block_shutdown}
use rust_task_runner.Sequence
use rust_task_runner.Sequence.{
  Sequence, push_task, will_run_task, take_task, has_ready_tasks, flush_ready_delayed_tasks,
  flush_loop,
}
use rust_task_runner.PriorityQueue
use rust_task_runner.ThreadGroup
use rust_task_runner.ThreadGroup.{running, get_work, push_task_source, begin_round, end_round}
use rust_task_runner.System.{
  Event, works, posts, delivers, step, run, init, advance, on_work, on_status, on_task, deliver,
}
use rust_task_runner.System.Claims.{run-excludes}
use rust_task_runner.System.NoLost.{IsKept, run-keeps}
use rust_task_runner.ThreadPool
use rust_task_runner.ThreadPool.{Pool, Stage, finished, Caller, returned, sleeping}
use rust_task_runner.ThreadPool.Counted.{blocks}
use rust_task_runner.ThreadPool.Shutdown.{shutdown-waits, shutdown-sleeps}
use rust_task_runner.TaskTracker.{
  is_block, will_post_task, after_run_task, begin_shutdown, must_wait, is_shutdown_started,
}

abbrev job : ℕ → Task
job n = record { callback = user n; posted_from = 0; delayed_run_time = none; sequence_num = 0 }

-- Sequences with the tokens 0, 1, 2, ….
abbrev sequences : ℕ → Sequence
sequences q = record {
  token = q;
  inner = record { immediate_queue = []; delayed_queue = []; next_sequence_num = 0 };
  has_worker = false;
  traits = default_traits;
  task_runner = none;
}

-- A task is posted to sequence 3, and worker 0 takes it up to its callback, while worker 1 gets
-- the same sequence from a second post.
abbrev two_workers : List Event
two_workers =
    posts 3 (job 5)
    ∷ delivers 0
    ∷ works 0
    ∷ works 0
    ∷ works 0
    ∷ posts 3 (job 6)
    ∷ delivers 0
    ∷ works 1
    ∷ works 1
    ∷ []

at_callback : ((run two_workers (init sequences)).group.workers 0).pc ≡ running 3 (user 5)
unfolding run step advance on_work on_status on_task deliver pick push_task will_run_task take_task
    get_work push_task_source PriorityQueue.push Sequence.get_sort_key flush_ready_delayed_tasks
    flush_loop begin_round end_round ThreadGroup.new init BinaryHeap.push ℕ_discrete
at_callback = refl

run-excludes_example : ◌≡◌ {A = ℕ} 0 0
run-excludes_example =
    run-excludes sequences (λ q. refl) two_workers 0 0 3 (user 5) (user 5) at_callback at_callback

run-keeps_example : IsKept (run two_workers (init sequences))
run-keeps_example = run-keeps sequences (λ q. refl) (λ q. refl) (λ q. refl) two_workers

abbrev blocking : TaskTraits
blocking = record default_traits { shutdown_behavior = block_shutdown }

-- The shutdown starts while a blocking task runs; the caller sleeps, and is woken at its end.
abbrev asleep_events : List ThreadPool.Event
asleep_events =
    ThreadPool.posts blocking
    ∷ ThreadPool.posts default_traits
    ∷ ThreadPool.starts 0
    ∷ ThreadPool.shuts_down
    ∷ ThreadPool.shuts_down
    ∷ []

abbrev done_events : List ThreadPool.Event
done_events =
    ThreadPool.posts blocking
    ∷ ThreadPool.posts default_traits
    ∷ ThreadPool.starts 0
    ∷ ThreadPool.shuts_down
    ∷ ThreadPool.shuts_down
    ∷ ThreadPool.starts 1
    ∷ ThreadPool.ends 0
    ∷ ThreadPool.shuts_down
    ∷ []

caller_sleeps : (ThreadPool.run asleep_events ThreadPool.new).caller ≡ sleeping
unfolding ThreadPool.run ThreadPool.step ThreadPool.post_task ThreadPool.start_task
    ThreadPool.end_task ThreadPool.on_task ThreadPool.call_shutdown will_post_task after_run_task
    begin_shutdown must_wait is_shutdown_started
caller_sleeps = refl

caller_returned : (ThreadPool.run done_events ThreadPool.new).caller ≡ returned
unfolding ThreadPool.run ThreadPool.step ThreadPool.post_task ThreadPool.start_task
    ThreadPool.end_task ThreadPool.on_task ThreadPool.call_shutdown will_post_task after_run_task
    begin_shutdown must_wait is_shutdown_started
caller_returned = refl

shutdown-waits_example :
    All
      (λ x. is_block x.traits.shutdown_behavior ≡ true → x.stage ≡ finished)
      (ThreadPool.run done_events ThreadPool.new).tasks
shutdown-waits_example = shutdown-waits done_events (omega arith) caller_returned

shutdown-sleeps_example : 0 < total blocks (ThreadPool.run asleep_events ThreadPool.new).tasks
shutdown-sleeps_example = shutdown-sleeps asleep_events (omega arith) caller_sleeps
