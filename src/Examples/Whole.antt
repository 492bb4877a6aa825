-- ===== src/Examples/Whole.antt =====
-- Runs of the thread pool with its queue and its shutdown.
use rust_task_runner.Common.{
  ℕ, ℕ_discrete, ◌≡◌, ◌≢◌, ◌<◌, refl, Bool, false, ◌==◌, Option, none, some, List, [], ◌∷◌, pick,
  get_elem?, arith,
}
use rust_task_runner.BinaryHeap
use rust_task_runner.Task
use rust_task_runner.Task.{Callback, user, guarded, TaskTraits, default_traits, block_shutdown}
use rust_task_runner.Sequence
use rust_task_runner.Sequence.{
  Sequence, set_task_runner, push_task, will_run_task, take_task, flush_ready_delayed_tasks,
  flush_loop,
}
use rust_task_runner.Sequence.Conserve.{contents}
use rust_task_runner.PriorityQueue
use rust_task_runner.ThreadGroup
use rust_task_runner.ThreadGroup.{running, get_work, push_task_source, begin_round, end_round}
use rust_task_runner.System
use rust_task_runner.TaskTracker.{
  will_post_task, after_run_task, is_shutdown_started, begin_shutdown, must_wait,
}
use rust_task_runner.ThreadPool
use rust_task_runner.ThreadPool.{queued, finished, returned, wrap, post_task, start_task, end_task}
use rust_task_runner.ThreadLocals.{create}
use rust_task_runner.ThreadPool.Runners.{
  Creation, creates_runner, posts_task, creates_io_runner, Created, sequence_of, token_of,
  new_runner, create_one, create_all, create_all-increases,
}
use rust_task_runner.ThreadPool.AtWork.{
  Whole, Event, posts, works, delivers, shuts_down, step, run, new, on_closure, run_wrapped, work,
  close, shutdown, post,
}
use rust_task_runner.ThreadPool.AtWork.Shift.{runs, held}
use rust_task_runner.ThreadPool.AtWork.Present.{Here}
use rust_task_runner.ThreadPool.AtWork.Refines.{abstract_run}
use rust_task_runner.ThreadPool.AtWork.NoLost.{Awaited, run-awaits}
use rust_task_runner.ThreadPool.AtWork.Histories.{run-refines, run-present, shutdown-drains}

-- Sequences with the tokens 0, 1, 2, …, whose tasks block the shutdown.
abbrev sequences : ℕ → Sequence
sequences q = record {
  token = q;
  inner = record { immediate_queue = []; delayed_queue = []; next_sequence_num = 0 };
  has_worker = false;
  traits = record default_traits { shutdown_behavior = block_shutdown };
  task_runner = none;
}

-- Sequence 5 is that of a runner.
abbrev runner : ℕ → Bool
runner q = q == 5

-- A blocking task is accepted and taken up to its callback, and the shutdown starts meanwhile: its
-- caller sleeps, is woken at the end of the task, and returns.
abbrev events : List Event
events =
    posts 0 7
    ∷ delivers 0
    ∷ works 0
    ∷ works 0
    ∷ works 0
    ∷ works 0
    ∷ shuts_down
    ∷ shuts_down
    ∷ works 0
    ∷ shuts_down
    ∷ []

abbrev blocking : TaskTraits
blocking = record default_traits { shutdown_behavior = block_shutdown }

-- What the run comes to: the caller of `shutdown` is past its wait, and the task has ended.
abbrev after : Whole
after = run runner false events (new sequences)

task_ended :
    (after.pool.caller ≡ returned)
    × (after.ids 0 ≡ some 0)
    × (get_elem? after.pool.tasks 0 ≡ some (record { traits = blocking; stage = finished }))
unfolding step post work on_closure run_wrapped shutdown close post_task wrap start_task end_task
    ThreadPool.call_shutdown will_post_task after_run_task begin_shutdown must_wait
    is_shutdown_started System.step System.advance System.on_work System.on_status System.on_task
    System.deliver pick push_task will_run_task take_task get_work push_task_source
    PriorityQueue.push Sequence.get_sort_key flush_ready_delayed_tasks flush_loop begin_round
    end_round ThreadGroup.new System.init BinaryHeap.push ℕ_discrete Task.new
task_ended = (refl, refl, refl)

run-refines_example :
    after.pool ≡ ThreadPool.run (abstract_run runner false events (new sequences)) ThreadPool.new
run-refines_example = run-refines runner false sequences (λ q. refl) (λ q. refl) events

-- Up to the test of the closure, which is behind the worker.
abbrev started : List Event
started = posts 0 7 ∷ delivers 0 ∷ works 0 ∷ works 0 ∷ works 0 ∷ works 0 ∷ []

task_started :
    get_elem? (run runner false started (new sequences)).pool.tasks 0
    ≡ some (record { traits = blocking; stage = ThreadPool.running })
unfolding step post work on_closure run_wrapped shutdown close post_task wrap start_task end_task
    ThreadPool.call_shutdown will_post_task after_run_task begin_shutdown must_wait
    is_shutdown_started System.step System.advance System.on_work System.on_status System.on_task
    System.deliver pick push_task will_run_task take_task get_work push_task_source
    PriorityQueue.push Sequence.get_sort_key flush_ready_delayed_tasks flush_loop begin_round
    end_round ThreadGroup.new System.init BinaryHeap.push ℕ_discrete Task.new
task_started = refl

run-present_example :
    Here
      (runs (run runner false started (new sequences)).system)
      (held (run runner false started (new sequences)).system)
      (run runner false started (new sequences)).ids
      (run runner false started (new sequences)).inside
      0
      ThreadPool.running
run-present_example =
    run-present runner false sequences (λ q. refl) (λ q. refl) started 0
      (record { traits = blocking; stage = ThreadPool.running }) task_started

shutdown-drains_example :
    (contents (after.system.sequences 0) ≡ [])
    × ((i : ℕ) (c : Callback) → (after.system.group.workers i).pc ≢ running 0 c)
shutdown-drains_example =
    shutdown-drains runner false sequences (λ q. refl) (λ q. refl) events (omega arith) task_ended.0
      0 0 (record { traits = blocking; stage = finished }) task_ended.1 task_ended.2 refl

-- Up to the push of the sequence to the queue.
abbrev delivered : List Event
delivered = posts 0 7 ∷ delivers 0 ∷ []

task_waits :
    get_elem? (run runner false delivered (new sequences)).pool.tasks 0
    ≡ some (record { traits = blocking; stage = queued })
unfolding step post work on_closure run_wrapped shutdown close post_task wrap start_task end_task
    ThreadPool.call_shutdown will_post_task after_run_task begin_shutdown must_wait
    is_shutdown_started System.step System.advance System.on_work System.on_status System.on_task
    System.deliver pick push_task will_run_task take_task get_work push_task_source
    PriorityQueue.push Sequence.get_sort_key flush_ready_delayed_tasks flush_loop begin_round
    end_round ThreadGroup.new System.init BinaryHeap.push ℕ_discrete Task.new
task_waits = refl

run-awaits_example :
    (q : ℕ) × ((run runner false delivered (new sequences)).ids q ≡ some 0)
    × Awaited (run runner false delivered (new sequences)).system q
run-awaits_example =
    run-awaits runner false sequences (λ q. refl) (λ q. refl) delivered 0
      (record { traits = blocking; stage = queued }) task_waits refl

-- Two runners, with a task and an IO runner between them.
abbrev creations : List Creation
creations =
    creates_runner default_traits
    ∷ posts_task default_traits
    ∷ creates_io_runner
    ∷ creates_runner blocking
    ∷ []

abbrev with_token : ℕ → TaskTraits → Option ℕ → Sequence
with_token token traits task_runner = record {
  token = token;
  inner = record { immediate_queue = []; delayed_queue = []; next_sequence_num = 0 };
  has_worker = false;
  traits = traits;
  task_runner = task_runner;
}

abbrev first : Created
first = sequence_of (with_token 1 default_traits (some 0))

abbrev last : Created
last = sequence_of (with_token 4 blocking (some 3))

created_first : get_elem? (create_all creations 0 1) 0 ≡ some first
unfolding create_all create_one new_runner Sequence.new set_task_runner create
created_first = refl

created_last : get_elem? (create_all creations 0 1) 3 ≡ some last
unfolding create_all create_one new_runner Sequence.new set_task_runner create
created_last = refl

create_all-increases_example : token_of first < token_of last
create_all-increases_example =
    create_all-increases creations 0 1 (omega arith) 0 3 (omega arith) first last created_first
      created_last
