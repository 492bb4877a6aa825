-- ===== src/TaskRunner.antt =====
-- `TaskRunner` of rust_task/task_runner.rs as its three implementors have it:
-- rust_task/thread_pool/pooled_sequenced_task_runner.rs and pooled_parallel_task_runner.rs, and
-- rust_io/io_task_runner.rs. Runners are numbers; a closure that has been posted waits until its
-- runner starts it, and here any of them may be the next; a closure runs step by step, and other
-- closures may run in between.
pub mod Replies
pub mod Ordered
use rust_task_runner.Common.{
  ℕ, ◌+◌, ◌-◌, Bool, true, false, List, [], ◌∷◌, ◌++◌, Option, none, some, if◌then◌else◌, pick,
  update,
}
use rust_task_runner.Task.{Callback, user, timed, guarded, with_reply}
use rust_task_runner.ThreadLocals.{ThreadLocals}

-- A runner of the pool takes every task, that of an IO thread none after its shutdown.
pub data Kind : Type 0 where
  pooled io : Kind

pub record Posting : Type 0 where
  pub runner : ℕ
  pub callback : Callback

-- A closure of the program that has run, with the runner on which it ran.
pub record Run : Type 0 where
  pub runner : ℕ
  pub closure : ℕ

-- What a closure that runs has still to do: call a closure of the program, or post a reply.
pub data Todo : Type 0 where
  calls : ℕ → Todo
  replies : Option ℕ → Callback → Todo

pub record Running : Type 0 where
  pub runner : ℕ
  pub todo : List Todo

-- `refused` are the closures that `post_task` dropped when it returned false.
pub record Runners : Type 0 where
  pub kind : ℕ → Kind
  pub shutdown : ℕ → Bool
  pub monitored : Bool
  pub now : ℕ
  pub waiting : List Posting
  pub running : List Running
  pub refused : List Posting
  pub ran : List Run

abbrev pub refuses : Kind → Bool → Bool
refuses pooled stopped = false
refuses io stopped = stopped

-- `post_task`: it wraps the closure for the monitor, if there is one.
unfoldable pub post_task : ℕ → Callback → Runners → Bool × Runners
post_task r callback s =
    if refuses (s.kind r) (s.shutdown r)
    then (
      false,
      record s { refused = s.refused ++ record { runner = r; callback = callback } ∷ [] },
    )
    else (
      true,
      record s {
        waiting =
            s.waiting
            ++ record {
              runner = r;
              callback = if s.monitored then timed s.now callback else callback;
            }
              ∷ [];
      },
    )

-- `post_task_and_reply` on a thread with the locals `t`: the reply goes to its default runner.
unfoldable pub post_task_and_reply :
    ThreadLocals → ℕ → Callback → Callback → Runners → Bool × Runners
unfolding post_task
post_task_and_reply t r task reply s = post_task r (with_reply task t.current_default reply) s

unfoldable pub post_reply : Option ℕ → Callback → Runners → Runners
unfolding post_task
post_reply none reply s = s
post_reply (some r) reply s = let (_, s') = post_task r reply s in s'

-- What a closure does, one step after the other: that of `post_task_and_reply` calls the task and
-- then posts the reply. What the wrapper of the monitor records is left to TaskMonitor, and the
-- closure of `ThreadPool::wrap`, which no runner builds, is taken to run.
unfoldable pub closure_steps : Callback → List Todo
closure_steps (user n) = calls n ∷ []
closure_steps (timed posted callback) = closure_steps callback
closure_steps (guarded traits callback) = closure_steps callback
closure_steps (with_reply task o reply) = closure_steps task ++ replies o reply ∷ []

-- The next step of a closure that runs on runner `r`.
unfoldable pub execute : ℕ → Todo → Runners → Runners
unfolding post_reply
execute r (calls n) s = record s { ran = s.ran ++ record { runner = r; closure = n } ∷ [] }
execute r (replies o reply) s = post_reply o reply s

unfoldable pub start_next : Option (Posting × List Posting) → Runners → Runners
unfolding closure_steps
start_next none s = s
start_next (some (p, rest)) s = record s {
  waiting = rest;
  running = record { runner = p.runner; todo = closure_steps p.callback } ∷ s.running;
}

abbrev pub run_todo : ℕ → List Todo → Runners → Runners
run_todo r [] s = s
run_todo r (todo ∷ todos) s =
    execute r todo (record s { running = record { runner = r; todo = todos } ∷ s.running })

unfoldable pub run_next : Option (Running × List Running) → Runners → Runners
unfolding execute
run_next none s = s
run_next (some (x, rest)) s = run_todo x.runner x.todo (record s { running = rest })

-- The program posts its closures `task` and `reply`, a runner starts one that waits or goes on with
-- one that runs, an IO thread is shut down.
pub data Event : Type 0 where
  posts : ℕ → ℕ → Event
  posts_with_reply : ThreadLocals → ℕ → ℕ → ℕ → Event
  begins : ℕ → Event
  runs : ℕ → Event
  shuts_down : ℕ → Event
  ticks : ℕ → Event

unfoldable pub step : Event → Runners → Runners
unfolding post_task post_task_and_reply start_next run_next pick
step (posts r task) s = let (_, s') = post_task r (user task) s in s'
step (posts_with_reply t r task reply) s =
    let (_, s') = post_task_and_reply t r (user task) (user reply) s in s'
step (begins k) s = start_next (pick k s.waiting) s
step (runs k) s = run_next (pick k s.running) s
step (shuts_down r) s = record s { shutdown = update s.shutdown r true }
step (ticks n) s = record s { now = s.now + n }

abbrev pub run : List Event → Runners → Runners
run [] s = s
run (e ∷ es) s = run es (step e s)
