-- ===== src/Examples/Runners.antt =====
-- Runs of tasks with replies on a sequence of the pool, 1, and an IO thread, 2.
use rust_task_runner.Common.{
  ◌+◌, ◌≤◌, ◌≡◌, refl, true, false, List, [], ◌∷◌, ◌==◌, if◌then◌else◌, some, pick, arith,
}
use rust_task_runner.ThreadLocals.{ThreadLocals}
use rust_task_runner.TaskRunner.{
  Runners, pooled, io, Event, posts, posts_with_reply, begins, runs, ticks, step, run, post_task,
  post_task_and_reply, post_reply, execute, run_next, start_next, closure_steps,
}
use rust_task_runner.TaskRunner.Replies.{ran_on, waits_for, in_progress_on, refused_on, run-ran_on}
use rust_task_runner.TaskRunner.Ordered.{ran_of, run-reply_after_task}

abbrev new_runners : Runners
new_runners = record {
  kind = λ r. if r == 2 then io else pooled;
  shutdown = λ r. false;
  monitored = true;
  now = 0;
  waiting = [];
  running = [];
  refused = [];
  ran = [];
}

-- A task of the IO thread has a task done on the pool, with the reply to itself; between the task
-- and the post of its reply another closure runs.
abbrev on_io : ThreadLocals
on_io = record { current_sequence_token = some 5; current_default = some 2 }

abbrev asking : List Event
asking =
    posts 2 7
    ∷ ticks 3
    ∷ posts_with_reply on_io 1 8 9
    ∷ begins 1
    ∷ runs 0
    ∷ begins 0
    ∷ runs 0
    ∷ runs 1
    ∷ begins 0
    ∷ runs 0
    ∷ []

run-ran_on_example :
    ran_on 2 9 (run asking new_runners)
      + waits_for 2 9 (run asking new_runners)
      + in_progress_on 2 9 (run asking new_runners)
      + refused_on 2 9 (run asking new_runners)
    ≡ 1
run-ran_on_example = run-ran_on 2 9 asking new_runners

run-reply_after_task_example : ran_of 9 (run asking new_runners) ≤ ran_of 8 (run asking new_runners)
run-reply_after_task_example =
    run-reply_after_task 8 9 asking new_runners
      (refl, (tt, ((refl, omega arith), (tt, (tt, (tt, (tt, (tt, (tt, (tt, tt)))))))))) refl refl
      refl

test_asking :
    (run asking new_runners).ran
    ≡ record { runner = 1; closure = 8 }
      ∷ record { runner = 2; closure = 7 }
      ∷ record { runner = 2; closure = 9 }
      ∷ []
unfolding step post_task post_task_and_reply post_reply execute run_next start_next closure_steps
    pick
test_asking = refl
