-- ===== src/Examples/Queues.antt =====
-- Runs of one sequence, of the queue of sources, of the manager of deadlines and of the scopes.
use rust_task_runner.Common.{
  ℕ, ◌≡◌, refl, Bool, true, false, none, some, List, [], ◌∷◌, ◌++◌, map, All, select, not, ◌↔◌, leb,
  arith, Perm,
}
use rust_task_runner.BinaryHeap
use rust_task_runner.Task.{Task, Callback, user, default_traits, user_blocking}
use rust_task_runner.ThreadLocals.{ThreadLocals}
use rust_task_runner.ThreadLocals.Scopes.{
  Scopes, within, under_token, done, next, run_scopes, run_scopes-restores,
}
use rust_task_runner.Sequence
use rust_task_runner.Sequence.{
  Sequence, SequenceInner, take_task, pop_front, has_ready_tasks, push_delayed_task, delayed_order,
  flush_ready_delayed_tasks, flush_loop,
}
use rust_task_runner.Sequence.Flush.{
  take_task-eq-pop_front, has_ready_tasks-iff-take_task, is_due, tasks,
}
use rust_task_runner.Sequence.Fifo.{
  Call, posts, posts_delayed, claims, takes, releases, run, call, callbacks, gather, all_posted,
  run-fifo,
}
use rust_task_runner.Sequence.Conserve.{contents, run-perm}
use rust_task_runner.Sequence.Deadline.{IsOrdered, numbered_task, push_delayed_task-eq-select}
use rust_task_runner.PriorityQueue
use rust_task_runner.PriorityQueue.{QueueEntry, pop}
use rust_task_runner.PriorityQueue.Order.{Pushed, push_all, entry, Precedes, pop-push_all}
use rust_task_runner.DelayedTaskManager
use rust_task_runner.DelayedTaskManager.{Manager, timer_round, add_sequence}

abbrev job : ℕ → Task
job n = record { callback = user n; posted_from = 0; delayed_run_time = none; sequence_num = n }

-- One immediate task, one that is due at 5 and one that is due at 9.
abbrev three : Sequence
three = record {
  token = 4;
  inner = record {
    immediate_queue = job 0 ∷ [];
    delayed_queue =
        record { ready_time = 5; sequence_num = 1; task = job 1 }
        ∷ record { ready_time = 9; sequence_num = 2; task = job 2 }
        ∷ [];
    next_sequence_num = 3;
  };
  has_worker = false;
  traits = default_traits;
  task_runner = none;
}

three-IsOrdered : IsOrdered three
three-IsOrdered = record {
  sorted = ((refl, tt), (tt, tt));
  numbered = (omega arith, (omega arith, tt));
}

take_task-eq-pop_front_example :
    let due_tasks = tasks (select (is_due 6) three.inner.delayed_queue) in
    let (task, rest) = pop_front (three.inner.immediate_queue ++ due_tasks) in
    take_task 6 three ≡ (
      task,
      record three {
        inner = record three.inner {
          immediate_queue = rest;
          delayed_queue = select (λ d. not (is_due 6 d)) three.inner.delayed_queue;
        };
      },
    )
take_task-eq-pop_front_example = take_task-eq-pop_front 6 three three-IsOrdered.sorted

has_ready_tasks-iff-take_task_example :
    (has_ready_tasks 6 three ≡ true) ↔ ((t : Task) × ((take_task 6 three).0 ≡ some t))
has_ready_tasks-iff-take_task_example = has_ready_tasks-iff-take_task 6 three

-- Posts 10, 11 and the delayed 20, and takes two tasks after 20 is due.
abbrev history : List Call
history =
    posts (job 10)
    ∷ posts_delayed (job 20) 3
    ∷ claims
    ∷ takes 4
    ∷ releases
    ∷ posts (job 11)
    ∷ takes 5
    ∷ []

abbrev empty : Sequence
empty = record three {
  inner = record { immediate_queue = []; delayed_queue = []; next_sequence_num = 0 };
}

abbrev is_immediate : Callback → Bool
is_immediate (user n) = leb n 15
is_immediate _ = false

run-fifo_example :
    let (taken, s') = run history empty in
    select is_immediate (callbacks taken)
      ++ select is_immediate (callbacks s'.inner.immediate_queue)
    ≡ user 10 ∷ user 11 ∷ []
run-fifo_example =
    run-fifo is_immediate history empty (refl, (refl, (tt, (tt, (tt, (refl, (tt, tt))))))) tt

test_taken : callbacks (run history empty).0 ≡ user 10 ∷ user 20 ∷ []
unfolding run call take_task flush_ready_delayed_tasks flush_loop push_delayed_task
    Sequence.push_task BinaryHeap.push
test_taken = refl

run-perm_example :
    let (taken, s') = run history empty in
    Perm (callbacks taken ++ contents s') (contents empty ++ gather all_posted history)
run-perm_example = run-perm history empty

push_delayed_task-eq-select_example :
    (push_delayed_task (job 7) 5 three).inner.delayed_queue
    ≡ select (is_due 5) three.inner.delayed_queue
      ++ numbered_task (job 7) 5 three ∷ select (λ e. not (is_due 5 e)) three.inner.delayed_queue
push_delayed_task-eq-select_example = push_delayed_task-eq-select (job 7) 5 three three-IsOrdered

-- An urgent source that is pushed behind one of the default priority.
abbrev urgent : Sequence
urgent = record three { traits = record default_traits { priority = user_blocking } }

abbrev pushes : List Pushed
pushes =
    record { time = 1; source = 0; sequence = three }
    ∷ record { time = 2; source = 1; sequence = urgent }
    ∷ []

abbrev first_entry : QueueEntry
first_entry = record {
  sort_key = record { priority = user_blocking; ready_time = 2 };
  task_source = 1;
}

abbrev others : List QueueEntry
others = entry (record { time = 1; source = 0; sequence = three }) ∷ []

pop-push_all_example :
    All (Precedes first_entry) others × Perm (first_entry ∷ others) (map entry pushes)
unfolding push_all PriorityQueue.push Sequence.get_sort_key BinaryHeap.push
pop-push_all_example = pop-push_all pushes first_entry others popped
  where
    popped : pop (push_all pushes PriorityQueue.new) ≡ some (first_entry, others)
    popped = refl

abbrev two_deadlines : Manager
two_deadlines = add_sequence 4 1 (add_sequence 9 0 DelayedTaskManager.new)

test_timer_round : (timer_round 5 two_deadlines).0 ≡ some 1
unfolding timer_round add_sequence DelayedTaskManager.fire BinaryHeap.push
test_timer_round = refl

abbrev nested : Scopes
nested =
    next (within 1 (next (under_token 7 (next (within 2 done) done)) done))
      (next (within 3 done) done)

abbrev fresh : ThreadLocals
fresh = record { current_sequence_token = none; current_default = some 8 }

run_scopes-restores_example : (run_scopes nested fresh).current_default ≡ some 8
run_scopes-restores_example = run_scopes-restores nested fresh
