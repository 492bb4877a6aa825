-- ===== src/TaskRunner/Replies.antt =====
-- How often a closure runs that was posted to a runner or as a reply (rust_task/task_runner.rs), and
-- on which runner.
use rust_task_runner.Common.{
  ℕ, ◌+◌, ◌*◌, ◌≡◌, refl, Bool-cases, List, [], ◌∷◌, Option, none, some, Option-cases, inl, inr,
  pick, total, total-append, total-pick, same, arith,
}
use rust_task_runner.Task.{Callback, user, timed, guarded, with_reply}
use rust_task_runner.TaskRunner.{
  Runners, Posting, Run, refuses, post_task, post_task_and_reply, post_reply, execute, run_next,
  Todo, calls, replies, Running, closure_steps, start_next, run_todo, Event, posts,
  posts_with_reply, begins, runs, shuts_down, ticks, step, run,
}

-- How often a closure that is posted to a runner makes the program's closures run, where `w` counts
-- a run by its runner and its closure.
abbrev pub runs_of : (ℕ → ℕ → ℕ) → ℕ → Callback → ℕ
runs_of w r (user n) = w r n
runs_of w r (timed posted callback) = runs_of w r callback
runs_of w r (guarded traits callback) = runs_of w r callback
runs_of w r (with_reply task o reply) =
    runs_of w r task + elim o [ none ↦ 0 | some r' ↦ runs_of w r' reply ]

-- The same for a step of a closure that runs.
abbrev pub runs_in : (ℕ → ℕ → ℕ) → ℕ → Todo → ℕ
runs_in w r (calls n) = w r n
runs_in w r (replies o reply) = elim o [ none ↦ 0 | some r' ↦ runs_of w r' reply ]

-- How often the closure `n` ran on runner `r`, will run there from what waits, and would have run
-- there from what was refused.
abbrev pub is_run : ℕ → ℕ → ℕ → ℕ → ℕ
is_run r n r' n' = same r r' * same n n'

abbrev pub ran_on : ℕ → ℕ → Runners → ℕ
ran_on r n s = total (λ (x : Run). is_run r n x.runner x.closure) s.ran

abbrev pub waits_for : ℕ → ℕ → Runners → ℕ
waits_for r n s = total (λ (p : Posting). runs_of (is_run r n) p.runner p.callback) s.waiting

abbrev pub in_progress_on : ℕ → ℕ → Runners → ℕ
in_progress_on r n s =
    total (λ (x : Running). total (runs_in (is_run r n) x.runner) x.todo) s.running

abbrev pub refused_on : ℕ → ℕ → Runners → ℕ
refused_on r n s = total (λ (p : Posting). runs_of (is_run r n) p.runner p.callback) s.refused

-- How often a history asks for a run of the closure `n` on runner `r`: a task is asked for on the
-- runner that it is posted to, and a reply on the default runner of the thread that posts.
abbrev pub asks : ℕ → ℕ → Event → ℕ
asks r n (posts r' task) = is_run r n r' task
asks r n (posts_with_reply t r' task reply) =
    runs_of (is_run r n) r' (with_reply (user task) t.current_default (user reply))
asks r n _ = 0

module _ (w : ℕ → ℕ → ℕ) where
  abbrev weight : Posting → ℕ
  weight p = runs_of w p.runner p.callback

  abbrev todo_weight : Running → ℕ
  todo_weight x = total (runs_in w x.runner) x.todo

  abbrev load : Runners → ℕ
  load s =
      total (λ (x : Run). w x.runner x.closure) s.ran
      + total weight s.waiting
      + total todo_weight s.running
      + total weight s.refused

  post_task-load :
      (r : ℕ) (callback : Callback) (s : Runners)
      → load (post_task r callback s).1 ≡ load s + runs_of w r callback
  unfolding post_task
  post_task-load r callback s = elim (Bool-cases (refuses (s.kind r) (s.shutdown r))) [
    | inl x ↦ rw x (omega (arith, total-append weight s.refused (posting callback ∷ [])))
    | inr x ↦ elim (Bool-cases s.monitored) [
      | inl y ↦
          rw (x, y)
            (omega (arith, total-append weight s.waiting (posting (timed s.now callback) ∷ [])))
      | inr y ↦ rw (x, y) (omega (arith, total-append weight s.waiting (posting callback ∷ [])))
    ]
  ]
    where
      posting : Callback → Posting
      posting c = record { runner = r; callback = c }

  post_reply-load :
      (r : ℕ) (o : Option ℕ) (reply : Callback) (s : Runners)
      → load (post_reply o reply s) ≡ load s + runs_in w r (replies o reply)
  unfolding post_reply
  post_reply-load r none reply s = omega arith
  post_reply-load r (some r') reply s = post_task-load r' reply s

  execute-load :
      (r : ℕ) (todo : Todo) (s : Runners) → load (execute r todo s) ≡ load s + runs_in w r todo
  unfolding execute
  execute-load r (calls n) s = omega (
    arith,
    total-append (λ (x : Run). w x.runner x.closure) s.ran
        (record { runner = r; closure = n } ∷ []),
  )
  execute-load r (replies o reply) s = post_reply-load r o reply s

  closure_steps-total :
      (r : ℕ) (c : Callback) → total (runs_in w r) (closure_steps c) ≡ runs_of w r c
  unfolding closure_steps
  closure_steps-total r (user n) = omega arith
  closure_steps-total r (timed posted c) = closure_steps-total r c
  closure_steps-total r (guarded traits c) = closure_steps-total r c
  closure_steps-total r (with_reply task o reply) = omega (
    arith,
    total-append (runs_in w r) (closure_steps task) (replies o reply ∷ []),
    closure_steps-total r task,
  )

  start_next-load : (k : ℕ) (s : Runners) → load (start_next (pick k s.waiting) s) ≡ load s
  unfolding start_next
  start_next-load k s = elim (Option-cases (pick k s.waiting)) [
    | inl x ↦ rw x refl
    | inr ((p, rest), x) ↦
        rw x
          (omega (arith, closure_steps-total p.runner p.callback, total-pick weight k s.waiting x))
  ]

  run_todo-load :
      (r : ℕ) (todos : List Todo) (s : Runners)
      → load (run_todo r todos s) ≡ load s + total (runs_in w r) todos
  run_todo-load r [] s = omega arith
  run_todo-load r (todo ∷ todos) s = omega (
    arith,
    execute-load r todo (record s { running = record { runner = r; todo = todos } ∷ s.running }),
  )

  run_next-load : (k : ℕ) (s : Runners) → load (run_next (pick k s.running) s) ≡ load s
  unfolding run_next
  run_next-load k s = elim (Option-cases (pick k s.running)) [
    | inl x ↦ rw x refl
    | inr ((p, rest), x) ↦ rw x (
        omega (
          arith,
          run_todo-load p.runner p.todo (record s { running = rest }),
          total-pick todo_weight k s.running x,
        ))
  ]

step-load :
    (r n : ℕ) (e : Event) (s : Runners)
    → load (is_run r n) (step e s) ≡ load (is_run r n) s + asks r n e
unfolding step post_task_and_reply
step-load r n (posts r' task) s = post_task-load (is_run r n) r' (user task) s
step-load r n (posts_with_reply t r' task reply) s =
    post_task-load (is_run r n) r' (with_reply (user task) t.current_default (user reply)) s
step-load r n (begins k) s = omega (arith, start_next-load (is_run r n) k s)
step-load r n (runs k) s = omega (arith, run_next-load (is_run r n) k s)
step-load r n (shuts_down r') s = omega arith
step-load r n (ticks m) s = omega arith

-- No task and no reply is lost or run twice, and each runs on its own runner: whatever is posted and
-- run and in whatever order, the runs of a closure on a runner, those that wait, those that a
-- closure which runs has still to make or post, and those that an IO thread that is shut down has
-- refused are together exactly as many more than at the start as
-- were asked for there, a task on the runner that it was posted to and a reply on the default
-- runner of the thread that posted.
pub run-ran_on :
    (r n : ℕ) (es : List Event) (s : Runners)
    → ran_on r n (run es s)
        + waits_for r n (run es s)
        + in_progress_on r n (run es s)
        + refused_on r n (run es s)
      ≡ ran_on r n s
        + waits_for r n s
        + in_progress_on r n s
        + refused_on r n s
        + total (asks r n) es
run-ran_on r n [] s = omega arith
run-ran_on r n (e ∷ es) s = omega (arith, run-ran_on r n es (step e s), step-load r n e s)
