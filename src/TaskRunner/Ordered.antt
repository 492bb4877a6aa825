-- ===== src/TaskRunner/Ordered.antt =====
-- The order of a task and its reply (rust_task/task_runner.rs).
use rust_task_runner.Common.{
  ℕ, ◌+◌, ◌≤◌, ◌≡◌, refl, ap, Bool-cases, List, [], ◌∷◌, ◌++◌, Option, none, some, Option-cases,
  inl, inr, pick, total, total-append, total-pick, All, All-append, All-pick, same, arith,
}
use rust_task_runner.Task.{Callback, user, timed, guarded, with_reply}
use rust_task_runner.TaskRunner.{
  Runners, Posting, Run, refuses, post_task, post_task_and_reply, post_reply, execute, run_next,
  Todo, calls, replies, Running, closure_steps, start_next, run_todo, Event, posts,
  posts_with_reply, begins, runs, shuts_down, ticks, step, run,
}

-- How often the closure `n` has run, on any runner.
abbrev pub ran_of : ℕ → Runners → ℕ
ran_of n s = total (λ (x : Run). same n x.closure) s.ran

-- The closure `m` is posted only as the reply to the task `n`.
abbrev pub IsPaired : ℕ → ℕ → Event → Type 0
IsPaired n m (posts r task) = same m task ≡ 0
IsPaired n m (posts_with_reply t r task reply) = (same m task ≡ 0) × (same m reply ≤ same n task)
IsPaired n m _ = Unit

-- 1 for a closure that runs `m` as soon as it runs.
abbrev direct : ℕ → Callback → ℕ
direct m (user x) = same m x
direct m (timed posted c) = direct m c
direct m (guarded traits c) = direct m c
direct m (with_reply task o reply) = 0

-- A closure with a reply runs `n` before it posts `m`.
abbrev IsSafe : ℕ → ℕ → Callback → Type 0
IsSafe n m (user x) = Unit
IsSafe n m (timed posted c) = IsSafe n m c
IsSafe n m (guarded traits c) = IsSafe n m c
IsSafe n m (with_reply task o reply) =
    (x : ℕ) × (y : ℕ) × (task ≡ user x) × (reply ≡ user y) × (same m x ≡ 0) × (same m y ≤ same n x)

-- 1 for a closure that runs, if its next step runs `m` or posts it.
abbrev next_step : ℕ → List Todo → ℕ
next_step m [] = 0
next_step m (calls x ∷ todos) = same m x
next_step m (replies o reply ∷ todos) = direct m reply

-- What a closure that runs has still to do: a task, or `n` and then the reply `m`, or that reply.
abbrev IsSafeTodo : ℕ → ℕ → List Todo → Type 0
IsSafeTodo n m [] = Unit
IsSafeTodo n m (calls x ∷ []) = Unit
IsSafeTodo n m (calls x ∷ replies o reply ∷ []) =
    (y : ℕ) × (reply ≡ user y) × (same m x ≡ 0) × (same m y ≤ same n x)
IsSafeTodo n m (replies o reply ∷ []) = (y : ℕ) × (reply ≡ user y)
IsSafeTodo n m _ = ⊥

module _ (n m : ℕ) where
  abbrev due : Runners → ℕ
  due s =
      total (λ (p : Posting). direct m p.callback) s.waiting
      + total (λ (x : Running). next_step m x.todo) s.running
      + ran_of m s

  -- With `extra` runs of `m` to come, `m` has run no more often than `n`.
  abbrev IsLate : ℕ → Runners → Type 0
  IsLate extra s =
      (extra + due s ≤ ran_of n s)
      × All (λ (p : Posting). IsSafe n m p.callback) s.waiting
      × All (λ (x : Running). IsSafeTodo n m x.todo) s.running

  post_task-IsLate :
      (r : ℕ) (c : Callback) (s : Runners)
      → IsSafe n m c
      → IsLate (direct m c) s
      → IsLate 0 (post_task r c s).1
  unfolding post_task
  post_task-IsLate r c s safe (le, all, going) =
      elim (Bool-cases (refuses (s.kind r) (s.shutdown r))) [
        | inl x ↦ rw x (omega (arith, le), all, going)
        | inr x ↦ elim (Bool-cases s.monitored) [
          | inl y ↦ rw (x, y) (grows (timed s.now c) le, keeps (timed s.now c) safe, going)
          | inr y ↦ rw (x, y) (grows c le, keeps c safe, going)
        ]
      ]
    where
      posting : Callback → Posting
      posting d = record { runner = r; callback = d }

      grows :
          (d : Callback)
          → direct m d + due s ≤ ran_of n s
          → 0
              + (total (λ (p : Posting). direct m p.callback) (s.waiting ++ posting d ∷ [])
                  + total (λ (x : Running). next_step m x.todo) s.running
                  + ran_of m s)
            ≤ ran_of n s
      grows d h =
          omega (
            arith,
            h,
            total-append (λ (p : Posting). direct m p.callback) s.waiting (posting d ∷ []),
          )

      keeps :
          (d : Callback)
          → IsSafe n m d
          → All (λ (p : Posting). IsSafe n m p.callback) (s.waiting ++ posting d ∷ [])
      keeps d h =
          All-append (λ (p : Posting). IsSafe n m p.callback) s.waiting (posting d ∷ []) all (h, tt)

  -- A run of `x` counts for `n`, and for `m`.
  ran_of-calls :
      (k r x : ℕ) (s : Runners) → ran_of k (execute r (calls x) s) ≡ ran_of k s + same k x
  unfolding execute
  ran_of-calls k r x s = omega (
    arith,
    total-append (λ (a : Run). same k a.closure) s.ran (record { runner = r; closure = x } ∷ []),
  )

  post_reply-IsLate :
      (o : Option ℕ) (y : ℕ) (s : Runners)
      → IsLate (same m y) s
      → IsLate 0 (post_reply o (user y) s)
  unfolding post_reply
  post_reply-IsLate none y s (le, all, going) = (omega (arith, le), all, going)
  post_reply-IsLate (some r) y s late = post_task-IsLate r (user y) s tt late

  -- The next step of a closure that runs, whose rest is put back.
  todo-IsLate :
      (r : ℕ) (todos : List Todo) (s : Runners)
      → IsSafeTodo n m todos
      → IsLate (next_step m todos) s
      → IsLate 0 (run_todo r todos s)
  unfolding execute
  todo-IsLate r [] s safe late = late
  todo-IsLate r (calls x ∷ []) s safe (le, all, going) =
      (omega (arith, le, ran_of-calls n r x s, ran_of-calls m r x s), all, (tt, going))
  todo-IsLate r (calls x ∷ replies o reply ∷ []) s (y, e, f, g) (le, all, going) = (
    rw e (omega (arith, le, f, g, ran_of-calls n r x s, ran_of-calls m r x s)),
    all,
    ((y, e), going),
  )
  todo-IsLate r (calls x ∷ calls z ∷ todos) s safe late = absurd safe
  todo-IsLate r (calls x ∷ replies o reply ∷ z ∷ todos) s safe late = absurd safe
  todo-IsLate r (replies o reply ∷ []) s (y, e) (le, all, going) = rw e (
      post_reply-IsLate o y (record s { running = record { runner = r; todo = [] } ∷ s.running })
        (omega (arith, le, ap (direct m) e), all, (tt, going)))
  todo-IsLate r (replies o reply ∷ z ∷ todos) s safe late = absurd safe

  run_next-IsLate : (k : ℕ) (s : Runners) → IsLate 0 s → IsLate 0 (run_next (pick k s.running) s)
  unfolding run_next
  run_next-IsLate k s (le, all, going) = elim (Option-cases (pick k s.running)) [
    | inl x ↦ rw x (le, all, going)
    | inr ((p, rest), x) ↦
        let (safe, others) =
          All-pick (λ (p : Running). IsSafeTodo n m p.todo) k s.running x going in
        rw x (
          todo-IsLate p.runner p.todo (record s { running = rest }) safe
            (
              omega (arith, le, total-pick (λ (p : Running). next_step m p.todo) k s.running x),
              all,
              others,
            ))
  ]

  closure_steps-IsSafeTodo :
      (c : Callback)
      → IsSafe n m c
      → IsSafeTodo n m (closure_steps c) × (next_step m (closure_steps c) ≡ direct m c)
  unfolding closure_steps
  closure_steps-IsSafeTodo (user x) safe = (tt, refl)
  closure_steps-IsSafeTodo (timed posted c) safe = closure_steps-IsSafeTodo c safe
  closure_steps-IsSafeTodo (guarded traits c) safe = closure_steps-IsSafeTodo c safe
  closure_steps-IsSafeTodo (with_reply task o reply) (x, y, e, f, p, q) = rw e ((y, f, p, q), p)

  start_next-IsLate :
      (k : ℕ) (s : Runners) → IsLate 0 s → IsLate 0 (start_next (pick k s.waiting) s)
  unfolding start_next
  start_next-IsLate k s (le, all, going) = elim (Option-cases (pick k s.waiting)) [
    | inl x ↦ rw x (le, all, going)
    | inr ((p, rest), x) ↦
        let (safe, others) = All-pick (λ (p : Posting). IsSafe n m p.callback) k s.waiting x all in
        let (safe_todo, same_due) = closure_steps-IsSafeTodo p.callback safe in
        rw x (
          omega (
            arith,
            le,
            same_due,
            total-pick (λ (p : Posting). direct m p.callback) k s.waiting x,
          ),
          others,
          (safe_todo, going),
        )
  ]

  step-IsLate : (e : Event) (s : Runners) → IsPaired n m e → IsLate 0 s → IsLate 0 (step e s)
  unfolding step post_task_and_reply
  step-IsLate (posts r task) s h (le, all, going) =
      post_task-IsLate r (user task) s tt (omega (arith, h, le), all, going)
  step-IsLate (posts_with_reply t r task reply) s (h, g) late =
      post_task-IsLate r (with_reply (user task) t.current_default (user reply)) s
        (task, reply, refl, refl, h, g) late
  step-IsLate (begins k) s h late = start_next-IsLate k s late
  step-IsLate (runs k) s h late = run_next-IsLate k s late
  step-IsLate (shuts_down r) s h late = late
  step-IsLate (ticks k) s h late = late

  run-IsLate :
      (es : List Event) (s : Runners) → All (IsPaired n m) es → IsLate 0 s → IsLate 0 (run es s)
  run-IsLate [] s h late = late
  run-IsLate (e ∷ es) s h late = run-IsLate es (step e s) h.1 (step-IsLate e s h.0 late)

-- A reply never runs before its task, also where the steps of the closures that run come one
-- between another: in any history from runners on which nothing waits, runs or has run, in which
-- the closure `m` is posted only as the reply to the task `n`, `m` has run at most as often as `n`.
pub run-reply_after_task :
    (n m : ℕ) (es : List Event) (s : Runners)
    → All (IsPaired n m) es
    → s.waiting ≡ []
    → s.running ≡ []
    → s.ran ≡ []
    → ran_of m (run es s) ≤ ran_of n (run es s)
run-reply_after_task n m es s h none_waits none_runs none_ran =
    let (le, _, _) =
      run-IsLate n m es s h (rw (none_waits, none_runs, none_ran) (omega arith, tt, tt)) in
    omega (arith, le)
