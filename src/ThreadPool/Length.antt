-- ===== src/ThreadPool/Length.antt =====
-- The number of accepted tasks over a step of rust_task/thread_pool/thread_pool.rs.
use rust_task_runner.Common.{
  ℕ, ◌+◌, ◌≤◌, ◌≡◌, refl, ap, [], ◌∷◌, Option, none, some, length, length-append, length-set,
  get_elem?, arith,
}
use rust_task_runner.Task.{TaskTraits}
use rust_task_runner.ThreadPool.{
  Stage, queued, running, PostedTask, Caller, outside, Pool, post_task, start_task, end_task,
  on_task, call_shutdown, Event, posts, starts, ends, shuts_down, wakes, step,
}

on_start-length :
    (k : ℕ) (traits : TaskTraits) (stage : Stage) (p : Pool)
    → length (start_task k traits stage p).tasks ≡ length p.tasks
unfolding start_task
on_start-length k traits queued p = length-set p.tasks k _
on_start-length k traits _ p = refl

on_end-length :
    (k : ℕ) (traits : TaskTraits) (stage : Stage) (p : Pool)
    → length (end_task k traits stage p).tasks ≡ length p.tasks
unfolding end_task
on_end-length k traits running p = length-set p.tasks k _
on_end-length k traits _ p = refl

on_task-length :
    (f : ℕ → TaskTraits → Stage → Pool → Pool) (k : ℕ) (o : Option PostedTask) (p : Pool)
    → ((traits : TaskTraits) (stage : Stage) → length (f k traits stage p).tasks ≡ length p.tasks)
    → length (on_task f k o p).tasks ≡ length p.tasks
unfolding on_task
on_task-length f k none p h = refl
on_task-length f k (some x) p h = h x.traits x.stage

pub call_shutdown-tasks : (w : Caller) (p : Pool) → (call_shutdown w p).tasks ≡ p.tasks
unfolding call_shutdown
call_shutdown-tasks outside p = refl
call_shutdown-tasks _ p = refl

-- Only a post makes the list of tasks longer, by one.
pub step-length : (e : Event) (p : Pool) → length (step e p).tasks ≤ length p.tasks + 1
unfolding step post_task
step-length (posts traits) p =
    ground (arith, length-append {0} p.tasks (record { traits = traits; stage = queued } ∷ []))
step-length (starts k) p =
    omega (
      arith,
      on_task-length start_task k (get_elem? p.tasks k) p (λ t st. on_start-length k t st p),
    )
step-length (ends k) p =
    omega
      (arith, on_task-length end_task k (get_elem? p.tasks k) p (λ t st. on_end-length k t st p))
step-length shuts_down p = omega (arith, ap length (call_shutdown-tasks p.caller p))
step-length wakes p = omega arith
