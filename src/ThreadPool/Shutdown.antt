-- ===== src/ThreadPool/Shutdown.antt =====
-- What `shutdown` waits for.
use rust_task_runner.Common.{◌+◌, ◌^◌, ◌<◌, ◌≡◌, true, List, [], ◌∷◌, All, length, total, arith}
use rust_task_runner.TaskTracker.{is_block}
use rust_task_runner.ThreadPool.{finished, PostedTask, sleeping, returned, new, Event, run}
use rust_task_runner.ThreadPool.Counted.{blocks, OnlySkips, run-IsCounted, new-IsCounted}

tasks_finished :
    (xs : List PostedTask)
    → total blocks xs ≡ 0
    → All OnlySkips xs
    → All (λ x. is_block x.traits.shutdown_behavior ≡ true → x.stage ≡ finished) xs
tasks_finished [] h d = tt
tasks_finished (x ∷ xs) h d = (λ b. ground (arith, d.0), tasks_finished xs (omega arith) d.1)

-- When `shutdown` has returned, every accepted task that blocks the shutdown has run to its end,
-- whatever was posted, started and finished meanwhile and however often the wait ended early, in
-- a history of fewer than 2^64 - 1 steps of a new pool.
pub shutdown-waits :
    (es : List Event)
    → length es + 1 < 2 ^ 64
    → (run es new).caller ≡ returned
    → All (λ x. is_block x.traits.shutdown_behavior ≡ true → x.stage ≡ finished) (run es new).tasks
shutdown-waits es small r =
    let c = run-IsCounted es new (omega arith) new-IsCounted in
    tasks_finished (run es new).tasks (c.ended r) c.dropped

-- No wake-up is lost: while the caller of `shutdown` sleeps on the condition variable, some
-- accepted task that blocks the shutdown has not finished, in a history of fewer than 2^64 - 1
-- steps of a new pool.
pub shutdown-sleeps :
    (es : List Event)
    → length es + 1 < 2 ^ 64
    → (run es new).caller ≡ sleeping
    → 0 < total blocks (run es new).tasks
shutdown-sleeps es small r = (run-IsCounted es new (omega arith) new-IsCounted).asleep r
