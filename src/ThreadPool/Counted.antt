-- ===== src/ThreadPool/Counted.antt =====
-- The count of the tracker against the tasks that block the shutdown.
use rust_task_runner.Common.{
  ℕ, ◌+◌, ◌^◌, ◌≤◌, ◌<◌, ◌≡◌, ◌≢◌, refl, Bool, true, List, [], ◌∷◌, Option, none, some, All,
  All-append, All-set, length, total, total-append, total-set, total-le-length, get_elem?, set,
  arith,
}
use rust_task_runner.Task.{TaskTraits}
use rust_task_runner.TaskTracker.{
  is_skip, is_block, will_post_task, after_run_task, is_shutdown_started, begin_shutdown, must_wait,
}
use rust_task_runner.ThreadPool.{
  Stage, queued, running, finished, skipped, PostedTask, Caller, outside, deciding, sleeping,
  returned, Pool, new, post_task, start_stage, start_task, end_task, on_task, call_shutdown, Event,
  posts, starts, ends, shuts_down, wakes, step, run,
}
use rust_task_runner.ThreadPool.Length.{step-length}

-- 1 for an accepted task that blocks the shutdown and has not finished.
abbrev pub weight : Stage → Bool → ℕ
weight queued true = 1
weight running true = 1
weight _ _ = 0

abbrev pub blocks : PostedTask → ℕ
blocks x = weight x.stage (is_block x.traits.shutdown_behavior)

weight-le : (st : Stage) (b : Bool) → weight st b ≤ 1
weight-le queued true = omega arith
weight-le running true = omega arith
weight-le _ _ = omega arith

-- The count of the tracker is that of the accepted tasks that block the shutdown and have not
-- finished; nobody sleeps without such a task, and nobody has returned with one.
pub record IsCounted (p : Pool) : Type 0 where
  pub counted : p.task_tracker.num_tasks_blocking_shutdown ≡ total blocks p.tasks
  pub asleep : p.caller ≡ sleeping → 0 < total blocks p.tasks
  pub started : p.caller ≢ outside → p.task_tracker.shutdown_started ≡ true
  pub ended : p.caller ≡ returned → total blocks p.tasks ≡ 0
  pub dropped : All (λ x. x.stage ≡ skipped → is_skip x.traits.shutdown_behavior ≡ true) p.tasks

abbrev pub OnlySkips : PostedTask → Type 0
OnlySkips x = x.stage ≡ skipped → is_skip x.traits.shutdown_behavior ≡ true

fits : (xs : List PostedTask) → total blocks xs ≤ length xs
fits xs = total-le-length blocks xs (λ x. weight-le x.stage (is_block x.traits.shutdown_behavior))

post_task-IsCounted :
    (traits : TaskTraits) (p : Pool)
    → length p.tasks + 1 < 2 ^ 64
    → IsCounted p
    → IsCounted (post_task traits p).1
unfolding post_task will_post_task
post_task-IsCounted traits p small c = record {
  counted = ground (arith, fits p.tasks, total-append blocks p.tasks (new_task ∷ []));
  asleep = ground (arith, total-append blocks p.tasks (new_task ∷ []));
  started = ground (arith, c.started);
  ended = ground (arith, total-append blocks p.tasks (new_task ∷ []));
  dropped = ground (arith, All-append OnlySkips p.tasks (new_task ∷ []) c.dropped);
}
  where
    new_task : PostedTask
    new_task = record { traits = traits; stage = queued }

start_task-IsCounted :
    (k : ℕ) (traits : TaskTraits) (p : Pool)
    → get_elem? p.tasks k ≡ some (record { traits = traits; stage = queued })
    → IsCounted p
    → IsCounted (start_task k traits queued p)
unfolding start_task is_shutdown_started
start_task-IsCounted k traits p at_k c = record {
  counted = ground (arith, same);
  asleep = ground (arith, same);
  started = c.started;
  ended = ground (arith, same);
  dropped = All-set OnlySkips p.tasks k _ (ground arith) c.dropped;
}
  where
    next : PostedTask
    next = record { traits = traits; stage = start_stage p.task_tracker traits }

    same : total blocks (set p.tasks k next) ≡ total blocks p.tasks
    same =
        ground
          (arith, total-set blocks p.tasks k (record { traits = traits; stage = queued }) next at_k)

end_task-IsCounted :
    (k : ℕ) (traits : TaskTraits) (p : Pool)
    → get_elem? p.tasks k ≡ some (record { traits = traits; stage = running })
    → length p.tasks < 2 ^ 64
    → IsCounted p
    → IsCounted (end_task k traits running p)
unfolding end_task after_run_task
end_task-IsCounted k traits p at_k small c = record {
  counted = ground (arith, less, fits p.tasks);
  asleep = ground (arith, less, fits p.tasks);
  started = ground (arith, c.started);
  ended = ground (arith, less, fits p.tasks);
  dropped = All-set OnlySkips p.tasks k _ (λ e. cc) c.dropped;
}
  where
    before : PostedTask
    before = record { traits = traits; stage = running }

    after : PostedTask
    after = record { traits = traits; stage = finished }

    less : total blocks (set p.tasks k after) + blocks before ≡ total blocks p.tasks + blocks after
    less = total-set blocks p.tasks k before after at_k

call_shutdown-IsCounted :
    (w : Caller) (p : Pool) → p.caller ≡ w → IsCounted p → IsCounted (call_shutdown w p)
unfolding call_shutdown begin_shutdown must_wait
call_shutdown-IsCounted outside p e c = record {
  counted = c.counted;
  asleep = ground arith;
  started = ground arith;
  ended = ground (arith, c.counted);
  dropped = c.dropped;
}
call_shutdown-IsCounted deciding p e c = record {
  counted = c.counted;
  asleep = ground (arith, c.counted);
  started = ground (arith, c.started);
  ended = ground (arith, c.counted);
  dropped = c.dropped;
}
call_shutdown-IsCounted sleeping p e c = c
call_shutdown-IsCounted returned p e c = c

start_stage-IsCounted :
    (k : ℕ) (traits : TaskTraits) (stage : Stage) (p : Pool)
    → get_elem? p.tasks k ≡ some (record { traits = traits; stage = stage })
    → IsCounted p
    → IsCounted (start_task k traits stage p)
unfolding start_task
start_stage-IsCounted k traits queued p e c = start_task-IsCounted k traits p e c
start_stage-IsCounted k traits _ p e c = c

end_stage-IsCounted :
    (k : ℕ) (traits : TaskTraits) (stage : Stage) (p : Pool)
    → get_elem? p.tasks k ≡ some (record { traits = traits; stage = stage })
    → length p.tasks < 2 ^ 64
    → IsCounted p
    → IsCounted (end_task k traits stage p)
unfolding end_task
end_stage-IsCounted k traits running p e small c = end_task-IsCounted k traits p e small c
end_stage-IsCounted k traits _ p e small c = c

starts-IsCounted :
    (k : ℕ) (o : Option PostedTask) (p : Pool)
    → get_elem? p.tasks k ≡ o
    → IsCounted p
    → IsCounted (on_task start_task k o p)
unfolding on_task
starts-IsCounted k none p e c = c
starts-IsCounted k (some x) p e c = start_stage-IsCounted k x.traits x.stage p e c

ends-IsCounted :
    (k : ℕ) (o : Option PostedTask) (p : Pool)
    → get_elem? p.tasks k ≡ o
    → length p.tasks < 2 ^ 64
    → IsCounted p
    → IsCounted (on_task end_task k o p)
unfolding on_task
ends-IsCounted k none p e small c = c
ends-IsCounted k (some x) p e small c = end_stage-IsCounted k x.traits x.stage p e small c

step-IsCounted :
    (e : Event) (p : Pool) → length p.tasks + 1 < 2 ^ 64 → IsCounted p → IsCounted (step e p)
unfolding step
step-IsCounted (posts traits) p small c = post_task-IsCounted traits p small c
step-IsCounted (starts k) p small c = starts-IsCounted k (get_elem? p.tasks k) p refl c
step-IsCounted (ends k) p small c = ends-IsCounted k (get_elem? p.tasks k) p refl (omega arith) c
step-IsCounted shuts_down p small c = call_shutdown-IsCounted p.caller p refl c
step-IsCounted wakes p small c = record {
  counted = c.counted;
  asleep = ground arith;
  started = ground (arith, c.started);
  ended = ground (arith, c.ended);
  dropped = c.dropped;
}

-- From a pool where they agree, the count of the tracker, the tasks that block the shutdown and
-- have not finished, and where the caller of `shutdown` is go on to agree in every history, while
-- the tasks and the steps are fewer than 2^64 - 1 together.
pub run-IsCounted :
    (es : List Event) (p : Pool)
    → length p.tasks + length es + 1 < 2 ^ 64
    → IsCounted p
    → IsCounted (run es p)
unfolding run
run-IsCounted [] p small c = c
run-IsCounted (e ∷ es) p small c =
    run-IsCounted es (step e p) (omega (arith, step-length e p))
      (step-IsCounted e p (omega arith) c)

pub new-IsCounted : IsCounted new
new-IsCounted = record {
  counted = refl;
  asleep = λ e. cc;
  started = λ h. absurd (h refl);
  ended = λ e. refl;
  dropped = tt;
}
