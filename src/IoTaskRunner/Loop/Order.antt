-- ===== src/IoTaskRunner/Loop/Order.antt =====
-- The order of tasks in the IO thread of rust_io/io_task_runner.rs, and how long it sleeps.
use rust_task_runner.Common.{
  ℕ, ◌+◌, ◌*◌, ◌^◌, ◌≤◌, ◌<◌, ◌≡◌, refl, false, List, [], ◌∷◌, ◌++◌, append-nil, append_assoc,
  Option, none, some, if◌then◌else◌, All, All-map, arith, Bool-cases, inl, inr, max,
}
use rust_task_runner.Task.{Callback}
use rust_task_runner.BinaryHeap.{IsSorted, is_gt}
use rust_task_runner.IoTaskRunner.{
  Kernel, DelayedTask, deadline_order, wrap_task, post_task, post_delayed_task, shut_down,
  timeout_ms, WatchEntry,
}
use rust_task_runner.IoTaskRunner.Loop.{
  Io, Event, runs, polls, posts, posts_delayed, watches, stops, shuts_down, Phase, draining,
  delaying, testing, timing, polling, dispatching, stopped, PollResult, ready, interrupted, broken,
  ReadyEvent, step, run, advance, poll, drain, run_delayed, dispatch, on_ready, watch,
}
use rust_task_runner.IoTaskRunner.Loop.Queues.{stop-tasks, watch-tasks}

behind-later :
    (d : DelayedTask) (now sleep : ℕ) (ds : List DelayedTask)
    → All (λ e. is_gt (deadline_order.cmp e d) ≡ false) ds
    → now + sleep ≤ max now d.deadline
    → All (λ e. now + sleep ≤ max now e.deadline) ds
behind-later d now sleep ds h k = All-map _ _ ds (λ e g. ground arith) h

-- The timeout never goes past a deadline: the loop sleeps for no time when a task is due, and else
-- not beyond the earliest deadline nor longer than `i32::MAX` milliseconds. The queue is in the
-- order of its heap.
pub timeout_ms-bounds :
    (now : ℕ) (ds : List DelayedTask) (ms : ℕ)
    → IsSorted deadline_order ds
    → timeout_ms now ds ≡ some ms
    → (ms < 2 ^ 31) × All (λ d. now + ms * 1000000 ≤ max now d.deadline) ds
unfolding timeout_ms
timeout_ms-bounds now [] ms s h = absurd (cc h)
timeout_ms-bounds now (d ∷ ds) ms s h =
    let first : now + ms * 1000000 ≤ max now d.deadline = ground arith in
    (ground arith, (first, behind-later d now (ms * 1000000) ds s.0 first))

-- The closures that `post_task` takes in a history.
abbrev taken : {kernel : Kernel} → Event → Io kernel → List Callback
taken (posts now callback) io =
    if io.runner.shutdown then [] else wrap_task io.runner.monitored now callback ∷ []
taken _ io = []

abbrev pub accepted : {kernel : Kernel} → List Event → Io kernel → List Callback
accepted [] io = []
accepted (e ∷ es) io = taken e io ++ accepted es (step e io)

-- What has run and what waits.
abbrev pub in_order : {kernel : Kernel} → Io kernel → List Callback
in_order io = io.ran ++ io.runner.tasks

drain-order :
    {kernel : Kernel} (ts : List Callback) (io : Io kernel)
    → io.runner.tasks ≡ ts
    → in_order (drain ts io) ≡ in_order io
unfolding drain
drain-order [] io h = refl
drain-order (t ∷ ts) io h = rw (h, append_assoc) refl

run_delayed-order :
    {kernel : Kernel} (now : ℕ) (ds : List DelayedTask) (io : Io kernel)
    → in_order (run_delayed now ds io) ≡ in_order io
unfolding run_delayed
run_delayed-order now [] io = refl
run_delayed-order now (d ∷ ds) io = ground arith

on_ready-order :
    {kernel : Kernel} (ev : ReadyEvent) (o : Option WatchEntry) (io : Io kernel)
    → in_order (on_ready ev o io) ≡ in_order io
unfolding on_ready
on_ready-order ev none io = refl
on_ready-order ev (some e) io = ground arith

advance-order :
    {kernel : Kernel} (now : ℕ) (p : Phase) (io : Io kernel)
    → in_order (advance now p io) ≡ in_order io
unfolding advance dispatch
advance-order now draining io = drain-order io.runner.tasks io refl
advance-order now delaying io = run_delayed-order now io.runner.delayed_tasks io
advance-order now testing io = refl
advance-order now timing io = refl
advance-order now polling io = refl
advance-order now (dispatching []) io = refl
advance-order now (dispatching (ev ∷ rest)) io =
    ground
      (arith, on_ready-order ev (io.runner.watches ev.fd) (record io { phase = dispatching rest }))
advance-order now stopped io = refl

poll-order :
    {kernel : Kernel} (p : Phase) (r : PollResult) (io : Io kernel)
    → in_order (poll p r io) ≡ in_order io
unfolding poll
poll-order polling (ready evs) io = refl
poll-order polling interrupted io = refl
poll-order polling broken io = refl
poll-order draining r io = refl
poll-order delaying r io = refl
poll-order testing r io = refl
poll-order timing r io = refl
poll-order (dispatching evs) r io = refl
poll-order stopped r io = refl

step-order :
    {kernel : Kernel} (e : Event) (io : Io kernel)
    → in_order (step e io) ≡ in_order io ++ taken e io
unfolding step poll watch post_task post_delayed_task shut_down
step-order (runs now) io = rw append-nil (advance-order now io.phase io)
step-order (polls r) io = rw append-nil (poll-order io.phase r io)
step-order (posts now callback) io = elim (Bool-cases io.runner.shutdown) [
  | inl closed ↦ rw (closed, append-nil) refl
  | inr open_still ↦ rw (open_still, append_assoc) refl
]
step-order (posts_delayed now callback delay) io = rw append-nil (ground arith)
step-order (watches c fd persistent mode watcher) io =
    rw (append-nil, watch-tasks fd persistent mode (io.controllers c) watcher io.runner) refl
step-order (stops c) io = rw (append-nil, stop-tasks (io.controllers c) io.runner) refl
step-order shuts_down io = rw append-nil refl

-- Immediate tasks run in the order in which they were posted: in any history, those that have run
-- and then those that wait are those of the start and then those that `post_task` took, whatever
-- the loop, the other threads and the kernel did between.
pub run-in_order :
    {kernel : Kernel} (es : List Event) (io : Io kernel)
    → (run es io).ran ++ (run es io).runner.tasks ≡ (io.ran ++ io.runner.tasks) ++ accepted es io
unfolding run
run-in_order [] io = rw append-nil refl
run-in_order (e ∷ es) io = rw (run-in_order es (step e io), step-order e io, append_assoc) refl
