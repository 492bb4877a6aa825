-- ===== src/IoTaskRunner/Loop/Once.antt =====
-- How often a watch of rust_io/io_task_runner.rs fires, over histories of the IO thread.
use rust_task_runner.Common.{
  ℕ, ◌+◌, ◌≤◌, ◌<◌, ◌^◌, ◌≡◌, refl, Bool, true, false, List, [], ◌∷◌, ◌++◌, Option, none, some,
  if◌then◌else◌, ◌==◌, leb, total, length, arith, Bool-cases, inl, inr,
}
use rust_task_runner.Task.{Callback}
use rust_task_runner.IoTaskRunner.{
  Kernel, IoTaskRunner, WatchEntry, WatchMode, FdWatchController, DelayedTask, unregister_entry,
  add_watch, unregister_fd, stop_watching_file_descriptor, watch_file_descriptor, post_task,
  post_delayed_task, shut_down, remove_watch,
}
use rust_task_runner.IoTaskRunner.Loop.{
  Io, Firing, Event, runs, polls, posts, posts_delayed, watches, stops, shuts_down, Phase, draining,
  delaying, testing, timing, polling, dispatching, stopped, PollResult, ready, interrupted, broken,
  ReadyEvent, firing, step, run, init, advance, poll, drain, run_delayed, dispatch, on_ready, watch,
}
use rust_task_runner.IoTaskRunner.Loop.Counter.{stop-counter, step-counter}
use rust_task_runner.IoTaskRunner.Loop.Watches.{
  IsOnce, shot, remove-IsOnce, bump-IsOnce, insert-IsOnce, fire_again-IsOnce, fire_last-IsOnce,
}

-- The table and the counter of a runner agree with what has fired.
abbrev pub Agrees : {kernel : Kernel} → IoTaskRunner kernel → List Firing → Type 0
Agrees r fired = IsOnce r.watches r.generation_counter fired

unregister_entry-Agrees :
    {kernel : Kernel} (o : Option WatchEntry) (fd g : ℕ) (r : IoTaskRunner kernel)
    (fired : List Firing)
    → Agrees r fired
    → Agrees (unregister_entry o fd g r).1 fired
unregister_entry-Agrees none fd g r fired a = a
unregister_entry-Agrees (some e) fd g r fired a = elim (Bool-cases (e.generation == g)) [
  | inl own ↦ rw own (remove-IsOnce r.watches r.generation_counter fired fd a)
  | inr other ↦ rw other a
]

stop-Agrees :
    {kernel : Kernel} (c : FdWatchController) (r : IoTaskRunner kernel) (fired : List Firing)
    → Agrees r fired
    → Agrees (stop_watching_file_descriptor c r).2 fired
unfolding stop_watching_file_descriptor unregister_fd
stop-Agrees c r fired a = elim (Bool-cases c.runner) [
  | inl has ↦ rw has (unregister_entry-Agrees (r.watches c.fd) c.fd c.generation r fired a)
  | inr idle ↦ rw idle a
]

add_watch-Agrees :
    {kernel : Kernel} (b : Bool) (fd n : ℕ) (e : WatchEntry) (c : FdWatchController)
    (r : IoTaskRunner kernel) (fired : List Firing)
    → e.generation ≡ n
    → r.generation_counter ≡ n + 1
    → IsOnce r.watches n fired
    → Agrees (add_watch b fd e c r).2 fired
add_watch-Agrees false fd n e c r fired g m a = rw m (bump-IsOnce r.watches n fired a)
add_watch-Agrees true fd n e c r fired g m a = rw m (insert-IsOnce r.watches n fired fd e g a)

watch-Agrees :
    {kernel : Kernel} (fd : ℕ) (p : Bool) (mode : WatchMode) (c : FdWatchController) (watcher : ℕ)
    (r : IoTaskRunner kernel) (fired : List Firing)
    → r.generation_counter + 1 < 2 ^ 64
    → Agrees r fired
    → Agrees (watch_file_descriptor fd p mode c watcher r).2 fired
unfolding watch_file_descriptor
watch-Agrees fd p mode c watcher r fired small a =
    add_watch-Agrees _ fd _ _ _ _ fired refl (omega (arith, stop-counter c r))
      (stop-Agrees c r fired a)

after_fire-Agrees :
    {kernel : Kernel} (alive persistent : Bool) (r : IoTaskRunner kernel) (fd : ℕ) (f : Firing)
    (fired : List Firing)
    → r.watches fd ≡ some f.entry
    → f.entry.persistent ≡ persistent
    → Agrees r fired
    → Agrees
        (if persistent then r else remove_watch fd r)
        (if alive then fired ++ f ∷ [] else fired)
after_fire-Agrees true true r fd f fired h p a =
    fire_again-IsOnce r.watches r.generation_counter fired f p a
after_fire-Agrees true false r fd f fired h p a =
    fire_last-IsOnce r.watches r.generation_counter fired fd f h p a
after_fire-Agrees false true r fd f fired h p a = a
after_fire-Agrees false false r fd f fired h p a =
    remove-IsOnce r.watches r.generation_counter fired fd a

on_ready-Agrees :
    {kernel : Kernel} (ev : ReadyEvent) (o : Option WatchEntry) (io : Io kernel)
    → io.runner.watches ev.fd ≡ o
    → Agrees io.runner io.fired
    → Agrees (on_ready ev o io).runner (on_ready ev o io).fired
unfolding on_ready
on_ready-Agrees ev none io h a = a
on_ready-Agrees ev (some e) io h a =
    after_fire-Agrees ev.alive e.persistent io.runner ev.fd (firing ev e) io.fired h refl a

dispatch-Agrees :
    {kernel : Kernel} (ev : ReadyEvent) (io : Io kernel)
    → Agrees io.runner io.fired
    → Agrees (dispatch ev io).runner (dispatch ev io).fired
unfolding dispatch
dispatch-Agrees ev io a = elim (Bool-cases (ev.fd == io.runner.wake_fd)) [
  | inl waking ↦ rw waking a
  | inr other ↦ rw other (on_ready-Agrees ev (io.runner.watches ev.fd) io refl a)
]

drain-Agrees :
    {kernel : Kernel} (ts : List Callback) (io : Io kernel)
    → Agrees io.runner io.fired
    → Agrees (drain ts io).runner (drain ts io).fired
unfolding drain
drain-Agrees [] io a = a
drain-Agrees (t ∷ ts) io a = a

run_delayed-Agrees :
    {kernel : Kernel} (now : ℕ) (ds : List DelayedTask) (io : Io kernel)
    → Agrees io.runner io.fired
    → Agrees (run_delayed now ds io).runner (run_delayed now ds io).fired
unfolding run_delayed
run_delayed-Agrees now [] io a = a
run_delayed-Agrees now (d ∷ ds) io a = elim (Bool-cases (leb d.deadline now)) [
  | inl due ↦ rw due a
  | inr later ↦ rw later a
]

advance-Agrees :
    {kernel : Kernel} (now : ℕ) (p : Phase) (io : Io kernel)
    → Agrees io.runner io.fired
    → Agrees (advance now p io).runner (advance now p io).fired
unfolding advance
advance-Agrees now draining io a = drain-Agrees io.runner.tasks io a
advance-Agrees now delaying io a = run_delayed-Agrees now io.runner.delayed_tasks io a
advance-Agrees now testing io a = a
advance-Agrees now timing io a = a
advance-Agrees now polling io a = a
advance-Agrees now (dispatching []) io a = a
advance-Agrees now (dispatching (ev ∷ rest)) io a = dispatch-Agrees ev _ a
advance-Agrees now stopped io a = a

poll-Agrees :
    {kernel : Kernel} (p : Phase) (r : PollResult) (io : Io kernel)
    → Agrees io.runner io.fired
    → Agrees (poll p r io).runner (poll p r io).fired
unfolding poll
poll-Agrees polling (ready evs) io a = a
poll-Agrees polling interrupted io a = a
poll-Agrees polling broken io a = a
poll-Agrees draining r io a = a
poll-Agrees delaying r io a = a
poll-Agrees testing r io a = a
poll-Agrees timing r io a = a
poll-Agrees (dispatching evs) r io a = a
poll-Agrees stopped r io a = a

step-Agrees :
    {kernel : Kernel} (e : Event) (io : Io kernel)
    → io.runner.generation_counter + 1 < 2 ^ 64
    → Agrees io.runner io.fired
    → Agrees (step e io).runner (step e io).fired
unfolding step watch post_task post_delayed_task shut_down
step-Agrees (runs now) io small a = advance-Agrees now io.phase io a
step-Agrees (polls r) io small a = poll-Agrees io.phase r io a
step-Agrees (posts now callback) io small a = elim (Bool-cases io.runner.shutdown) [
  | inl closed ↦ rw closed a
  | inr still ↦ rw still a
]
step-Agrees (posts_delayed now callback delay) io small a = elim (Bool-cases io.runner.shutdown) [
  | inl closed ↦ rw closed a
  | inr still ↦ rw still a
]
step-Agrees (watches c fd persistent mode watcher) io small a =
    watch-Agrees fd persistent mode (io.controllers c) watcher io.runner io.fired small a
step-Agrees (stops c) io small a = stop-Agrees (io.controllers c) io.runner io.fired a
step-Agrees shuts_down io small a = a

run-Agrees :
    {kernel : Kernel} (es : List Event) (io : Io kernel)
    → io.runner.generation_counter + length es < 2 ^ 64
    → Agrees io.runner io.fired
    → Agrees (run es io).runner (run es io).fired
unfolding run
run-Agrees [] io small a = a
run-Agrees (e ∷ es) io small a =
    run-Agrees es (step e io) (omega (arith, step-counter e io)) (step-Agrees e io (omega arith) a)

-- However watches are added, replaced and stopped, and whatever events the kernel reports, a watch
-- that is not persistent fires at most once, in a history of fewer than 2^64 steps of a new
-- runner; `g` is the number of its registration.
pub watch-fires_once :
    (kernel : Kernel) (wake_fd token : ℕ) (monitored : Bool) (epoll : kernel.State)
    (es : List Event) (g : ℕ)
    → length es < 2 ^ 64
    → total (shot g) (run es (init {kernel = kernel} wake_fd token monitored epoll)).fired ≤ 1
unfolding init
watch-fires_once kernel wake_fd token monitored epoll es g small =
    (run-Agrees es (init {kernel = kernel} wake_fd token monitored epoll) (omega arith) start).once
      g
  where
    start : IsOnce (λ fd. none) 0 []
    start = record {
      small = λ fd e h. absurd (cc h);
      unique = λ fd fd' e e' h k s. absurd (cc h);
      unfired = λ fd e h p. refl;
      past = λ g h. refl;
      once = λ g. omega arith;
    }
