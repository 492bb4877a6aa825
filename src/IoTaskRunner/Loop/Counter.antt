-- ===== src/IoTaskRunner/Loop/Counter.antt =====
-- The counter of registrations (`generation_counter` of rust_io/io_task_runner.rs) over a step.
use rust_task_runner.Common.{
  ℕ, ◌+◌, ◌≤◌, ◌≡◌, refl, ◌∙◌, ap, Bool, true, false, List, [], ◌∷◌, Option, none, some, u64, arith,
}
use rust_task_runner.Task.{Callback}
use rust_task_runner.IoTaskRunner.{
  Kernel, IoTaskRunner, WatchEntry, WatchMode, FdWatchController, DelayedTask, unregister_entry,
  add_watch, unregister_fd, stop_watching_file_descriptor, watch_file_descriptor, post_task,
  post_delayed_task, shut_down,
}
use rust_task_runner.IoTaskRunner.Loop.{
  Io, Event, runs, polls, posts, posts_delayed, watches, stops, shuts_down, Phase, draining,
  delaying, testing, timing, polling, dispatching, stopped, PollResult, ready, interrupted, broken,
  ReadyEvent, step, advance, poll, drain, run_delayed, dispatch, on_ready, watch,
}

unregister_entry-counter :
    {kernel : Kernel} (o : Option WatchEntry) (fd g : ℕ) (r : IoTaskRunner kernel)
    → (unregister_entry o fd g r).1.generation_counter ≡ r.generation_counter
unregister_entry-counter none fd g r = refl
unregister_entry-counter (some e) fd g r = ground arith

pub stop-counter :
    {kernel : Kernel} (c : FdWatchController) (r : IoTaskRunner kernel)
    → (stop_watching_file_descriptor c r).2.generation_counter ≡ r.generation_counter
unfolding stop_watching_file_descriptor unregister_fd
stop-counter c r = ground (arith, unregister_entry-counter (r.watches c.fd) c.fd c.generation r)

add_watch-counter :
    {kernel : Kernel} (b : Bool) (fd : ℕ) (e : WatchEntry) (c : FdWatchController)
    (r : IoTaskRunner kernel)
    → (add_watch b fd e c r).2.generation_counter ≡ r.generation_counter
add_watch-counter true fd e c r = refl
add_watch-counter false fd e c r = refl

pub watch-counter :
    {kernel : Kernel} (fd : ℕ) (p : Bool) (mode : WatchMode) (c : FdWatchController) (watcher : ℕ)
    (r : IoTaskRunner kernel)
    → (watch_file_descriptor fd p mode c watcher r).2.generation_counter
      ≡ u64 (r.generation_counter + 1)
unfolding watch_file_descriptor
watch-counter fd p mode c watcher r =
    add_watch-counter _ _ _ _ _ ∙ ap (λ n. u64 (n + 1)) (stop-counter c r)

drain-counter :
    {kernel : Kernel} (ts : List Callback) (io : Io kernel)
    → (drain ts io).runner.generation_counter ≡ io.runner.generation_counter
unfolding drain
drain-counter [] io = refl
drain-counter (t ∷ ts) io = refl

run_delayed-counter :
    {kernel : Kernel} (now : ℕ) (ds : List DelayedTask) (io : Io kernel)
    → (run_delayed now ds io).runner.generation_counter ≡ io.runner.generation_counter
unfolding run_delayed
run_delayed-counter now [] io = refl
run_delayed-counter now (d ∷ ds) io = ground arith

on_ready-counter :
    {kernel : Kernel} (ev : ReadyEvent) (o : Option WatchEntry) (io : Io kernel)
    → (on_ready ev o io).runner.generation_counter ≡ io.runner.generation_counter
unfolding on_ready
on_ready-counter ev none io = refl
on_ready-counter ev (some e) io = ground arith

pub advance-counter :
    {kernel : Kernel} (now : ℕ) (p : Phase) (io : Io kernel)
    → (advance now p io).runner.generation_counter ≡ io.runner.generation_counter
unfolding advance dispatch
advance-counter now draining io = drain-counter io.runner.tasks io
advance-counter now delaying io = run_delayed-counter now io.runner.delayed_tasks io
advance-counter now testing io = refl
advance-counter now timing io = refl
advance-counter now polling io = refl
advance-counter now (dispatching []) io = refl
advance-counter now (dispatching (ev ∷ rest)) io =
    ground (
      arith,
      on_ready-counter ev (io.runner.watches ev.fd) (record io { phase = dispatching rest }),
    )
advance-counter now stopped io = refl

pub poll-counter :
    {kernel : Kernel} (p : Phase) (r : PollResult) (io : Io kernel)
    → (poll p r io).runner ≡ io.runner
unfolding poll
poll-counter polling (ready evs) io = refl
poll-counter polling interrupted io = refl
poll-counter polling broken io = refl
poll-counter draining r io = refl
poll-counter delaying r io = refl
poll-counter testing r io = refl
poll-counter timing r io = refl
poll-counter (dispatching evs) r io = refl
poll-counter stopped r io = refl

pub step-counter :
    {kernel : Kernel} (e : Event) (io : Io kernel)
    → (step e io).runner.generation_counter ≤ io.runner.generation_counter + 1
unfolding step watch post_task post_delayed_task shut_down
step-counter (runs now) io = omega (arith, advance-counter now io.phase io)
step-counter (polls r) io =
    rw (ap (λ (x : IoTaskRunner _). x.generation_counter) (poll-counter io.phase r io))
      (omega arith)
step-counter (posts now callback) io = ground arith
step-counter (posts_delayed now callback delay) io = ground arith
step-counter (watches c fd persistent mode watcher) io =
    omega (arith, watch-counter fd persistent mode (io.controllers c) watcher io.runner)
step-counter (stops c) io = omega (arith, stop-counter (io.controllers c) io.runner)
step-counter shuts_down io = omega arith
