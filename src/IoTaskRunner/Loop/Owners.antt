-- ===== src/IoTaskRunner/Loop/Owners.antt =====
-- Which controller of rust_io/io_task_runner.rs owns which registration.
use rust_task_runner.Common.{
  ℕ, ◌+◌, ◌≤◌, ◌<◌, ◌^◌, ◌≡◌, refl, sym, subst, ap, ◌∙◌, Bool, true, false, List, [], ◌∷◌, Option,
  none, some, update, ℕ_discrete, arith,
}
use rust_task_runner.Task.{Callback}
use rust_task_runner.IoTaskRunner.{
  Kernel, IoTaskRunner, WatchEntry, WatchMode, FdWatchController, DelayedTask, add_watch,
  stop_watching_file_descriptor, watch_file_descriptor, post_task, post_delayed_task, shut_down,
}
use rust_task_runner.IoTaskRunner.Loop.{
  Io, Event, runs, polls, posts, posts_delayed, watches, stops, shuts_down, Phase, draining,
  delaying, testing, timing, polling, dispatching, stopped, PollResult, ready, interrupted, broken,
  ReadyEvent, step, advance, poll, drain, run_delayed, dispatch, on_ready, watch,
}
use rust_task_runner.IoTaskRunner.Loop.Counter.{
  stop-counter, watch-counter, advance-counter, poll-counter,
}

-- The controllers that watch have numbers of their own that the counter has given out.
pub record IsOwned (controllers : ℕ → FdWatchController) (n : ℕ) : Type 0 where
  pub small : (c : ℕ) → (controllers c).runner ≡ true → (controllers c).generation < n
  pub unique :
      (c d : ℕ)
      → (controllers c).runner ≡ true
      → (controllers d).runner ≡ true
      → (controllers c).generation ≡ (controllers d).generation
      → c ≡ d

idle-IsOwned :
    (cs : ℕ → FdWatchController) (n m c : ℕ) (x : FdWatchController)
    → x.runner ≡ false
    → n ≤ m
    → IsOwned cs n
    → IsOwned (update cs c x) m
idle-IsOwned cs n m c x idle le o = record {
  small = λ d r. elim (ℕ_discrete c d) [
    | yes same ↦ ground arith
    | no apart ↦ ground (arith, o.small d)
  ];
  unique = λ d e r q s. elim (ℕ_discrete c d) [
    | yes same ↦ absurd (ground arith)
    | no apart ↦ elim (ℕ_discrete c e) [
      | yes same ↦ absurd (ground arith)
      | no apart' ↦ o.unique d e (ground arith) (ground arith) (ground arith)
    ]
  ];
}

new-IsOwned :
    (cs : ℕ → FdWatchController) (n c : ℕ) (x : FdWatchController)
    → x.generation ≡ n
    → IsOwned cs n
    → IsOwned (update cs c x) (n + 1)
new-IsOwned cs n c x g o = record {
  small = λ d r. elim (ℕ_discrete c d) [
    | yes same ↦ ground arith
    | no apart ↦ ground (arith, o.small d)
  ];
  unique = λ d e r q s. elim (ℕ_discrete c d) [
    | yes same ↦ elim (ℕ_discrete c e) [
      | yes same' ↦ sym same ∙ same'
      | no apart' ↦ ground (arith, o.small e)
    ]
    | no apart ↦ elim (ℕ_discrete c e) [
      | yes same' ↦ ground (arith, o.small d)
      | no apart' ↦ o.unique d e (ground arith) (ground arith) (ground arith)
    ]
  ];
}

stop-idle :
    {kernel : Kernel} (c : FdWatchController) (r : IoTaskRunner kernel)
    → (stop_watching_file_descriptor c r).1.runner ≡ false
unfolding stop_watching_file_descriptor
stop-idle c r = ground arith

add_watch-IsOwned :
    {kernel : Kernel} (b : Bool) (fd n k : ℕ) (e : WatchEntry) (c : FdWatchController)
    (r : IoTaskRunner kernel) (cs : ℕ → FdWatchController)
    → e.generation ≡ n
    → c.runner ≡ false
    → IsOwned cs n
    → IsOwned (update cs k (add_watch b fd e c r).1) (n + 1)
add_watch-IsOwned false fd n k e c r cs g idle o =
    idle-IsOwned cs n (n + 1) k c idle (omega arith) o
add_watch-IsOwned true fd n k e c r cs g idle o = new-IsOwned cs n k _ g o

watch-IsOwned :
    {kernel : Kernel} (fd : ℕ) (p : Bool) (mode : WatchMode) (k watcher : ℕ)
    (r : IoTaskRunner kernel) (cs : ℕ → FdWatchController)
    → IsOwned cs r.generation_counter
    → IsOwned
        (update cs k (watch_file_descriptor fd p mode (cs k) watcher r).1)
        (r.generation_counter + 1)
unfolding watch_file_descriptor
watch-IsOwned fd p mode k watcher r cs o =
    add_watch-IsOwned _ fd r.generation_counter k _ _ _ cs (stop-counter (cs k) r)
      (stop-idle (cs k) r) o

drain-controllers :
    {kernel : Kernel} (ts : List Callback) (io : Io kernel)
    → (drain ts io).controllers ≡ io.controllers
unfolding drain
drain-controllers [] io = refl
drain-controllers (t ∷ ts) io = refl

run_delayed-controllers :
    {kernel : Kernel} (now : ℕ) (ds : List DelayedTask) (io : Io kernel)
    → (run_delayed now ds io).controllers ≡ io.controllers
unfolding run_delayed
run_delayed-controllers now [] io = refl
run_delayed-controllers now (d ∷ ds) io = ground arith

on_ready-controllers :
    {kernel : Kernel} (ev : ReadyEvent) (o : Option WatchEntry) (io : Io kernel)
    → (on_ready ev o io).controllers ≡ io.controllers
unfolding on_ready
on_ready-controllers ev none io = refl
on_ready-controllers ev (some e) io = refl

advance-controllers :
    {kernel : Kernel} (now : ℕ) (p : Phase) (io : Io kernel)
    → (advance now p io).controllers ≡ io.controllers
unfolding advance dispatch
advance-controllers now draining io = drain-controllers io.runner.tasks io
advance-controllers now delaying io = run_delayed-controllers now io.runner.delayed_tasks io
advance-controllers now testing io = refl
advance-controllers now timing io = refl
advance-controllers now polling io = refl
advance-controllers now (dispatching []) io = refl
advance-controllers now (dispatching (ev ∷ rest)) io = ground (
  arith,
  on_ready-controllers ev (io.runner.watches ev.fd) (record io { phase = dispatching rest }),
)
advance-controllers now stopped io = refl

poll-controllers :
    {kernel : Kernel} (p : Phase) (r : PollResult) (io : Io kernel)
    → (poll p r io).controllers ≡ io.controllers
unfolding poll
poll-controllers polling (ready evs) io = refl
poll-controllers polling interrupted io = refl
poll-controllers polling broken io = refl
poll-controllers draining r io = refl
poll-controllers delaying r io = refl
poll-controllers testing r io = refl
poll-controllers timing r io = refl
poll-controllers (dispatching evs) r io = refl
poll-controllers stopped r io = refl

-- The controllers and the counter of a state agree.
abbrev pub Owned : {kernel : Kernel} → Io kernel → Type 0
Owned io = IsOwned io.controllers io.runner.generation_counter

-- A step that changes neither.
same-Owned :
    {kernel : Kernel} (io io' : Io kernel)
    → io'.controllers ≡ io.controllers
    → io'.runner.generation_counter ≡ io.runner.generation_counter
    → Owned io
    → Owned io'
same-Owned io io' c g o = rw (c, g) o

pub step-Owned :
    {kernel : Kernel} (e : Event) (io : Io kernel)
    → io.runner.generation_counter + 1 < 2 ^ 64
    → Owned io
    → Owned (step e io)
unfolding step watch post_task post_delayed_task shut_down
step-Owned (runs now) io small o =
    same-Owned io (advance now io.phase io) (advance-controllers now io.phase io)
      (advance-counter now io.phase io) o
step-Owned (polls r) io small o =
    same-Owned io (poll io.phase r io) (poll-controllers io.phase r io)
      (ap (λ (x : IoTaskRunner _). x.generation_counter) (poll-counter io.phase r io)) o
step-Owned (posts now callback) io small o =
    same-Owned io (step (posts now callback) io) refl (ground arith) o
step-Owned (posts_delayed now callback delay) io small o =
    same-Owned io (step (posts_delayed now callback delay) io) refl (ground arith) o
step-Owned (watches c fd persistent mode watcher) io small o =
    subst (λ n. IsOwned (step (watches c fd persistent mode watcher) io).controllers n)
      (omega (arith, watch-counter fd persistent mode (io.controllers c) watcher io.runner))
      (watch-IsOwned fd persistent mode c watcher io.runner io.controllers o)
step-Owned (stops c) io small o =
    idle-IsOwned io.controllers _ _ c _ (stop-idle (io.controllers c) io.runner)
      (omega (arith, stop-counter (io.controllers c) io.runner)) o
step-Owned shuts_down io small o = o
