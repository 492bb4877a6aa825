-- ===== src/IoTaskRunner/Loop/Awake.antt =====
-- Whether the loop of rust_io/io_task_runner.rs can sleep over a task or a shutdown.
use rust_task_runner.Common.{
  ℕ, ◌<◌, ◌≡◌, refl, sym, subst, Bool, true, false, Bool-cases, List, [], ◌∷◌, Option, none, some,
  ◌⊎◌, inl, inr, ◌==◌, leb, arith,
}
use rust_task_runner.Task.{Callback}
use rust_task_runner.IoTaskRunner.{
  Kernel, IoTaskRunner, DelayedTask, WatchEntry, post_task, post_delayed_task,
}
use rust_task_runner.IoTaskRunner.Loop.{
  Io, Event, runs, polls, posts, posts_delayed, watches, stops, shuts_down, Phase, draining,
  delaying, testing, timing, polling, dispatching, stopped, PollResult, ready, interrupted, broken,
  ReadyEvent, advance, poll, drain, run_delayed, dispatch, on_ready, watch, init, test_shutdown,
}
use rust_task_runner.IoTaskRunner.Loop
use rust_task_runner.IoTaskRunner.Loop.Queues.{queues, stop-queues, watch-queues}
use rust_task_runner.IoTaskRunner.Loop.Wake.{
  Waking, new_waking, WakeEvent, steps, wakes, turn, posted, wake, step, run,
}

-- What the loop knows at a place, unless it is woken.
abbrev Knows : Phase → List DelayedTask → List Callback × List DelayedTask × Bool → Type 0
Knows delaying seen q = q.0 ≡ []
Knows testing seen q = q.0 ≡ []
Knows timing seen q = (q.0 ≡ []) × (q.2 ≡ false)
Knows polling seen q = (q.0 ≡ []) × (q.1 ≡ seen) × (q.2 ≡ false)
Knows _ seen q = Unit

module _ {kernel : Kernel} where
  -- The eventfd can be read, or a thread is about to write to it.
  abbrev pub IsWoken : Waking kernel → Type 0
  IsWoken w = (w.signalled ≡ true) ⊎ (0 < w.wakers)

  abbrev IsAwake : Waking kernel → Type 0
  IsAwake w = IsWoken w ⊎ Knows w.io.phase w.seen (queues w.io.runner)

  test_shutdown-Knows :
      (io : Io kernel) (seen : List DelayedTask)
      → io.runner.tasks ≡ []
      → Knows (test_shutdown io).phase seen (queues (test_shutdown io).runner)
  test_shutdown-Knows io seen h = elim (Bool-cases io.runner.shutdown) [
    | inl x ↦ rw x tt
    | inr x ↦ rw x (h, refl)
  ]

  run_delayed-Knows :
      (now : ℕ) (ds : List DelayedTask) (io : Io kernel) (seen : List DelayedTask)
      → io.phase ≡ delaying
      → io.runner.tasks ≡ []
      → let io' = run_delayed now ds io in Knows io'.phase seen (queues io'.runner)
  unfolding run_delayed
  run_delayed-Knows now [] io seen p h = h
  run_delayed-Knows now (d ∷ ds) io seen p h = elim (Bool-cases (leb d.deadline now)) [
    | inl x ↦ rw (x, p) h
    | inr x ↦ rw x h
  ]

  drain-Knows :
      (ts : List Callback) (io : Io kernel) (seen : List DelayedTask)
      → io.phase ≡ draining
      → io.runner.tasks ≡ ts
      → Knows (drain ts io).phase seen (queues (drain ts io).runner)
  unfolding drain
  drain-Knows [] io seen p h = h
  drain-Knows (t ∷ ts) io seen p h = rw p tt

  on_ready-phase :
      (ev : ReadyEvent) (o : Option WatchEntry) (io : Io kernel)
      → (on_ready ev o io).phase ≡ io.phase
  unfolding on_ready
  on_ready-phase ev none io = refl
  on_ready-phase ev (some e) io = refl

  dispatch-phase : (ev : ReadyEvent) (io : Io kernel) → (dispatch ev io).phase ≡ io.phase
  unfolding dispatch
  dispatch-phase ev io = elim (Bool-cases (ev.fd == io.runner.wake_fd)) [
    | inl x ↦ rw x refl
    | inr x ↦ rw x (on_ready-phase ev (io.runner.watches ev.fd) io)
  ]

  turn-IsAwake :
      (now : ℕ) (p : Phase) (w : Waking kernel)
      → w.io.phase ≡ p
      → IsAwake w
      → IsAwake (turn now p w)
  unfolding turn
  turn-IsAwake now draining w x a = inr (drain-Knows w.io.runner.tasks w.io w.seen x refl)
  turn-IsAwake now delaying w x (inl woken) = inl woken
  turn-IsAwake now delaying w x (inr k) = inr (
      run_delayed-Knows now w.io.runner.delayed_tasks w.io w.seen x
        (subst (λ p. Knows p w.seen (queues w.io.runner)) x k))
  turn-IsAwake now testing w x (inl woken) = inl woken
  turn-IsAwake now testing w x (inr k) =
      inr (test_shutdown-Knows w.io w.seen (subst (λ p. Knows p w.seen (queues w.io.runner)) x k))
  turn-IsAwake now timing w x (inl woken) = inl woken
  turn-IsAwake now timing w x (inr k) =
      let known : (w.io.runner.tasks ≡ []) × (w.io.runner.shutdown ≡ false) =
        subst (λ p. Knows p w.seen (queues w.io.runner)) x k in
      inr (known.0, refl, known.1)
  turn-IsAwake now polling w x a = a
  turn-IsAwake now (dispatching []) w x a = inr tt
  turn-IsAwake now (dispatching (ev ∷ rest)) w x a =
      inr (rw (dispatch-phase ev (record w.io { phase = dispatching rest })) tt)
  turn-IsAwake now stopped w x a = inr (rw x tt)

  poll-IsAwake :
      (p : Phase) (r : PollResult) (w : Waking kernel)
      → IsAwake w
      → IsAwake (record w { io = poll p r w.io })
  unfolding poll
  poll-IsAwake polling (ready evs) w a = inr tt
  poll-IsAwake polling interrupted w a = inr tt
  poll-IsAwake polling broken w a = inr tt
  poll-IsAwake draining r w a = a
  poll-IsAwake delaying r w a = a
  poll-IsAwake testing r w a = a
  poll-IsAwake timing r w a = a
  poll-IsAwake (dispatching evs) r w a = a
  poll-IsAwake stopped r w a = a

  -- A post is taken, or changes nothing.
  post_task-taken :
      (now : ℕ) (callback : Callback) (r : IoTaskRunner kernel)
      → ((post_task now callback r).0 ≡ true) ⊎ ((post_task now callback r).1 ≡ r)
  unfolding post_task
  post_task-taken now callback r = ground arith

  post_delayed_task-taken :
      (now : ℕ) (callback : Callback) (delay : ℕ) (r : IoTaskRunner kernel)
      → ((post_delayed_task now callback delay r).0 ≡ true)
        ⊎ ((post_delayed_task now callback delay r).1 ≡ r)
  unfolding post_delayed_task
  post_delayed_task-taken now callback delay r = ground arith

  posted-IsAwake :
      (p : Bool × IoTaskRunner kernel) (w : Waking kernel)
      → (p.0 ≡ true) ⊎ (p.1 ≡ w.io.runner)
      → IsAwake w
      → IsAwake (posted p w)
  posted-IsAwake (true, r) w h a = inl (inr (omega arith))
  posted-IsAwake (false, r) w (inl x) a = absurd (cc x)
  posted-IsAwake (false, r) w (inr e) (inl woken) = inl woken
  posted-IsAwake (false, r) w (inr e) (inr k) =
      inr (subst (λ r'. Knows w.io.phase w.seen (queues r')) (sym e) k)

  wake-IsAwake :
      (wakers : ℕ) (w : Waking kernel) → w.wakers ≡ wakers → IsAwake w → IsAwake (wake wakers w)
  wake-IsAwake wakers w x a = elim (Bool-cases (0 == wakers)) [
    | inl y ↦ rw y (elim a [
      | inl (inl s) ↦ inl (inl s)
      | inl (inr more) ↦ absurd (ground arith)
      | inr k ↦ inr k
    ])
    | inr y ↦ rw y (inl (inl refl))
  ]

  step-IsAwake : (e : WakeEvent) (w : Waking kernel) → IsAwake w → IsAwake (step e w)
  unfolding step watch Loop.step
  step-IsAwake (steps (runs now)) w a = turn-IsAwake now w.io.phase w refl a
  step-IsAwake (steps (polls r)) w a = poll-IsAwake w.io.phase r w a
  step-IsAwake (steps (posts now callback)) w a =
      posted-IsAwake (post_task now callback w.io.runner) w
        (post_task-taken now callback w.io.runner) a
  step-IsAwake (steps (posts_delayed now callback delay)) w a =
      posted-IsAwake (post_delayed_task now callback delay w.io.runner) w
        (post_delayed_task-taken now callback delay w.io.runner) a
  step-IsAwake (steps shuts_down) w a = inl (inr (omega arith))
  step-IsAwake (steps (watches c fd persistent mode watcher)) w (inl woken) = inl woken
  step-IsAwake (steps (watches c fd persistent mode watcher)) w (inr k) = inr (
      subst (Knows w.io.phase w.seen)
        (sym (watch-queues fd persistent mode (w.io.controllers c) watcher w.io.runner)) k)
  step-IsAwake (steps (stops c)) w (inl woken) = inl woken
  step-IsAwake (steps (stops c)) w (inr k) =
      inr (subst (Knows w.io.phase w.seen) (sym (stop-queues (w.io.controllers c) w.io.runner)) k)
  step-IsAwake wakes w a = wake-IsAwake w.wakers w refl a

  run-IsAwake : (es : List WakeEvent) (w : Waking kernel) → IsAwake w → IsAwake (run es w)
  run-IsAwake [] w a = a
  run-IsAwake (e ∷ es) w a = run-IsAwake es (step e w) (step-IsAwake e w a)

-- The loop never sleeps over work: in any history of a new runner, whenever the loop stands at
-- `epoll_wait`, the eventfd can be read or a thread is about to write to it, or else no immediate
-- task waits, the delayed tasks are those from which the timeout was taken, and no shutdown has been
-- asked for.
pub run-polling :
    (kernel : Kernel) (wake_fd token : ℕ) (monitored : Bool) (k : kernel.State)
    (es : List WakeEvent)
    → let w = run es (new_waking {kernel = kernel} wake_fd token monitored k) in
      w.io.phase ≡ polling
      → IsWoken w
        ⊎ ((w.io.runner.tasks ≡ [])
            × (w.io.runner.delayed_tasks ≡ w.seen)
            × (w.io.runner.shutdown ≡ false))
unfolding init
run-polling kernel wake_fd token monitored k es at =
    let w = run es (new_waking {kernel = kernel} wake_fd token monitored k) in
    elim (run-IsAwake es (new_waking {kernel = kernel} wake_fd token monitored k) (inr tt)) [
      | inl woken ↦ inl woken
      | inr known ↦ inr (subst (λ p. Knows p w.seen (queues w.io.runner)) at known)
    ]
