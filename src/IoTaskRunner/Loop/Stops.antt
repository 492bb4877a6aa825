-- ===== src/IoTaskRunner/Loop/Stops.antt =====
-- What stopping a controller of rust_io/io_task_runner.rs does to the watches of others.
use rust_task_runner.Common.{
  ℕ, ◌+◌, ◌<◌, ◌^◌, ◌≡◌, ◌≢◌, refl, sym, ap, ==_iff, ◌∙◌, Bool, true, List, [], ◌∷◌, Option, none,
  some, length, ℕ_discrete, arith, Bool-cases, ◌==◌, inl, inr,
}
use rust_task_runner.IoTaskRunner.{
  Kernel, IoTaskRunner, WatchEntry, FdWatchController, unregister_entry, unregister_fd,
  stop_watching_file_descriptor,
}
use rust_task_runner.IoTaskRunner.Loop.{Io, Event, stops, step, run, init, watch}
use rust_task_runner.IoTaskRunner.Loop.Counter.{step-counter}
use rust_task_runner.IoTaskRunner.Loop.Owners.{Owned, step-Owned}

run-Owned :
    {kernel : Kernel} (es : List Event) (io : Io kernel)
    → io.runner.generation_counter + length es < 2 ^ 64
    → Owned io
    → Owned (run es io)
unfolding run
run-Owned [] io small o = o
run-Owned (e ∷ es) io small o =
    run-Owned es (step e io) (omega (arith, step-counter e io)) (step-Owned e io (omega arith) o)

-- An entry of another number stays when a number is unregistered.
unregister_entry-keeps :
    {kernel : Kernel} (o : Option WatchEntry) (x g fd : ℕ) (e : WatchEntry)
    (r : IoTaskRunner kernel)
    → r.watches x ≡ o
    → r.watches fd ≡ some e
    → e.generation ≢ g
    → (unregister_entry o x g r).1.watches fd ≡ some e
unregister_entry-keeps none x g fd e r at_x at_fd other = at_fd
unregister_entry-keeps (some a) x g fd e r at_x at_fd other =
    elim (Bool-cases (a.generation == g)) [
      | inl own ↦ rw own (elim (ℕ_discrete x fd) [
        | yes same ↦
            let one : a ≡ e = cc in
            absurd (other (sym (ap (λ (y : WatchEntry). y.generation) one) ∙ (==_iff _ _).0 own))
        | no apart ↦ ground arith
      ])
      | inr differs ↦ rw differs at_fd
    ]

stop-keeps :
    {kernel : Kernel} (c : FdWatchController) (fd : ℕ) (e : WatchEntry) (r : IoTaskRunner kernel)
    → r.watches fd ≡ some e
    → (c.runner ≡ true → e.generation ≢ c.generation)
    → (stop_watching_file_descriptor c r).2.watches fd ≡ some e
unfolding stop_watching_file_descriptor unregister_fd
stop-keeps c fd e r at_fd other = elim (Bool-cases c.runner) [
  | inl has ↦
      rw has
        (unregister_entry-keeps (r.watches c.fd) c.fd c.generation fd e r refl at_fd (other has))
  | inr idle ↦ rw idle at_fd
]

-- The state after a history of a new runner.
abbrev pub after : (kernel : Kernel) → ℕ → ℕ → Bool → kernel.State → List Event → Io kernel
after kernel wake_fd token monitored epoll es =
    run es (init {kernel = kernel} wake_fd token monitored epoll)

after-Owned :
    (kernel : Kernel) (wake_fd token : ℕ) (monitored : Bool) (epoll : kernel.State)
    (es : List Event)
    → length es < 2 ^ 64
    → Owned (after kernel wake_fd token monitored epoll es)
unfolding init
after-Owned kernel wake_fd token monitored epoll es small =
    run-Owned es (init {kernel = kernel} wake_fd token monitored epoll) (omega arith)
      (record { small = λ c r. absurd (cc r); unique = λ c d r q s. absurd (cc r) })

-- To stop one controller never cancels the watch that another controller has, even where both
-- have watched the same descriptor: in a history of fewer than 2^64 steps of a new runner, if
-- controller `b` has the watch `e` of its descriptor, it still has it when `a` is stopped.
pub stop-spares :
    (kernel : Kernel) (wake_fd token : ℕ) (monitored : Bool) (epoll : kernel.State)
    (es : List Event) (a b : ℕ) (e : WatchEntry)
    → length es < 2 ^ 64
    → a ≢ b
    → ((after kernel wake_fd token monitored epoll es).controllers b).runner ≡ true
    → (after kernel wake_fd token monitored epoll es).runner.watches
        ((after kernel wake_fd token monitored epoll es).controllers b).fd
      ≡ some e
    → e.generation ≡ ((after kernel wake_fd token monitored epoll es).controllers b).generation
    → (step (stops a) (after kernel wake_fd token monitored epoll es)).runner.watches
        ((after kernel wake_fd token monitored epoll es).controllers b).fd
      ≡ some e
unfolding step watch
stop-spares kernel wake_fd token monitored epoll es a b e small apart has at_fd own =
    let io = after kernel wake_fd token monitored epoll es in
    let o = after-Owned kernel wake_fd token monitored epoll es small in
    stop-keeps (io.controllers a) (io.controllers b).fd e io.runner at_fd
      (λ r s. apart (o.unique a b r has (sym s ∙ own)))
