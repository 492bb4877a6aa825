-- ===== src/IoTaskRunner/Loop/Queues.antt =====
-- Watches and the queues of a runner (rust_io/io_task_runner.rs): to add a watch or to stop one
-- leaves the queues as they are.
use rust_task_runner.Common.{
  ℕ, ◌≡◌, refl, ◌∙◌, ap, Bool, true, false, Bool-cases, List, Option, none, some, ◌==◌, inl, inr,
}
use rust_task_runner.Task.{Callback}
use rust_task_runner.IoTaskRunner.{
  Kernel, IoTaskRunner, DelayedTask, FdWatchController, stop_watching_file_descriptor,
  watch_file_descriptor, WatchEntry, WatchMode, unregister_entry, add_watch, unregister_fd,
}

-- The immediate tasks, the delayed tasks, and the flag of `shutdown`.
abbrev pub queues :
    {kernel : Kernel} → IoTaskRunner kernel → List Callback × List DelayedTask × Bool
queues r = (r.tasks, r.delayed_tasks, r.shutdown)

unregister_entry-queues :
    {kernel : Kernel} (o : Option WatchEntry) (fd generation : ℕ) (r : IoTaskRunner kernel)
    → queues (unregister_entry o fd generation r).1 ≡ queues r
unregister_entry-queues none fd generation r = refl
unregister_entry-queues (some e) fd generation r = elim (Bool-cases (e.generation == generation)) [
  | inl x ↦ rw x refl
  | inr x ↦ rw x refl
]

pub stop-queues :
    {kernel : Kernel} (c : FdWatchController) (r : IoTaskRunner kernel)
    → queues (stop_watching_file_descriptor c r).2 ≡ queues r
unfolding stop_watching_file_descriptor unregister_fd
stop-queues c r = elim (Bool-cases c.runner) [
  | inl x ↦ rw x (unregister_entry-queues (r.watches c.fd) c.fd c.generation r)
  | inr x ↦ rw x refl
]

add_watch-queues :
    {kernel : Kernel} (b : Bool) (fd : ℕ) (e : WatchEntry) (c : FdWatchController)
    (r : IoTaskRunner kernel)
    → queues (add_watch b fd e c r).2 ≡ queues r
add_watch-queues true fd e c r = refl
add_watch-queues false fd e c r = refl

pub watch-queues :
    {kernel : Kernel} (fd : ℕ) (p : Bool) (mode : WatchMode) (c : FdWatchController) (watcher : ℕ)
    (r : IoTaskRunner kernel)
    → queues (watch_file_descriptor fd p mode c watcher r).2 ≡ queues r
unfolding watch_file_descriptor
watch-queues fd p mode c watcher r = add_watch-queues _ _ _ _ _ ∙ stop-queues c r

abbrev immediate : List Callback × List DelayedTask × Bool → List Callback
immediate q = q.0

pub stop-tasks :
    {kernel : Kernel} (c : FdWatchController) (r : IoTaskRunner kernel)
    → (stop_watching_file_descriptor c r).2.tasks ≡ r.tasks
stop-tasks c r = ap immediate (stop-queues c r)

pub watch-tasks :
    {kernel : Kernel} (fd : ℕ) (p : Bool) (mode : WatchMode) (c : FdWatchController) (watcher : ℕ)
    (r : IoTaskRunner kernel)
    → (watch_file_descriptor fd p mode c watcher r).2.tasks ≡ r.tasks
watch-tasks fd p mode c watcher r = ap immediate (watch-queues fd p mode c watcher r)
