-- ===== src/SocketPosix/Watched.antt =====
-- The reads of a socket (rust_net/socket_posix.rs) and the watches of the loop of its IO thread
-- (rust_io/io_task_runner.rs).
use rust_task_runner.Common.{
  ℕ, ◌≡◌, refl, ◌∙◌, Bool, true, false, Bool-cases, List, [], ◌∷◌, ◌++◌, Option, none, some, ◌⊎◌,
  inl, inr, ◌==◌, update, arith,
}
use rust_task_runner.IoTaskRunner.{
  Kernel, IoTaskRunner, WatchEntry, read, remove_watch, arm_epoll, mode_to_epoll_events,
  unregister_entry, Flags, stop_watching_file_descriptor, watch_file_descriptor, unregister_fd,
}
use rust_task_runner.SocketPosix.Steps.{fresh}
use rust_task_runner.SocketPosix.{
  Net, IoResult, ok, err, ReadOp, read_if_ready, read_up_to, Reply, done, received, eagain,
  wait_readable, read_socket, cancel_read, on_readable, finish_read, arm_read, stop_read,
}
use rust_task_runner.SocketPosix.Notify.{
  Calls, notify, Event, waits_readable, reads, cancels, is_ready, readable, step, run,
}

-- The call of the callback of a pending read.
abbrev pub answer : ReadOp → IoResult (List ℕ) → Reply
answer (read_if_ready cb) got = done cb (ok tt)
answer (read_up_to len cb) got = received cb got

-- The entry of a read that waits.
abbrev read_entry : ℕ → ℕ → WatchEntry
read_entry owner g = record { watcher = owner; persistent = false; mode = read; generation = g }

-- No accept waits, and the descriptor is watched for reading or no read waits.
abbrev IsWatched : {kernel : Kernel} → ℕ → Net kernel → Type 0
IsWatched fd n =
    (n.socket.pending_accept ≡ none)
    × (((n.io.watches fd ≡ none) × (n.socket.pending_read ≡ none))
        ⊎ ((g : ℕ) × (n.io.watches fd ≡ some (read_entry n.owner g))))

update_same : {A : Type 0} (f : ℕ → A) (i : ℕ) (a : A) → update f i a i ≡ a
update_same f i a = ground arith

update-none :
    {A : Type 0} (f : ℕ → Option A) (i j : ℕ)
    → (update f i none j ≡ none) ⊎ (update f i none j ≡ f j)
update-none f i j = ground arith

-- What a stop does to the entry of a descriptor: it leaves it, or takes it away.
unregister_entry-watches :
    {kernel : Kernel} (fd : ℕ) (o : Option WatchEntry) (x g : ℕ) (r : IoTaskRunner kernel)
    → ((unregister_entry o x g r).1.watches fd ≡ none)
      ⊎ ((unregister_entry o x g r).1.watches fd ≡ r.watches fd)
unregister_entry-watches fd none x g r = inr refl
unregister_entry-watches fd (some e) x g r = elim (Bool-cases (e.generation == g)) [
  | inl h ↦ rw h (update-none r.watches x fd)
  | inr h ↦ rw h (inr refl)
]

stop_read-watches :
    {kernel : Kernel} (fd : ℕ) (n : Net kernel)
    → ((stop_read n).io.watches fd ≡ none) ⊎ ((stop_read n).io.watches fd ≡ n.io.watches fd)
unfolding stop_read stop_watching_file_descriptor unregister_fd
stop_read-watches fd n =
    let c = n.socket.read_watcher in
    elim (Bool-cases c.runner) [
      | inl h ↦ rw h (unregister_entry-watches fd (n.io.watches c.fd) c.fd c.generation n.io)
      | inr h ↦ rw h (inr refl)
    ]

module _ {kernel : Kernel}
    (accepting : (fd : ℕ) (flags : Flags) (k : kernel.State)
      → (arm_epoll kernel fd flags k).0 ≡ true)
    (fd : ℕ) where
  -- The descriptor is watched for reading once a read has been armed.
  arm_read-IsWatched :
      (op : ReadOp) (n : Net kernel)
      → n.socket.pending_accept ≡ none
      → IsWatched fd
          (arm_read fd (record n { socket = record n.socket { pending_read = some op } }))
  unfolding arm_read watch_file_descriptor
  arm_read-IsWatched op n h =
      let (_, c, r) = stop_watching_file_descriptor n.socket.read_watcher n.io in
      rw (accepting fd (mode_to_epoll_events read) r.epoll) (
        h,
        inr (
          r.generation_counter,
          update_same r.watches fd (some (read_entry n.owner r.generation_counter)),
        ),
      )

  cancel_read-IsWatched : (n : Net kernel) → IsWatched fd n → IsWatched fd (cancel_read n)
  unfolding cancel_read
  cancel_read-IsWatched n (h, w) =
      elim (stop_read-watches fd (record n { socket = record n.socket { pending_read = none } })) [
        | inl x ↦ (h, inl (x, refl))
        | inr x ↦ elim w [ inl (y, _) ↦ (h, inl (x ∙ y, refl)) | inr (g, y) ↦ (h, inr (g, x ∙ y)) ]
      ]

  finish_read-IsWatched :
      (o : Option ReadOp) (got : IoResult (List ℕ)) (n : Net kernel)
      → n.socket.pending_read ≡ o
      → n.socket.pending_accept ≡ none
      → n.io.watches fd ≡ none
      → IsWatched fd (finish_read o got n)
  unfolding finish_read
  finish_read-IsWatched none got n x h w = (h, inl (w, x))
  finish_read-IsWatched (some (read_if_ready cb)) got n x h w = (h, inl (w, refl))
  finish_read-IsWatched (some (read_up_to len cb)) got n x h w = (h, inl (w, refl))

  -- What the loop does on an entry for reading: the pending read is finished.
  notify-eq-finish_read :
      (writable : Bool) (calls : Calls) (g : ℕ) (n : Net kernel)
      → n.socket.pending_accept ≡ none
      → notify (readable fd writable) calls (some (read_entry n.owner g)) n
        ≡ finish_read n.socket.pending_read calls.got (record n { io = remove_watch fd n.io })
  unfolding notify on_readable
  notify-eq-finish_read writable calls g n h = elim (Bool-cases writable) [
    | inl x ↦ rw (x, h) refl
    | inr x ↦ rw (x, h) refl
  ]

  notify-IsWatched :
      (writable : Bool) (calls : Calls) (n : Net kernel)
      → IsWatched fd n
      → IsWatched fd (notify (readable fd writable) calls (n.io.watches fd) n)
  unfolding notify
  notify-IsWatched writable calls n (h, inl (x, y)) = rw x (h, inl (x, y))
  notify-IsWatched writable calls n (h, inr (g, x)) =
      rw (x, notify-eq-finish_read writable calls g n h)
        (finish_read-IsWatched n.socket.pending_read calls.got
          (record n { io = remove_watch fd n.io }) refl h (update_same n.io.watches fd none))

  read_socket-IsWatched :
      (len : ℕ) (r : IoResult (List ℕ)) (cb : ℕ) (n : Net kernel)
      → IsWatched fd n
      → IsWatched fd (read_socket fd len r cb n)
  unfolding read_socket
  read_socket-IsWatched len (ok bytes) cb n w = w
  read_socket-IsWatched len (err e) cb n w = elim (Bool-cases (e == eagain)) [
    | inl x ↦ rw x (arm_read-IsWatched (read_up_to len cb) n w.0)
    | inr x ↦ rw x w
  ]

  step-IsWatched : (e : Event) (n : Net kernel) → IsWatched fd n → IsWatched fd (step fd e n)
  unfolding step wait_readable
  step-IsWatched (waits_readable cb) n w = arm_read-IsWatched (read_if_ready cb) n w.0
  step-IsWatched (reads len r cb) n w = read_socket-IsWatched len r cb n w
  step-IsWatched cancels n w = cancel_read-IsWatched n w
  step-IsWatched (is_ready writable calls) n w = notify-IsWatched writable calls n w

  run-IsWatched : (es : List Event) (n : Net kernel) → IsWatched fd n → IsWatched fd (run fd es n)
  run-IsWatched [] n w = w
  run-IsWatched (e ∷ es) n w = run-IsWatched es (step fd e n) (step-IsWatched e n w)

  notify-replies :
      (writable : Bool) (calls : Calls) (n : Net kernel) (op : ReadOp)
      → IsWatched fd n
      → n.socket.pending_read ≡ some op
      → (notify (readable fd writable) calls (n.io.watches fd) n).replies
        ≡ n.replies ++ answer op calls.got ∷ []
  unfolding finish_read
  notify-replies writable calls n op (h, inl (x, y)) p = absurd (cc (y, p))
  notify-replies writable calls n (read_if_ready cb) (h, inr (g, x)) p =
      rw (x, notify-eq-finish_read writable calls g n h, p) refl
  notify-replies writable calls n (read_up_to len cb) (h, inr (g, x)) p =
      rw (x, notify-eq-finish_read writable calls g n h, p) refl

-- A read that waits is answered as soon as there is something to read: in any history of a new
-- socket whose program only reads and cancels, on a runner that has no watch of its descriptor and
-- with a kernel that takes every watch, the next event of the kernel calls the callback of the
-- pending read, with the result of the system call.
pub run-answers_ready :
    {kernel : Kernel}
    → ((fd : ℕ) (flags : Flags) (k : kernel.State) → (arm_epoll kernel fd flags k).0 ≡ true)
    → (owner fd : ℕ) (io : IoTaskRunner kernel) → io.watches fd ≡ none
    → (es : List Event) (op : ReadOp) (writable : Bool) (calls : Calls)
    → let n = run fd es (fresh owner (some fd) io) in
      n.socket.pending_read ≡ some op
      → (step fd (is_ready writable calls) n).replies ≡ n.replies ++ answer op calls.got ∷ []
unfolding step
run-answers_ready accepting owner fd io h es op writable calls p =
    let start = fresh owner (some fd) io in
    notify-replies accepting fd writable calls (run fd es start) op
      (run-IsWatched accepting fd es start (refl, inl (h, refl))) p
