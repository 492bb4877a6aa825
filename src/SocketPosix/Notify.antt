-- ===== src/SocketPosix/Notify.antt =====
-- A socket (rust_net/socket_posix.rs) with the loop of its IO thread
-- (rust_io/io_task_runner.rs), which takes a watch that is not persistent away when it fires.
use rust_task_runner.Common.{ℕ, Bool, true, List, [], ◌∷◌, Option, none, some, if◌then◌else◌}
use rust_task_runner.IoTaskRunner.{Kernel, WatchEntry, remove_watch}
use rust_task_runner.IoTaskRunner.Loop.{ReadyEvent, firing}
use rust_task_runner.SocketPosix.{
  Net, IoResult, wait_readable, read_socket, cancel_read, on_readable, on_writable,
}

-- What the system calls of the callbacks of a watcher return.
pub record Calls : Type 0 where
  pub client : IoResult ℕ
  pub got : IoResult (List ℕ)
  pub so_error : ℕ
  pub count : IoResult ℕ

module _ {kernel : Kernel} where
  -- The body of the loop on an event of the descriptor of the socket, which is alive, with the
  -- entry that is found for it.
  unfoldable pub notify : ReadyEvent → Calls → Option WatchEntry → Net kernel → Net kernel
  unfolding on_readable on_writable
  notify ev calls none n = n
  notify ev calls (some e) n =
      let f = firing ev e in
      let taken = record n { io = if e.persistent then n.io else remove_watch ev.fd n.io } in
      let was_read =
        if f.can_read
        then on_readable taken.socket.pending_accept calls.client calls.got taken
        else taken in
      if f.can_write
      then on_writable was_read.socket.pending_connect calls.so_error calls.count was_read
      else was_read

-- The program reads and cancels, and the kernel reports that there is something to read.
pub data Event : Type 0 where
  waits_readable : ℕ → Event
  reads : ℕ → IoResult (List ℕ) → ℕ → Event
  cancels : Event
  is_ready : Bool → Calls → Event

abbrev pub readable : ℕ → Bool → ReadyEvent
readable fd writable = record {
  fd = fd;
  flags = record { epollin = true; epollout = writable };
  alive = true;
}

module _ {kernel : Kernel} where
  unfoldable pub step : ℕ → Event → Net kernel → Net kernel
  unfolding wait_readable read_socket cancel_read notify
  step fd (waits_readable cb) n = wait_readable fd cb n
  step fd (reads len r cb) n = read_socket fd len r cb n
  step fd cancels n = cancel_read n
  step fd (is_ready writable calls) n = notify (readable fd writable) calls (n.io.watches fd) n

  abbrev pub run : ℕ → List Event → Net kernel → Net kernel
  run fd [] n = n
  run fd (e ∷ es) n = run fd es (step fd e n)
