-- ===== src/SocketPosix/Steps.antt =====
-- Histories of one socket: the calls of the program on the IO thread and the readiness that the IO
-- thread reports, with what the system calls returned. An operation on a socket that is not open
-- fails its assertion, and the thread ends there.
use rust_task_runner.Common.{ℕ, List, [], ◌∷◌, Option, none, some}
use rust_task_runner.IoTaskRunner.{Kernel, IoTaskRunner}
use rust_task_runner.SocketPosix.{
  Net, IoResult, with_descriptor, open_socket, connect, wait_readable, read_socket, write_socket,
  accept, cancel_accept, cancel_read, cancel_write, close, on_readable, on_writable,
}

pub data Event : Type 0 where
  opens : IoResult ℕ → Event
  connects : IoResult Unit → ℕ → Event
  waits_readable : ℕ → Event
  reads : ℕ → IoResult (List ℕ) → ℕ → Event
  writes : List ℕ → IoResult ℕ → ℕ → Event
  accepts : IoResult ℕ → ℕ → Event
  cancels_accept : Event
  cancels_read : Event
  cancels_write : Event
  closes : Event
  is_readable : IoResult ℕ → IoResult (List ℕ) → Event
  is_writable : ℕ → IoResult ℕ → Event

module _ {kernel : Kernel} where
  -- A socket with the descriptor `fd`, or none, that has been asked for nothing.
  abbrev pub fresh : ℕ → Option ℕ → IoTaskRunner kernel → Net kernel
  fresh owner fd io = record {
    owner = owner;
    socket = with_descriptor fd;
    io = io;
    replies = [];
    closed = [];
  }

  -- `assert!(fd >= 0, "socket not open")`
  abbrev pub assert_open : Option ℕ → (ℕ → Net kernel) → Option (Net kernel)
  assert_open none f = none
  assert_open (some fd) f = some (f fd)

  unfoldable pub step : Event → Net kernel → Option (Net kernel)
  step (opens r) n = some (open_socket r n).1
  step (connects r cb) n = assert_open n.socket.fd (λ fd. connect fd r cb n)
  step (waits_readable cb) n = assert_open n.socket.fd (λ fd. wait_readable fd cb n)
  step (reads len r cb) n = assert_open n.socket.fd (λ fd. read_socket fd len r cb n)
  step (writes buf r cb) n = assert_open n.socket.fd (λ fd. write_socket fd buf r cb n)
  step (accepts r cb) n = assert_open n.socket.fd (λ fd. accept fd r cb n)
  step cancels_accept n = some (cancel_accept n)
  step cancels_read n = some (cancel_read n)
  step cancels_write n = some (cancel_write n)
  step closes n = some (close n)
  step (is_readable client got) n = some (on_readable n.socket.pending_accept client got n)
  step (is_writable so_error count) n = some (on_writable n.socket.pending_connect so_error count n)

  -- The thread goes on after a step, or has ended.
  abbrev pub proceed : (Net kernel → Net kernel) → Net kernel → Option (Net kernel) → Net kernel
  proceed go n none = n
  proceed go n (some m) = go m

  -- The state at the end of a history, or where the thread ended.
  unfoldable pub run : List Event → Net kernel → Net kernel
  run [] n = n
  run (e ∷ es) n = proceed (run es) n (step e n)
