-- ===== src/SocketPosix.antt =====
-- rust_net/socket_posix.rs: one socket on its IO thread. What a system call returned is an argument
-- of the operation that makes it; callbacks are named by numbers, and `replies` are the calls of
-- them. A closed descriptor (`INVALID_FD`) is `none`.
pub mod Steps
pub mod Address
pub mod Replies
pub mod Answered
pub mod Closing
pub mod Notify
pub mod Watched
use rust_task_runner.Common.{
  ℕ, Bool, true, false, List, [], ◌∷◌, ◌++◌, Option, none, some, ◌==◌, if◌then◌else◌, ◌≡◌, refl,
  ◌⊎◌, inl, inr,
}
use rust_task_runner.IoTaskRunner.{
  Kernel, IoTaskRunner, FdWatchController, new_controller, WatchMode, read, write,
  watch_file_descriptor, stop_watching_file_descriptor,
}

-- `io::Result`, with the number of the error.
pub data IoResult (A : Type 0) : Type 0 where
  ok : A → IoResult A
  err : ℕ → IoResult A

pub IoResult-cases :
    {A : Type 0} (r : IoResult A) → ((a : A) × (r ≡ ok a)) ⊎ ((e : ℕ) × (r ≡ err e))
IoResult-cases (ok a) = inl (a, refl)
IoResult-cases (err e) = inr (e, refl)

abbrev pub eagain : ℕ
eagain = 11

abbrev pub einprogress : ℕ
einprogress = 115

pub data ReadOp : Type 0 where
  read_if_ready : ℕ → ReadOp
  read_up_to : ℕ → ℕ → ReadOp

pub record WriteOp : Type 0 where
  pub buf : List ℕ
  pub cb : ℕ

pub record SocketPosix : Type 0 where
  pub fd : Option ℕ
  pub read_watcher : FdWatchController
  pub write_watcher : FdWatchController
  pub pending_read : Option ReadOp
  pub pending_write : Option WriteOp
  pub pending_connect : Option ℕ
  pub pending_accept : Option ℕ

-- `SocketPosix::new` and `from_fd`.
abbrev pub with_descriptor : Option ℕ → SocketPosix
with_descriptor fd = record {
  fd = fd;
  read_watcher = new_controller;
  write_watcher = new_controller;
  pending_read = none;
  pending_write = none;
  pending_connect = none;
  pending_accept = none;
}

-- The call of a callback: of `connect` and `read_if_ready`, of `read`, of `write`, of `accept`.
pub data Reply : Type 0 where
  done : ℕ → IoResult Unit → Reply
  received : ℕ → IoResult (List ℕ) → Reply
  sent : ℕ → IoResult ℕ → Reply
  accepted : ℕ → IoResult SocketPosix → Reply

-- `owner` is the number of the socket as a watcher; `closed` are the descriptors that it closed.
pub record Net (kernel : Kernel) : Type 0 where
  pub owner : ℕ
  pub socket : SocketPosix
  pub io : IoTaskRunner kernel
  pub replies : List Reply
  pub closed : List ℕ

-- The error of an accept or a client socket on the descriptor that it returned.
abbrev pub from_fd : IoResult ℕ → IoResult SocketPosix
from_fd (ok fd) = ok (with_descriptor (some fd))
from_fd (err e) = err e

-- `check_connect_error` from the value of `SO_ERROR`.
abbrev pub check_connect_error : ℕ → IoResult Unit
check_connect_error e = if e == 0 then ok tt else err e

module _ {kernel : Kernel} where
  abbrev pub reply : Reply → Net kernel → Net kernel
  reply r n = record n { replies = n.replies ++ r ∷ [] }

  unfoldable pub arm_read : ℕ → Net kernel → Net kernel
  arm_read fd n =
      let (_, c, r) = watch_file_descriptor fd false read n.socket.read_watcher n.owner n.io in
      record n { socket = record n.socket { read_watcher = c }; io = r }

  unfoldable pub arm_write : ℕ → Net kernel → Net kernel
  arm_write fd n =
      let (_, c, r) = watch_file_descriptor fd false write n.socket.write_watcher n.owner n.io in
      record n { socket = record n.socket { write_watcher = c }; io = r }

  unfoldable pub stop_read : Net kernel → Net kernel
  stop_read n =
      let (_, c, r) = stop_watching_file_descriptor n.socket.read_watcher n.io in
      record n { socket = record n.socket { read_watcher = c }; io = r }

  unfoldable pub stop_write : Net kernel → Net kernel
  stop_write n =
      let (_, c, r) = stop_watching_file_descriptor n.socket.write_watcher n.io in
      record n { socket = record n.socket { write_watcher = c }; io = r }

  -- `open` with what `socket(2)` returned.
  unfoldable pub open_socket : IoResult ℕ → Net kernel → IoResult Unit × Net kernel
  open_socket (ok fd) n = (ok tt, record n { socket = record n.socket { fd = some fd } })
  open_socket (err e) n = (err e, n)

  -- The operations on an open descriptor `fd`.
  unfoldable pub connect : ℕ → IoResult Unit → ℕ → Net kernel → Net kernel
  unfolding arm_write
  connect fd (ok _) cb n = reply (done cb (ok tt)) n
  connect fd (err e) cb n =
      if e == einprogress
      then arm_write fd (record n { socket = record n.socket { pending_connect = some cb } })
      else reply (done cb (err e)) n

  unfoldable pub wait_readable : ℕ → ℕ → Net kernel → Net kernel
  unfolding arm_read
  wait_readable fd cb n =
      arm_read fd (record n { socket = record n.socket { pending_read = some (read_if_ready cb) } })

  unfoldable pub read_socket : ℕ → ℕ → IoResult (List ℕ) → ℕ → Net kernel → Net kernel
  unfolding arm_read
  read_socket fd len (ok bytes) cb n = reply (received cb (ok bytes)) n
  read_socket fd len (err e) cb n =
      if e == eagain
      then arm_read fd
          (record n { socket = record n.socket { pending_read = some (read_up_to len cb) } })
      else reply (received cb (err e)) n

  unfoldable pub write_socket : ℕ → List ℕ → IoResult ℕ → ℕ → Net kernel → Net kernel
  unfolding arm_write
  write_socket fd buf (ok count) cb n = reply (sent cb (ok count)) n
  write_socket fd buf (err e) cb n =
      if e == eagain
      then arm_write fd (record n {
        socket = record n.socket { pending_write = some (record { buf = buf; cb = cb }) };
      })
      else reply (sent cb (err e)) n

  unfoldable pub accept : ℕ → IoResult ℕ → ℕ → Net kernel → Net kernel
  unfolding arm_read
  accept fd (ok client) cb n = reply (accepted cb (from_fd (ok client))) n
  accept fd (err e) cb n =
      if e == eagain
      then arm_read fd (record n { socket = record n.socket { pending_accept = some cb } })
      else reply (accepted cb (err e)) n

  unfoldable pub cancel_accept : Net kernel → Net kernel
  unfolding stop_read
  cancel_accept n = stop_read (record n { socket = record n.socket { pending_accept = none } })

  unfoldable pub cancel_read : Net kernel → Net kernel
  unfolding stop_read
  cancel_read n = stop_read (record n { socket = record n.socket { pending_read = none } })

  unfoldable pub cancel_write : Net kernel → Net kernel
  unfolding stop_write
  cancel_write n = stop_write (record n { socket = record n.socket { pending_write = none } })

  -- `fd.swap(INVALID_FD)` and the `close(2)` of a descriptor that was open: the end of `close`, and
  -- `drop`.
  unfoldable pub close_descriptor : Option ℕ → Net kernel → Net kernel
  close_descriptor none n = n
  close_descriptor (some fd) n = record n {
    socket = record n.socket { fd = none };
    closed = n.closed ++ fd ∷ [];
  }

  unfoldable pub close : Net kernel → Net kernel
  unfolding stop_read stop_write close_descriptor
  close n =
      let stopped = stop_write (stop_read n) in
      close_descriptor stopped.socket.fd (record stopped {
        socket = record stopped.socket {
          pending_read = none;
          pending_write = none;
          pending_connect = none;
          pending_accept = none;
        };
      })

  -- `on_file_can_read_without_blocking`, first with the pending accept, then with the pending read.
  unfoldable pub finish_read : Option ReadOp → IoResult (List ℕ) → Net kernel → Net kernel
  finish_read none got n = n
  finish_read (some (read_if_ready cb)) got n =
      reply (done cb (ok tt)) (record n { socket = record n.socket { pending_read = none } })
  finish_read (some (read_up_to len cb)) got n =
      reply (received cb got) (record n { socket = record n.socket { pending_read = none } })

  unfoldable pub on_readable : Option ℕ → IoResult ℕ → IoResult (List ℕ) → Net kernel → Net kernel
  unfolding finish_read
  on_readable (some cb) client got n =
      reply (accepted cb (from_fd client))
        (record n { socket = record n.socket { pending_accept = none } })
  on_readable none client got n = finish_read n.socket.pending_read got n

  -- `on_file_can_write_without_blocking`, likewise.
  unfoldable pub finish_write : Option WriteOp → IoResult ℕ → Net kernel → Net kernel
  finish_write none count n = n
  finish_write (some op) count n =
      reply (sent op.cb count) (record n { socket = record n.socket { pending_write = none } })

  unfoldable pub on_writable : Option ℕ → ℕ → IoResult ℕ → Net kernel → Net kernel
  unfolding finish_write
  on_writable (some cb) so_error count n =
      reply (done cb (check_connect_error so_error))
        (record n { socket = record n.socket { pending_connect = none } })
  on_writable none so_error count n = finish_write n.socket.pending_write count n
