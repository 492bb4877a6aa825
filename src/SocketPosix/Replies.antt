-- ===== src/SocketPosix/Replies.antt =====
-- How often each operation of a socket (rust_net/socket_posix.rs) calls a callback, keeps it and
-- gives it up.
use rust_task_runner.Common.{
  ℕ, ◌+◌, ◌≡◌, refl, List, [], ◌∷◌, Option, none, some, total, total-append, same, ◌==◌,
  if◌then◌else◌, arith,
}
use rust_task_runner.IoTaskRunner.{Kernel}
use rust_task_runner.SocketPosix.{
  Net, IoResult, ok, err, Reply, done, received, sent, accepted, ReadOp, read_if_ready, read_up_to,
  WriteOp, open_socket, connect, wait_readable, read_socket, write_socket, accept, close,
  close_descriptor, on_readable, on_writable, finish_read, finish_write, arm_read, arm_write,
  stop_read, stop_write, reply, from_fd, check_connect_error, eagain, einprogress,
}
use rust_task_runner.SocketPosix.Steps.{
  Event, connects, waits_readable, reads, writes, accepts, cancels_accept, cancels_read,
  cancels_write, closes,
}

-- 1 for a call of the callback `cb`.
abbrev pub answers : ℕ → Reply → ℕ
answers cb (done x _) = same cb x
answers cb (received x _) = same cb x
answers cb (sent x _) = same cb x
answers cb (accepted x _) = same cb x

-- 1 for a place where `cb` waits.
abbrev pub waits_in : ℕ → Option ℕ → ℕ
waits_in cb none = 0
waits_in cb (some x) = same cb x

abbrev pub waits_read : ℕ → Option ReadOp → ℕ
waits_read cb none = 0
waits_read cb (some (read_if_ready x)) = same cb x
waits_read cb (some (read_up_to _ x)) = same cb x

abbrev pub waits_write : ℕ → Option WriteOp → ℕ
waits_write cb none = 0
waits_write cb (some op) = same cb op.cb

-- How often `cb` has been called, and waits in a pending operation.
abbrev pub called_or_waiting : {kernel : Kernel} → ℕ → Net kernel → ℕ
called_or_waiting cb n =
    total (answers cb) n.replies
    + waits_read cb n.socket.pending_read
    + waits_write cb n.socket.pending_write
    + waits_in cb n.socket.pending_connect
    + waits_in cb n.socket.pending_accept

-- How often `cb` waits in any operation.
abbrev pub waiting : {kernel : Kernel} → ℕ → Net kernel → ℕ
waiting cb n =
    waits_read cb n.socket.pending_read
    + waits_write cb n.socket.pending_write
    + waits_in cb n.socket.pending_connect
    + waits_in cb n.socket.pending_accept

-- Whether a call has to wait: it was answered by the error `e`.
abbrev pub blocks : {A : Type 0} → ℕ → IoResult A → ℕ → ℕ
blocks e (ok a) k = 0
blocks e (err x) k = if x == e then k else 0

-- How often an event in a state gives `cb` up without a call: an operation that waits takes the
-- place of one of its kind that waited before, a cancellation that of its kind, and `close` all.
abbrev pub gives_up : {kernel : Kernel} → ℕ → Event → Net kernel → ℕ
gives_up cb (connects r _) n = blocks einprogress r (waits_in cb n.socket.pending_connect)
gives_up cb (waits_readable _) n = waits_read cb n.socket.pending_read
gives_up cb (reads _ r _) n = blocks eagain r (waits_read cb n.socket.pending_read)
gives_up cb (writes _ r _) n = blocks eagain r (waits_write cb n.socket.pending_write)
gives_up cb (accepts r _) n = blocks eagain r (waits_in cb n.socket.pending_accept)
gives_up cb cancels_accept n = waits_in cb n.socket.pending_accept
gives_up cb cancels_read n = waits_read cb n.socket.pending_read
gives_up cb cancels_write n = waits_write cb n.socket.pending_write
gives_up cb closes n = waiting cb n
gives_up cb _ n = 0

-- 1 for an operation with the callback `cb`.
abbrev pub asks : ℕ → Event → ℕ
asks cb (connects _ x) = same cb x
asks cb (waits_readable x) = same cb x
asks cb (reads _ _ x) = same cb x
asks cb (writes _ _ x) = same cb x
asks cb (accepts _ x) = same cb x
asks cb _ = 0

pub connect-called :
    {kernel : Kernel} (cb fd : ℕ) (r : IoResult Unit) (x : ℕ) (n : Net kernel)
    → called_or_waiting cb (connect fd r x n) + gives_up cb (connects r x) n
      ≡ called_or_waiting cb n + same cb x
unfolding connect arm_write
connect-called cb fd (ok u) x n =
    omega (arith, total-append (answers cb) n.replies (done x (ok tt) ∷ []))
connect-called cb fd (err e) x n =
    ground (arith, total-append (answers cb) n.replies (done x (err e) ∷ []))

reply-called :
    {kernel : Kernel} (cb : ℕ) (r : Reply) (n : Net kernel)
    → called_or_waiting cb (reply r n) ≡ called_or_waiting cb n + answers cb r
reply-called cb r n = omega (arith, total-append (answers cb) n.replies (r ∷ []))

pub wait_readable-called :
    {kernel : Kernel} (cb fd x : ℕ) (n : Net kernel)
    → called_or_waiting cb (wait_readable fd x n) + gives_up cb (waits_readable x) n
      ≡ called_or_waiting cb n + same cb x
unfolding wait_readable arm_read
wait_readable-called cb fd x n = omega arith

pub read_socket-called :
    {kernel : Kernel} (cb fd len : ℕ) (r : IoResult (List ℕ)) (x : ℕ) (n : Net kernel)
    → called_or_waiting cb (read_socket fd len r x n) + gives_up cb (reads len r x) n
      ≡ called_or_waiting cb n + same cb x
unfolding read_socket arm_read
read_socket-called cb fd len (ok bytes) x n =
    omega (arith, reply-called cb (received x (ok bytes)) n)
read_socket-called cb fd len (err e) x n = ground (arith, reply-called cb (received x (err e)) n)

pub write_socket-called :
    {kernel : Kernel} (cb fd : ℕ) (buf : List ℕ) (r : IoResult ℕ) (x : ℕ) (n : Net kernel)
    → called_or_waiting cb (write_socket fd buf r x n) + gives_up cb (writes buf r x) n
      ≡ called_or_waiting cb n + same cb x
unfolding write_socket arm_write
write_socket-called cb fd buf (ok count) x n = omega (arith, reply-called cb (sent x (ok count)) n)
write_socket-called cb fd buf (err e) x n = ground (arith, reply-called cb (sent x (err e)) n)

pub accept-called :
    {kernel : Kernel} (cb fd : ℕ) (r : IoResult ℕ) (x : ℕ) (n : Net kernel)
    → called_or_waiting cb (accept fd r x n) + gives_up cb (accepts r x) n
      ≡ called_or_waiting cb n + same cb x
unfolding accept arm_read
accept-called cb fd (ok client) x n =
    omega (arith, reply-called cb (accepted x (from_fd (ok client))) n)
accept-called cb fd (err e) x n = ground (arith, reply-called cb (accepted x (err e)) n)

close_descriptor-called :
    {kernel : Kernel} (cb : ℕ) (fd : Option ℕ) (n : Net kernel)
    → called_or_waiting cb (close_descriptor fd n) ≡ called_or_waiting cb n
unfolding close_descriptor
close_descriptor-called cb none n = refl
close_descriptor-called cb (some fd) n = refl

pub close-called :
    {kernel : Kernel} (cb : ℕ) (n : Net kernel)
    → called_or_waiting cb (close n) + waiting cb n ≡ called_or_waiting cb n
unfolding close stop_read stop_write
close-called cb n = rw (close_descriptor-called cb n.socket.fd _) (omega arith)

finish_read-called :
    {kernel : Kernel} (cb : ℕ) (o : Option ReadOp) (got : IoResult (List ℕ)) (n : Net kernel)
    → n.socket.pending_read ≡ o
    → called_or_waiting cb (finish_read o got n) ≡ called_or_waiting cb n
unfolding finish_read
finish_read-called cb none got n h = omega arith
finish_read-called cb (some (read_if_ready x)) got n h =
    rw h (omega (arith, total-append (answers cb) n.replies (done x (ok tt) ∷ [])))
finish_read-called cb (some (read_up_to len x)) got n h =
    rw h (omega (arith, total-append (answers cb) n.replies (received x got ∷ [])))

pub on_readable-called :
    {kernel : Kernel} (cb : ℕ) (o : Option ℕ) (client : IoResult ℕ) (got : IoResult (List ℕ))
    (n : Net kernel)
    → n.socket.pending_accept ≡ o
    → called_or_waiting cb (on_readable o client got n) ≡ called_or_waiting cb n
unfolding on_readable
on_readable-called cb (some x) client got n h =
    rw h (omega (arith, total-append (answers cb) n.replies (accepted x (from_fd client) ∷ [])))
on_readable-called cb none client got n h = finish_read-called cb n.socket.pending_read got n refl

finish_write-called :
    {kernel : Kernel} (cb : ℕ) (o : Option WriteOp) (count : IoResult ℕ) (n : Net kernel)
    → n.socket.pending_write ≡ o
    → called_or_waiting cb (finish_write o count n) ≡ called_or_waiting cb n
unfolding finish_write
finish_write-called cb none count n h = omega arith
finish_write-called cb (some op) count n h =
    rw h (omega (arith, total-append (answers cb) n.replies (sent op.cb count ∷ [])))

pub on_writable-called :
    {kernel : Kernel} (cb : ℕ) (o : Option ℕ) (so_error : ℕ) (count : IoResult ℕ) (n : Net kernel)
    → n.socket.pending_connect ≡ o
    → called_or_waiting cb (on_writable o so_error count n) ≡ called_or_waiting cb n
unfolding on_writable
on_writable-called cb (some x) so_error count n h = rw h (
    omega (arith, total-append (answers cb) n.replies (done x (check_connect_error so_error) ∷ [])))
on_writable-called cb none so_error count n h =
    finish_write-called cb n.socket.pending_write count n refl

pub open_socket-called :
    {kernel : Kernel} (cb : ℕ) (r : IoResult ℕ) (n : Net kernel)
    → called_or_waiting cb (open_socket r n).1 ≡ called_or_waiting cb n
unfolding open_socket
open_socket-called cb (ok fd) n = refl
open_socket-called cb (err e) n = refl
