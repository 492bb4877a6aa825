-- ===== src/SocketPosix/Answered.antt =====
-- What becomes of the callbacks of a socket (rust_net/socket_posix.rs) over histories.
use rust_task_runner.Common.{
  ℕ, ◌+◌, ◌≡◌, refl, subst, List, [], ◌∷◌, Option, none, some, total, arith,
}
use rust_task_runner.IoTaskRunner.{Kernel, IoTaskRunner}
use rust_task_runner.SocketPosix.{
  Net, cancel_accept, cancel_read, cancel_write, stop_read, stop_write,
}
use rust_task_runner.SocketPosix.Steps.{
  Event, opens, connects, waits_readable, reads, writes, accepts, cancels_accept, cancels_read,
  cancels_write, closes, is_readable, is_writable, fresh, step, run, assert_open, proceed,
}
use rust_task_runner.SocketPosix.Replies.{
  answers, asks, waiting, gives_up, called_or_waiting, open_socket-called, connect-called,
  wait_readable-called, read_socket-called, write_socket-called, accept-called, close-called,
  on_readable-called, on_writable-called,
}

abbrev counts : {kernel : Kernel} → ℕ → (Net kernel → ℕ) → Option (Net kernel) → ℕ
counts k rest none = 0
counts k rest (some m) = k + rest m

-- The sum of a number over the events of a run, each with the state that it finds, up to an
-- operation whose assertion fails because no descriptor is open.
unfoldable pub sum_over : {kernel : Kernel} → (Event → Net kernel → ℕ) → List Event → Net kernel → ℕ
sum_over f [] n = 0
sum_over f (e ∷ es) n = counts (f e n) (sum_over f es) (step e n)

-- How often `cb` is given to an operation in a run.
abbrev pub asked_in : {kernel : Kernel} → ℕ → List Event → Net kernel → ℕ
asked_in cb es n = sum_over (λ e m. asks cb e) es n

-- How often `cb` is given up in a run: its operation waits when it is cancelled, when the socket is
-- closed or when another of its kind takes its place.
abbrev pub given_up_in : {kernel : Kernel} → ℕ → List Event → Net kernel → ℕ
given_up_in cb es n = sum_over (gives_up cb) es n

-- The account of one event holds of the state behind its assertion.
assert_open-called :
    {kernel : Kernel} (cb left right : ℕ) (o : Option ℕ) (f : ℕ → Net kernel) (m : Net kernel)
    → ((fd : ℕ) → called_or_waiting cb (f fd) + left ≡ right)
    → assert_open o f ≡ some m
    → called_or_waiting cb m + left ≡ right
assert_open-called cb left right none f m k h = absurd (cc h)
assert_open-called cb left right (some fd) f m k h =
    let same : f fd ≡ m = cc in subst (λ x. called_or_waiting cb x + left ≡ right) same (k fd)

-- The same for an operation without one.
some-called :
    {kernel : Kernel} (cb left right : ℕ) (n m : Net kernel)
    → called_or_waiting cb n + left ≡ right
    → some n ≡ some m
    → called_or_waiting cb m + left ≡ right
some-called cb left right n m k h =
    let same : n ≡ m = cc in subst (λ x. called_or_waiting cb x + left ≡ right) same k

step-called :
    {kernel : Kernel} (cb : ℕ) (e : Event) (n m : Net kernel)
    → step e n ≡ some m
    → called_or_waiting cb m + gives_up cb e n ≡ called_or_waiting cb n + asks cb e
unfolding step cancel_accept cancel_read cancel_write stop_read stop_write
step-called cb (opens r) n m = some-called cb _ _ _ m (omega (arith, open_socket-called cb r n))
step-called cb (connects r x) n m =
    assert_open-called cb _ _ n.socket.fd _ m (λ fd. connect-called cb fd r x n)
step-called cb (waits_readable x) n m =
    assert_open-called cb _ _ n.socket.fd _ m (λ fd. wait_readable-called cb fd x n)
step-called cb (reads len r x) n m =
    assert_open-called cb _ _ n.socket.fd _ m (λ fd. read_socket-called cb fd len r x n)
step-called cb (writes buf r x) n m =
    assert_open-called cb _ _ n.socket.fd _ m (λ fd. write_socket-called cb fd buf r x n)
step-called cb (accepts r x) n m =
    assert_open-called cb _ _ n.socket.fd _ m (λ fd. accept-called cb fd r x n)
step-called cb cancels_accept n m = some-called cb _ _ _ m (omega arith)
step-called cb cancels_read n m = some-called cb _ _ _ m (omega arith)
step-called cb cancels_write n m = some-called cb _ _ _ m (omega arith)
step-called cb closes n m = some-called cb _ _ _ m (omega (arith, close-called cb n))
step-called cb (is_readable client got) n m =
    some-called cb _ _ _ m
      (omega (arith, on_readable-called cb n.socket.pending_accept client got n refl))
step-called cb (is_writable so_error count) n m =
    some-called cb _ _ _ m
      (omega (arith, on_writable-called cb n.socket.pending_connect so_error count n refl))

run-called :
    {kernel : Kernel} (cb : ℕ) (es : List Event) (n : Net kernel)
    → called_or_waiting cb (run es n) + given_up_in cb es n
      ≡ called_or_waiting cb n + asked_in cb es n
unfolding run sum_over
run-called cb [] n = omega arith
run-called {kernel = kernel} cb (e ∷ es) n = after (λ m. run-called cb es m) (step e n) refl
  where
    after :
        ((m : Net kernel)
          → called_or_waiting cb (run es m) + given_up_in cb es m
            ≡ called_or_waiting cb m + asked_in cb es m)
        → (o : Option (Net kernel)) → step e n ≡ o
        → called_or_waiting cb (proceed (run es) n o)
            + counts (gives_up cb e n) (given_up_in cb es) o
          ≡ called_or_waiting cb n + counts (asks cb e) (asked_in cb es) o
    after rest none h = omega arith
    after rest (some m) h = omega (arith, step-called cb e n m h, rest m)

-- Whatever the system calls return and in whatever order a new socket is used, becomes ready, is
-- cancelled and closed, each time that a callback is given to an operation it is called once, or
-- waits in a pending operation at the end, or was given up while it waited: by the cancellation of
-- its operation, by `close` or by a later operation of its kind that waits in its place. An
-- operation on a socket without a descriptor, which panics, ends the history and is not counted.
pub run-answers :
    {kernel : Kernel} (owner : ℕ) (fd : Option ℕ) (io : IoTaskRunner kernel) (es : List Event)
    (cb : ℕ)
    → total (answers cb) (run es (fresh owner fd io)).replies
        + waiting cb (run es (fresh owner fd io))
        + given_up_in cb es (fresh owner fd io)
      ≡ asked_in cb es (fresh owner fd io)
run-answers owner fd io es cb = omega (arith, run-called cb es (fresh owner fd io))
