-- ===== src/SocketPosix/Closing.antt =====
-- What closing a socket of rust_net/socket_posix.rs does.
use rust_task_runner.Common.{
  ℕ, ◌≡◌, refl, sym, ap, subst, ◌∙◌, List, [], ◌∷◌, Option, none, some, All,
}
use rust_task_runner.IoTaskRunner.{Kernel}
use rust_task_runner.SocketPosix.{
  Net, IoResult, close, close_descriptor, cancel_accept, cancel_read, cancel_write, stop_read,
  stop_write, on_readable, on_writable, finish_read, finish_write,
}
use rust_task_runner.SocketPosix.Steps.{
  Event, opens, connects, waits_readable, reads, writes, accepts, cancels_accept, cancels_read,
  cancels_write, closes, is_readable, is_writable, step, run, proceed, assert_open,
}

-- A closed socket has no descriptor and nothing pending.
pub record IsClosed {kernel : Kernel} (n : Net kernel) : Type 0 where
  pub no_fd : n.socket.fd ≡ none
  pub no_read : n.socket.pending_read ≡ none
  pub no_write : n.socket.pending_write ≡ none
  pub no_connect : n.socket.pending_connect ≡ none
  pub no_accept : n.socket.pending_accept ≡ none

abbrev pub IsNoOpen : Event → Type 0
IsNoOpen (opens _) = ⊥
IsNoOpen _ = Unit

-- A state that is closed and has called no callback since `n`.
abbrev Silent : {kernel : Kernel} → Net kernel → Net kernel → Type 0
Silent n m = IsClosed m × (m.replies ≡ n.replies)

close_descriptor-Silent :
    {kernel : Kernel} (o : Option ℕ) (n : Net kernel)
    → n.socket.fd ≡ o
    → n.socket.pending_read ≡ none
    → n.socket.pending_write ≡ none
    → n.socket.pending_connect ≡ none
    → n.socket.pending_accept ≡ none
    → Silent n (close_descriptor o n)
unfolding close_descriptor
close_descriptor-Silent none n h r w c a =
    (record { no_fd = h; no_read = r; no_write = w; no_connect = c; no_accept = a }, refl)
close_descriptor-Silent (some fd) n h r w c a =
    (record { no_fd = refl; no_read = r; no_write = w; no_connect = c; no_accept = a }, refl)

close-Silent : {kernel : Kernel} (n : Net kernel) → Silent n (close n)
unfolding close stop_read stop_write
close-Silent n = close_descriptor-Silent n.socket.fd _ refl refl refl refl refl

cancel_read-Silent : {kernel : Kernel} (n : Net kernel) → IsClosed n → Silent n (cancel_read n)
unfolding cancel_read stop_read
cancel_read-Silent n c = (
  record {
    no_fd = c.no_fd;
    no_read = refl;
    no_write = c.no_write;
    no_connect = c.no_connect;
    no_accept = c.no_accept;
  },
  refl,
)

cancel_accept-Silent : {kernel : Kernel} (n : Net kernel) → IsClosed n → Silent n (cancel_accept n)
unfolding cancel_accept stop_read
cancel_accept-Silent n c = (
  record {
    no_fd = c.no_fd;
    no_read = c.no_read;
    no_write = c.no_write;
    no_connect = c.no_connect;
    no_accept = refl;
  },
  refl,
)

cancel_write-Silent : {kernel : Kernel} (n : Net kernel) → IsClosed n → Silent n (cancel_write n)
unfolding cancel_write stop_write
cancel_write-Silent n c = (
  record {
    no_fd = c.no_fd;
    no_read = c.no_read;
    no_write = refl;
    no_connect = c.no_connect;
    no_accept = c.no_accept;
  },
  refl,
)

-- An operation on a closed socket fails its assertion.
assert_open-closed :
    {kernel : Kernel} (f : ℕ → Net kernel) (n m : Net kernel)
    → IsClosed n
    → assert_open n.socket.fd f ≡ some m
    → Silent n m
assert_open-closed f n m c h = absurd (cc (h, ap (λ o. assert_open o f) c.no_fd))

-- The step of an operation without an assertion.
some-Silent : {kernel : Kernel} (n x m : Net kernel) → Silent n x → some x ≡ some m → Silent n m
some-Silent n x m s h = let same : x ≡ m = cc in subst (λ y. Silent n y) same s

on_readable-Silent :
    {kernel : Kernel} (client : IoResult ℕ) (got : IoResult (List ℕ)) (n : Net kernel)
    → IsClosed n
    → Silent n (on_readable n.socket.pending_accept client got n)
unfolding on_readable finish_read
on_readable-Silent client got n c =
    subst (λ o. Silent n (on_readable o client got n)) (sym c.no_accept)
      (subst (λ o. Silent n (finish_read o got n)) (sym c.no_read) (c, refl))

on_writable-Silent :
    {kernel : Kernel} (so_error : ℕ) (count : IoResult ℕ) (n : Net kernel)
    → IsClosed n
    → Silent n (on_writable n.socket.pending_connect so_error count n)
unfolding on_writable finish_write
on_writable-Silent so_error count n c =
    subst (λ o. Silent n (on_writable o so_error count n)) (sym c.no_connect)
      (subst (λ o. Silent n (finish_write o count n)) (sym c.no_write) (c, refl))

step-Silent :
    {kernel : Kernel} (e : Event) (n m : Net kernel)
    → IsNoOpen e
    → IsClosed n
    → step e n ≡ some m
    → Silent n m
unfolding step
step-Silent (opens r) n m i c = absurd i
step-Silent (connects r x) n m i c = assert_open-closed _ n m c
step-Silent (waits_readable x) n m i c = assert_open-closed _ n m c
step-Silent (reads len r x) n m i c = assert_open-closed _ n m c
step-Silent (writes buf r x) n m i c = assert_open-closed _ n m c
step-Silent (accepts r x) n m i c = assert_open-closed _ n m c
step-Silent cancels_accept n m i c = some-Silent n _ m (cancel_accept-Silent n c)
step-Silent cancels_read n m i c = some-Silent n _ m (cancel_read-Silent n c)
step-Silent cancels_write n m i c = some-Silent n _ m (cancel_write-Silent n c)
step-Silent closes n m i c = some-Silent n _ m (close-Silent n)
step-Silent (is_readable client got) n m i c = some-Silent n _ m (on_readable-Silent client got n c)
step-Silent (is_writable so_error count) n m i c =
    some-Silent n _ m (on_writable-Silent so_error count n c)

run-replies :
    {kernel : Kernel} (es : List Event) (n : Net kernel)
    → All IsNoOpen es
    → IsClosed n
    → (run es n).replies ≡ n.replies
unfolding run
run-replies [] n i c = refl
run-replies {kernel = kernel} (e ∷ es) n i c = after (λ m j d. run-replies es m j d) (step e n) refl
  where
    after :
        ((m : Net kernel) → All IsNoOpen es → IsClosed m → (run es m).replies ≡ m.replies)
        → (o : Option (Net kernel)) → step e n ≡ o
        → (proceed (run es) n o).replies ≡ n.replies
    after rest none h = refl
    after rest (some m) h =
        let (closed, quiet) = step-Silent e n m i.0 c h in rest m i.1 closed ∙ quiet

-- After `close` a socket calls no callback, whatever was pending and whatever is asked of it or
-- reported to it, until it is opened again.
pub close-silences :
    {kernel : Kernel} (n : Net kernel) (es : List Event)
    → All IsNoOpen es
    → (run es (close n)).replies ≡ n.replies
close-silences n es i = run-replies es (close n) i (close-Silent n).0 ∙ (close-Silent n).1
