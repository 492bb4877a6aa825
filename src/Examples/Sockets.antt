-- ===== src/Examples/Sockets.antt =====
-- Runs of a socket.
use rust_task_runner.Common.{
  ℕ_discrete, ℕ, ◌+◌, ◌≡◌, refl, false, true, arith, List, [], ◌∷◌, ◌++◌, none, some, total,
}
use rust_task_runner.IoTaskRunner.{
  Kernel, IoTaskRunner, Flags, arm_epoll, ok, watch_file_descriptor, stop_watching_file_descriptor,
  unregister_fd,
}
use rust_task_runner.SocketPosix
use rust_task_runner.SocketPosix.{Net, eagain, read_up_to, Reply, received, IoResult}
use rust_task_runner.SocketPosix.Steps.{Event, reads, cancels_read, is_readable, fresh, step, run}
use rust_task_runner.SocketPosix.Replies.{answers, waiting}
use rust_task_runner.SocketPosix.Answered.{asked_in, given_up_in, sum_over, run-answers}
use rust_task_runner.SocketPosix.Closing.{close-silences}
use rust_task_runner.SocketPosix.Address.{
  SocketAddr, v4, to_sockaddr, from_sockaddr, from_sockaddr-to_sockaddr,
}
use rust_task_runner.SocketPosix.Notify
use rust_task_runner.SocketPosix.Notify.{Calls}
use rust_task_runner.SocketPosix.Watched.{answer, run-answers_ready}

abbrev willing : Kernel
willing = record { State = ℕ; epoll_ctl = λ op fd flags calls. (ok, calls + 1) }

abbrev idle_runner : IoTaskRunner willing
idle_runner = record {
  wake_fd = 3;
  tasks = [];
  delayed_tasks = [];
  watches = λ fd. none;
  generation_counter = 0;
  shutdown = false;
  token = 0;
  monitored = false;
  epoll = 0;
}

-- A read that finds nothing and is answered when the socket becomes readable, twice.
abbrev late_data : List Event
late_data =
    reads 16 (SocketPosix.err eagain) 5
    ∷ is_readable (SocketPosix.err eagain) (SocketPosix.ok (104 ∷ 105 ∷ []))
    ∷ is_readable (SocketPosix.err eagain) (SocketPosix.ok [])
    ∷ []

run-answers_example :
    total (answers 5) (run late_data (fresh 1 (some 8) idle_runner)).replies
      + waiting 5 (run late_data (fresh 1 (some 8) idle_runner))
      + given_up_in 5 late_data (fresh 1 (some 8) idle_runner)
    ≡ asked_in 5 late_data (fresh 1 (some 8) idle_runner)
run-answers_example = run-answers 1 (some 8) idle_runner late_data 5

test_late_data :
    (run late_data (fresh 1 (some 8) idle_runner)).replies
    ≡ received 5 (SocketPosix.ok (104 ∷ 105 ∷ [])) ∷ []
unfolding run step SocketPosix.read_socket SocketPosix.arm_read SocketPosix.on_readable
    SocketPosix.finish_read watch_file_descriptor stop_watching_file_descriptor unregister_fd
test_late_data = refl

test_asked : asked_in 5 late_data (fresh 1 (some 8) idle_runner) ≡ 1
unfolding sum_over step SocketPosix.read_socket SocketPosix.arm_read SocketPosix.on_readable
    SocketPosix.finish_read watch_file_descriptor stop_watching_file_descriptor unregister_fd
test_asked = refl

-- A read that waits gives way to a later one.
abbrev two_reads : List Event
two_reads =
    reads 16 (SocketPosix.err eagain) 5 ∷ reads 16 (SocketPosix.err eagain) 6 ∷ cancels_read ∷ []

test_given_up : given_up_in 5 two_reads (fresh 1 (some 8) idle_runner) ≡ 1
unfolding sum_over step SocketPosix.read_socket SocketPosix.arm_read SocketPosix.cancel_read
    SocketPosix.stop_read watch_file_descriptor stop_watching_file_descriptor unregister_fd
test_given_up = refl

-- A read waits when the socket is closed.
abbrev with_read : Net willing
with_read = run (reads 16 (SocketPosix.err eagain) 5 ∷ []) (fresh 1 (some 8) idle_runner)

close-silences_example :
    (run
      (is_readable (SocketPosix.ok 9) (SocketPosix.ok []) ∷ cancels_read ∷ [])
      (SocketPosix.close with_read)).replies
    ≡ with_read.replies
close-silences_example =
    close-silences with_read
      (is_readable (SocketPosix.ok 9) (SocketPosix.ok []) ∷ cancels_read ∷ []) (tt, (tt, tt))

abbrev localhost : SocketAddr
localhost = v4 (record { a = 127; b = 0; c = 0; d = 1 }) 8080

from_sockaddr-to_sockaddr_example :
    from_sockaddr true (to_sockaddr true localhost) ≡ SocketPosix.ok localhost
from_sockaddr-to_sockaddr_example =
    from_sockaddr-to_sockaddr true localhost
      (omega arith, omega arith, omega arith, omega arith, omega arith)

-- A read that waits, is cancelled and is asked for again.
abbrev asked_again : List Notify.Event
asked_again =
    Notify.reads 16 (SocketPosix.err eagain) 5
    ∷ Notify.cancels
    ∷ Notify.reads 16 (SocketPosix.err eagain) 6
    ∷ []

abbrev two_bytes : Calls
two_bytes = record {
  client = SocketPosix.err eagain;
  got = SocketPosix.ok (104 ∷ 105 ∷ []);
  so_error = 0;
  count = SocketPosix.err eagain;
}

willing-accepts : (fd : ℕ) (flags : Flags) (k : ℕ) → (arm_epoll willing fd flags k).0 ≡ true
willing-accepts fd flags k = refl

asked_again-waits :
    (Notify.run 8 asked_again (fresh 1 (some 8) idle_runner)).socket.pending_read
    ≡ some (read_up_to 16 6)
unfolding Notify.step SocketPosix.read_socket SocketPosix.arm_read SocketPosix.cancel_read
    SocketPosix.stop_read watch_file_descriptor stop_watching_file_descriptor unregister_fd
asked_again-waits = refl

run-answers_ready_example :
    (Notify.step 8
      (Notify.is_ready false two_bytes)
      (Notify.run 8 asked_again (fresh 1 (some 8) idle_runner))).replies
    ≡ (Notify.run 8 asked_again (fresh 1 (some 8) idle_runner)).replies
      ++ answer (read_up_to 16 6) two_bytes.got ∷ []
run-answers_ready_example =
    run-answers_ready willing-accepts 1 8 idle_runner refl asked_again (read_up_to 16 6) false
      two_bytes asked_again-waits

-- A write that waits on the same descriptor replaces the watch of the read: bytes that come are not
-- read.
abbrev with_write : Net willing
with_write =
    SocketPosix.write_socket 8 (1 ∷ []) (SocketPosix.err eagain) 7
      (Notify.run 8 asked_again (fresh 1 (some 8) idle_runner))

test_with_write : (Notify.step 8 (Notify.is_ready false two_bytes) with_write).replies ≡ []
unfolding Notify.step Notify.notify SocketPosix.read_socket SocketPosix.write_socket
    SocketPosix.arm_read SocketPosix.arm_write SocketPosix.cancel_read SocketPosix.stop_read
    SocketPosix.on_readable SocketPosix.on_writable SocketPosix.finish_read watch_file_descriptor
    stop_watching_file_descriptor unregister_fd ℕ_discrete
test_with_write = refl
