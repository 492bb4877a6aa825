-- ===== src/Examples/Tls.antt =====
-- Runs of a TLS socket on a state machine that sends and gets plain bytes: it takes two bytes of a
-- slice at a time, and its handshake is over when it has taken three.
use rust_task_runner.Common.{
  ℕ, ◌+◌, ◌≡◌, refl, Bool, true, false, List, [], ◌∷◌, ◌++◌, length, take, min, leb, not, pick,
  arith,
}
use rust_task_runner.SocketPosix.{IoResult, ok, err, eagain}
use rust_task_runner.TlsClientSocket.{
  ClientConnection, TlsClientSocket, done, received, feed_loop, handshake, flush_pending,
  send_outgoing, write_all, on_written, on_read, after_loop, fed, flushed, feed_one, read, pulled,
  disconnect,
}
use rust_task_runner.TlsClientSocket.Feed.{
  Returns, feed_loop-Returns, IsReading, Took, feed_loop-Took,
}
use rust_task_runner.TlsClientSocket.Steps.{
  Event, handshakes, reads, closes, has_read, has_written, step, run, answer_write, answer_read,
}
use rust_task_runner.TlsClientSocket.Answered.{callback, called, waiting, run-called}
use rust_task_runner.TlsClientSocket.Wire.{IsWriting, IsInOrder}
use rust_task_runner.TlsClientSocket.Wire.Run.{AllCalm, run-IsInOrder}

-- What is to be sent, what has been given out, what has been taken, and how much of it was read.
pub record Pipe : Type 0 where
  pub queue : List ℕ
  pub output : List ℕ
  pub input : List ℕ
  pub plain : List ℕ

abbrev has_bytes : List ℕ → Bool
has_bytes [] = false
has_bytes (b ∷ bs) = true

abbrev read_plain : List ℕ → IoResult (List ℕ)
read_plain [] = err eagain
read_plain (b ∷ bs) = ok (b ∷ bs)

abbrev pipe : ClientConnection
pipe = record {
  State = Pipe;
  wants_write = λ c. has_bytes c.queue;
  write_tls = λ c. (c.queue, record c { queue = []; output = c.output ++ c.queue });
  read_tls = λ slice c. (
    ok (min 2 (length slice)),
    record c {
      input = c.input ++ take (min 2 (length slice)) slice;
      plain = c.plain ++ take (min 2 (length slice)) slice;
    },
  );
  process_new_packets = λ c. (ok tt, c);
  is_handshaking = λ c. not (leb 3 (length c.input));
  reader = λ len c. (read_plain c.plain, record c { plain = [] });
  writer = λ bytes c. (ok tt, record c { queue = c.queue ++ bytes });
  send_close_notify = λ c. record c { queue = c.queue ++ 0 ∷ [] };
}

-- The hello of the client is queued.
abbrev new_pipe : Pipe
new_pipe = record { queue = 1 ∷ 2 ∷ []; output = []; input = []; plain = [] }

abbrev new_socket : TlsClientSocket pipe
new_socket = record { conn = new_pipe; writes = []; reads = []; replies = []; wire = [] }

feed_loop-Returns_example : Returns pipe (feed_loop pipe 3 (4 ∷ 5 ∷ 6 ∷ []) new_pipe)
feed_loop-Returns_example = feed_loop-Returns pipe 3 (4 ∷ 5 ∷ 6 ∷ []) new_pipe (omega arith)

pipe-IsReading : IsReading pipe (λ c. c.input)
pipe-IsReading = record {
  takes = λ slice c n h. let all : min 2 (length slice) ≡ n = cc in rw all refl;
  fails = λ slice c e h. absurd (cc h);
  processes = λ c. refl;
}

feed_loop-Took_example :
    Took pipe (λ c. c.input) [] (4 ∷ 5 ∷ 6 ∷ []) (feed_loop pipe 3 (4 ∷ 5 ∷ 6 ∷ []) new_pipe)
feed_loop-Took_example =
    feed_loop-Took pipe (λ c. c.input) pipe-IsReading 3 (4 ∷ 5 ∷ 6 ∷ []) new_pipe (omega arith)

-- The transport takes the hello in two pieces, and the answer of the server comes in two.
abbrev greeting : List Event
greeting =
    handshakes 7
    ∷ has_written 0 (ok 1)
    ∷ has_written 0 (ok 1)
    ∷ has_read 0 (ok (4 ∷ []))
    ∷ has_read 0 (ok (5 ∷ 6 ∷ []))
    ∷ reads 16 8
    ∷ reads 16 9
    ∷ closes
    ∷ []

run-called_example :
    called (callback 9) (run greeting new_socket) + waiting (callback 9) (run greeting new_socket)
    ≡ 1
run-called_example = run-called (callback 9) greeting new_socket

pipe-IsWriting : IsWriting pipe (λ c. c.output)
pipe-IsWriting = record {
  gives = λ c. refl;
  reads = λ slice c. refl;
  processes = λ c. refl;
  pulls = λ len c. refl;
  queues = λ bytes c. refl;
  notifies = λ c. refl;
}

abbrev hello : List Event
hello = handshakes 7 ∷ has_written 0 (ok 1) ∷ has_written 0 (ok 1) ∷ []

hello-AllCalm : AllCalm hello new_socket
unfolding step handshake flush_pending send_outgoing write_all answer_write on_written pick
hello-AllCalm = (tt, (omega arith, (omega arith, tt)))

run-IsInOrder_example : IsInOrder (λ (c : Pipe). c.output) (run hello new_socket)
run-IsInOrder_example =
    run-IsInOrder pipe (λ c. c.output) pipe-IsWriting hello new_socket hello-AllCalm refl

test_greeting :
    (run greeting new_socket).replies ≡ done 7 (ok tt) ∷ received 8 (ok (4 ∷ 5 ∷ 6 ∷ [])) ∷ []
unfolding step handshake flush_pending send_outgoing write_all answer_write on_written pick
    answer_read on_read after_loop fed feed_loop flushed feed_one read pulled disconnect
test_greeting = refl
