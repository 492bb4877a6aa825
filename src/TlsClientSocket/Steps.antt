-- ===== src/TlsClientSocket/Steps.antt =====
-- Histories of a TLS socket (rust_net/tls_client_socket.rs): its methods are called, and its
-- transport answers the calls that are pending, in any order.
use rust_task_runner.Common.{ℕ, List, [], ◌∷◌, Option, none, some, pick}
use rust_task_runner.SocketPosix.{IoResult}
use rust_task_runner.TlsClientSocket.{
  ClientConnection, TlsClientSocket, PendingWrite, Fed, handshake, read, write, disconnect, on_read,
  on_written,
}

-- The transport answers its call at a place of the list of those that are pending.
pub data Event : Type 0 where
  handshakes : ℕ → Event
  reads : ℕ → ℕ → Event
  writes : List ℕ → ℕ → Event
  closes : Event
  has_read : ℕ → IoResult (List ℕ) → Event
  has_written : ℕ → IoResult ℕ → Event

module _ {tls : ClientConnection} where
  unfoldable pub answer_read :
      Option (Fed × List Fed) → IoResult (List ℕ) → TlsClientSocket tls → TlsClientSocket tls
  unfolding on_read
  answer_read none r s = s
  answer_read (some (next, rest)) r s = on_read next r (record s { reads = rest })

  unfoldable pub answer_write :
      Option (PendingWrite × List PendingWrite)
      → IoResult ℕ
      → TlsClientSocket tls
      → TlsClientSocket tls
  unfolding on_written
  answer_write none r s = s
  answer_write (some (w, rest)) r s = on_written w r (record s { writes = rest })

  unfoldable pub step : Event → TlsClientSocket tls → TlsClientSocket tls
  unfolding handshake read write disconnect answer_read answer_write pick
  step (handshakes cb) s = handshake cb s
  step (reads len cb) s = read len cb s
  step (writes buf cb) s = write buf cb s
  step closes s = disconnect s
  step (has_read k r) s = answer_read (pick k s.reads) r s
  step (has_written k r) s = answer_write (pick k s.writes) r s

  abbrev pub run : List Event → TlsClientSocket tls → TlsClientSocket tls
  run [] s = s
  run (e ∷ es) s = run es (step e s)
