-- ===== src/TlsClientSocket.antt =====
-- rust_net/tls_client_socket.rs over a transport and a TLS state machine (`rustls`) that are
-- parameters. A call of the transport is pending until the transport answers it; what the closure
-- of the call does next is data, `Done` behind a flush and `Fed` behind a read. Callbacks are named
-- by numbers. An answer within the call is one that comes at once.
pub mod Steps
pub mod Feed
pub mod Answered
pub mod Wire
use rust_task_runner.Common.{
  ℕ, zero, suc, ◌+◌, Bool, true, false, List, [], ◌∷◌, ◌++◌, Option, none, some, leb, ◌==◌,
  if◌then◌else◌, length, take, drop,
}
use rust_task_runner.SocketPosix.{IoResult, ok, err, eagain}

-- `ClientConnection`: `write_tls` into a vector does not fail, and `read_tls` returns how much of
-- the slice it took.
pub record ClientConnection : Type 1 where
  pub State : Type 0
  pub wants_write : State → Bool
  pub write_tls : State → List ℕ × State
  pub read_tls : List ℕ → State → IoResult ℕ × State
  pub process_new_packets : State → IoResult Unit × State
  pub is_handshaking : State → Bool
  pub reader : ℕ → State → IoResult (List ℕ) × State
  pub writer : List ℕ → State → IoResult Unit × State
  pub send_close_notify : State → State

abbrev pub read_chunk : ℕ
read_chunk = 16384

-- `ErrorKind::UnexpectedEof`, which has no number of the system.
abbrev pub unexpected_eof : ℕ
unexpected_eof = 0

-- What a flush is followed by: in a handshake, in a read, in a write, and in `disconnect`.
pub data Done : Type 0 where
  handshake_flushed : ℕ → Done
  read_flushed : ℕ → ℕ → Done
  written : ℕ → ℕ → Done
  closing : Done

-- What a chunk of the transport is followed by: in a handshake, and in a read.
pub data Fed : Type 0 where
  handshake_fed : ℕ → Fed
  read_fed : ℕ → ℕ → Fed

-- The call of a callback, or of `disconnect` of the transport.
pub data Reply : Type 0 where
  done : ℕ → IoResult Unit → Reply
  received : ℕ → IoResult (List ℕ) → Reply
  sent : ℕ → IoResult ℕ → Reply
  disconnects : Reply

pub record PendingWrite : Type 0 where
  pub buf : List ℕ
  pub next : Done

-- `writes` and `reads` are the calls of the transport that are not answered; `wire` is what it has
-- taken of the writes.
pub record TlsClientSocket (tls : ClientConnection) : Type 0 where
  pub conn : tls.State
  pub writes : List PendingWrite
  pub reads : List Fed
  pub replies : List Reply
  pub wire : List ℕ

module _ (tls : ClientConnection) where
  -- What `flush_pending` takes from the connection.
  abbrev pub outgoing : tls.State → List ℕ × tls.State
  outgoing c = if tls.wants_write c then tls.write_tls c else ([], c)

  -- One turn of the loop of `feed_one`, by what `read_tls` returned and where `rest` is the loop on
  -- what is left of the slice: nothing is left to do, or an error stops the loop.
  abbrev pub after_packets :
      (tls.State → Option (IoResult Unit) × tls.State)
      → IoResult Unit × tls.State
      → Option (IoResult Unit) × tls.State
  after_packets rest (ok _, c) = rest c
  after_packets rest (err e, c) = (some (err e), c)

  abbrev pub after_read_tls :
      (ℕ → tls.State → Option (IoResult Unit) × tls.State)
      → IoResult ℕ × tls.State
      → Option (IoResult Unit) × tls.State
  after_read_tls rest (ok zero, c) = (some (ok tt), c)
  after_read_tls rest (ok (suc n), c) = after_packets (rest (suc n)) (tls.process_new_packets c)
  after_read_tls rest (err e, c) = (some (err e), c)

  -- The loop, which would be `none` where the fuel is used up.
  unfoldable pub feed_loop : ℕ → List ℕ → tls.State → Option (IoResult Unit) × tls.State
  feed_loop fuel [] c = (some (ok tt), c)
  feed_loop zero (b ∷ bs) c = (none, c)
  feed_loop (suc fuel) (b ∷ bs) c =
      after_read_tls (λ n c'. feed_loop fuel (drop n (b ∷ bs)) c') (tls.read_tls (b ∷ bs) c)

module _ {tls : ClientConnection} where
  abbrev pub reply : Reply → TlsClientSocket tls → TlsClientSocket tls
  reply r s = record s { replies = s.replies ++ r ∷ [] }

  -- `feed_one`: it reads from the transport.
  unfoldable pub feed_one : Fed → TlsClientSocket tls → TlsClientSocket tls
  feed_one next s = record s { reads = s.reads ++ next ∷ [] }

  -- `StreamSocket::read`: the plaintext that there is, or a chunk of the transport first.
  unfoldable pub pulled : ℕ → ℕ → IoResult (List ℕ) → TlsClientSocket tls → TlsClientSocket tls
  unfolding feed_one
  pulled len cb (ok bytes) s = reply (received cb (ok bytes)) s
  pulled len cb (err e) s =
      if e == eagain then feed_one (read_fed len cb) s else reply (received cb (err e)) s

  unfoldable pub read : ℕ → ℕ → TlsClientSocket tls → TlsClientSocket tls
  unfolding pulled
  read len cb s = let (r, c) = tls.reader len s.conn in pulled len cb r (record s { conn = c })

  -- The closures behind a flush.
  unfoldable pub flushed : Done → IoResult Unit → TlsClientSocket tls → TlsClientSocket tls
  unfolding feed_one read
  flushed (handshake_flushed cb) (ok _) s =
      if tls.is_handshaking s.conn then feed_one (handshake_fed cb) s else reply (done cb (ok tt)) s
  flushed (handshake_flushed cb) (err e) s = reply (done cb (err e)) s
  flushed (read_flushed len cb) (ok _) s = read len cb s
  flushed (read_flushed len cb) (err e) s = reply (received cb (err e)) s
  flushed (written len cb) (ok _) s = reply (sent cb (ok len)) s
  flushed (written len cb) (err e) s = reply (sent cb (err e)) s
  flushed closing r s = reply disconnects s

  -- `write_all`: it writes to the transport.
  unfoldable pub write_all : List ℕ → Done → TlsClientSocket tls → TlsClientSocket tls
  write_all buf next s = record s { writes = s.writes ++ record { buf = buf; next = next } ∷ [] }

  -- `flush_pending`, by the bytes that are to be sent.
  unfoldable pub send_outgoing : List ℕ → Done → TlsClientSocket tls → TlsClientSocket tls
  unfolding flushed write_all
  send_outgoing [] next s = flushed next (ok tt) s
  send_outgoing (b ∷ bs) next s = write_all (b ∷ bs) next s

  unfoldable pub flush_pending : Done → TlsClientSocket tls → TlsClientSocket tls
  unfolding send_outgoing
  flush_pending next s =
      let (buf, c) = outgoing tls s.conn in send_outgoing buf next (record s { conn = c })

  -- `handshake`, which is `drive_handshake`.
  unfoldable pub handshake : ℕ → TlsClientSocket tls → TlsClientSocket tls
  unfolding flush_pending
  handshake cb s = flush_pending (handshake_flushed cb) s

  -- `StreamSocket::write`
  unfoldable pub queued : ℕ → ℕ → IoResult Unit → TlsClientSocket tls → TlsClientSocket tls
  unfolding flush_pending
  queued len cb (ok _) s = flush_pending (written len cb) s
  queued len cb (err e) s = reply (sent cb (err e)) s

  unfoldable pub write : List ℕ → ℕ → TlsClientSocket tls → TlsClientSocket tls
  unfolding queued
  write buf cb s =
      let (r, c) = tls.writer buf s.conn in queued (length buf) cb r (record s { conn = c })

  unfoldable pub disconnect : TlsClientSocket tls → TlsClientSocket tls
  unfolding flush_pending
  disconnect s = flush_pending closing (record s { conn = tls.send_close_notify s.conn })

  -- The closures behind a chunk that `feed_one` has read.
  unfoldable pub fed : Fed → IoResult Unit → TlsClientSocket tls → TlsClientSocket tls
  unfolding flush_pending handshake
  fed (handshake_fed cb) (ok _) s = handshake cb s
  fed (handshake_fed cb) (err e) s = reply (done cb (err e)) s
  fed (read_fed len cb) (ok _) s = flush_pending (read_flushed len cb) s
  fed (read_fed len cb) (err e) s = reply (received cb (err e)) s

  -- A loop that did not end would call nothing.
  unfoldable pub after_loop :
      Fed → Option (IoResult Unit) → TlsClientSocket tls → TlsClientSocket tls
  unfolding fed
  after_loop next none s = s
  after_loop next (some r) s = fed next r s

  -- The closure of `feed_one`, by what the transport answered. A turn of the loop takes a byte or
  -- more, so that the length of the chunk is enough fuel.
  unfoldable pub on_read : Fed → IoResult (List ℕ) → TlsClientSocket tls → TlsClientSocket tls
  unfolding fed after_loop feed_loop
  on_read next (ok []) s = fed next (err unexpected_eof) s
  on_read next (ok (b ∷ bs)) s =
      let (r, c) = feed_loop tls (length (b ∷ bs)) (b ∷ bs) s.conn in
      after_loop next r (record s { conn = c })
  on_read next (err e) s = fed next (err e) s

  -- The closure of `write_all`, by what the transport answered: it has taken the first `n` bytes.
  unfoldable pub on_written : PendingWrite → IoResult ℕ → TlsClientSocket tls → TlsClientSocket tls
  unfolding flush_pending write_all flushed
  on_written w (err e) s = flushed w.next (err e) s
  on_written w (ok n) s =
      let s' = record s { wire = s.wire ++ take n w.buf } in
      if leb (length w.buf) n then flush_pending w.next s' else write_all (drop n w.buf) w.next s'
