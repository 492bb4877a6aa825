-- ===== src/TlsClientSocket/Answered.antt =====
-- Whether the callbacks of a TLS socket (rust_net/tls_client_socket.rs) are called, over histories.
use rust_task_runner.Common.{
  ℕ, ◌+◌, ◌≡◌, refl, Bool-cases, List, [], ◌∷◌, ◌++◌, Option-cases, inl, inr, length, leb, ◌==◌,
  take, drop, pick, total, total-append, total-pick, same, arith,
}
use rust_task_runner.SocketPosix.{IoResult, ok, err, eagain}
use rust_task_runner.TlsClientSocket.{
  ClientConnection, TlsClientSocket, Done, handshake_flushed, read_flushed, written, closing, Fed,
  handshake_fed, read_fed, Reply, done, received, sent, disconnects, PendingWrite, reply, feed_one,
  write_all, pulled, flushed, send_outgoing, outgoing, flush_pending, handshake, read, write,
  queued, disconnect, fed, after_loop, on_read, on_written,
}
use rust_task_runner.TlsClientSocket.Feed.{feed_loop-Returns}
use rust_task_runner.TlsClientSocket.Steps.{
  Event, handshakes, reads, writes, closes, has_read, has_written, answer_read, answer_write, step,
  run,
}

-- Who is to be called: a callback of a program, or `disconnect` of the transport.
pub data Owner : Type 0 where
  callback : ℕ → Owner
  transport : Owner

abbrev pub replied : Reply → Owner
replied (done cb _) = callback cb
replied (received cb _) = callback cb
replied (sent cb _) = callback cb
replied disconnects = transport

abbrev flushing : Done → Owner
flushing (handshake_flushed cb) = callback cb
flushing (read_flushed _ cb) = callback cb
flushing (written _ cb) = callback cb
flushing closing = transport

abbrev feeding : Fed → Owner
feeding (handshake_fed cb) = callback cb
feeding (read_fed _ cb) = callback cb

-- 1 where it is the owner `o`.
abbrev pub is : Owner → Owner → ℕ
is (callback cb) (callback x) = same cb x
is transport transport = 1
is _ _ = 0

-- How often `o` has been called.
abbrev pub called : {tls : ClientConnection} → Owner → TlsClientSocket tls → ℕ
called o s = total (λ r. is o (replied r)) s.replies

-- How often `o` waits for an answer of the transport.
abbrev pub waiting : {tls : ClientConnection} → Owner → TlsClientSocket tls → ℕ
waiting o s =
    total (λ (w : PendingWrite). is o (flushing w.next)) s.writes
    + total (λ f. is o (feeding f)) s.reads

-- How often a history asks for a call of `o`.
abbrev pub asks : Owner → Event → ℕ
asks o (handshakes cb) = is o (callback cb)
asks o (reads _ cb) = is o (callback cb)
asks o (writes _ cb) = is o (callback cb)
asks o closes = is o transport
asks o _ = 0

module _ {tls : ClientConnection} (o : Owner) where
  abbrev load : TlsClientSocket tls → ℕ
  load s = called o s + waiting o s

  reply-load : (r : Reply) (s : TlsClientSocket tls) → load (reply r s) ≡ load s + is o (replied r)
  reply-load r s = omega (arith, total-append (λ x. is o (replied x)) s.replies (r ∷ []))

  feed_one-load :
      (next : Fed) (s : TlsClientSocket tls) → load (feed_one next s) ≡ load s + is o (feeding next)
  unfolding feed_one
  feed_one-load next s = omega (arith, total-append (λ f. is o (feeding f)) s.reads (next ∷ []))

  write_all-load :
      (buf : List ℕ) (next : Done) (s : TlsClientSocket tls)
      → load (write_all buf next s) ≡ load s + is o (flushing next)
  unfolding write_all
  write_all-load buf next s = omega (
    arith,
    total-append (λ (w : PendingWrite). is o (flushing w.next)) s.writes
        (record { buf = buf; next = next } ∷ []),
  )

  pulled-load :
      (len cb : ℕ) (r : IoResult (List ℕ)) (s : TlsClientSocket tls)
      → load (pulled len cb r s) ≡ load s + is o (callback cb)
  unfolding pulled
  pulled-load len cb (ok bytes) s = reply-load (received cb (ok bytes)) s
  pulled-load len cb (err e) s = elim (Bool-cases (e == eagain)) [
    | inl x ↦ rw x (feed_one-load (read_fed len cb) s)
    | inr x ↦ rw x (reply-load (received cb (err e)) s)
  ]

  read-load :
      (len cb : ℕ) (s : TlsClientSocket tls) → load (read len cb s) ≡ load s + is o (callback cb)
  unfolding read
  read-load len cb s = pulled-load len cb (tls.reader len s.conn).0 _

  flushed-load :
      (next : Done) (r : IoResult Unit) (s : TlsClientSocket tls)
      → load (flushed next r s) ≡ load s + is o (flushing next)
  unfolding flushed
  flushed-load (handshake_flushed cb) (ok _) s = elim (Bool-cases (tls.is_handshaking s.conn)) [
    | inl x ↦ rw x (feed_one-load (handshake_fed cb) s)
    | inr x ↦ rw x (reply-load (done cb (ok tt)) s)
  ]
  flushed-load (handshake_flushed cb) (err e) s = reply-load (done cb (err e)) s
  flushed-load (read_flushed len cb) (ok _) s = read-load len cb s
  flushed-load (read_flushed len cb) (err e) s = reply-load (received cb (err e)) s
  flushed-load (written len cb) (ok _) s = reply-load (sent cb (ok len)) s
  flushed-load (written len cb) (err e) s = reply-load (sent cb (err e)) s
  flushed-load closing r s = reply-load disconnects s

  send_outgoing-load :
      (buf : List ℕ) (next : Done) (s : TlsClientSocket tls)
      → load (send_outgoing buf next s) ≡ load s + is o (flushing next)
  unfolding send_outgoing
  send_outgoing-load [] next s = flushed-load next (ok tt) s
  send_outgoing-load (b ∷ bs) next s = write_all-load (b ∷ bs) next s

  flush_pending-load :
      (next : Done) (s : TlsClientSocket tls)
      → load (flush_pending next s) ≡ load s + is o (flushing next)
  unfolding flush_pending
  flush_pending-load next s = send_outgoing-load (outgoing tls s.conn).0 next _

  queued-load :
      (len cb : ℕ) (r : IoResult Unit) (s : TlsClientSocket tls)
      → load (queued len cb r s) ≡ load s + is o (callback cb)
  unfolding queued
  queued-load len cb (ok _) s = flush_pending-load (written len cb) s
  queued-load len cb (err e) s = reply-load (sent cb (err e)) s

  fed-load :
      (next : Fed) (r : IoResult Unit) (s : TlsClientSocket tls)
      → load (fed next r s) ≡ load s + is o (feeding next)
  unfolding fed handshake
  fed-load (handshake_fed cb) (ok _) s = flush_pending-load (handshake_flushed cb) s
  fed-load (handshake_fed cb) (err e) s = reply-load (done cb (err e)) s
  fed-load (read_fed len cb) (ok _) s = flush_pending-load (read_flushed len cb) s
  fed-load (read_fed len cb) (err e) s = reply-load (received cb (err e)) s

  -- The loop has a result, so that a chunk is always followed by the next step.
  on_read-load :
      (next : Fed) (r : IoResult (List ℕ)) (s : TlsClientSocket tls)
      → load (on_read next r s) ≡ load s + is o (feeding next)
  unfolding on_read after_loop
  on_read-load next (ok []) s = fed-load next _ s
  on_read-load next (ok (b ∷ bs)) s =
      let (r, x) = feed_loop-Returns tls (length (b ∷ bs)) (b ∷ bs) s.conn (omega arith) in
      rw x (fed-load next r _)
  on_read-load next (err e) s = fed-load next (err e) s

  on_written-load :
      (w : PendingWrite) (r : IoResult ℕ) (s : TlsClientSocket tls)
      → load (on_written w r s) ≡ load s + is o (flushing w.next)
  unfolding on_written
  on_written-load w (err e) s = flushed-load w.next (err e) s
  on_written-load w (ok n) s = elim (Bool-cases (leb (length w.buf) n)) [
    | inl x ↦ rw x (flush_pending-load w.next _)
    | inr x ↦
        rw x (write_all-load (drop n w.buf) w.next (record s { wire = s.wire ++ take n w.buf }))
  ]

  answer_read-load :
      (k : ℕ) (r : IoResult (List ℕ)) (s : TlsClientSocket tls)
      → load (answer_read (pick k s.reads) r s) ≡ load s
  unfolding answer_read
  answer_read-load k r s = elim (Option-cases (pick k s.reads)) [
    | inl x ↦ rw x refl
    | inr ((next, rest), x) ↦ rw x (
        omega (
          arith,
          on_read-load next r (record s { reads = rest }),
          total-pick (λ f. is o (feeding f)) k s.reads x,
        ))
  ]

  answer_write-load :
      (k : ℕ) (r : IoResult ℕ) (s : TlsClientSocket tls)
      → load (answer_write (pick k s.writes) r s) ≡ load s
  unfolding answer_write
  answer_write-load k r s = elim (Option-cases (pick k s.writes)) [
    | inl x ↦ rw x refl
    | inr ((w, rest), x) ↦ rw x (
        omega (
          arith,
          on_written-load w r (record s { writes = rest }),
          total-pick (λ (p : PendingWrite). is o (flushing p.next)) k s.writes x,
        ))
  ]

  step-load : (e : Event) (s : TlsClientSocket tls) → load (step e s) ≡ load s + asks o e
  unfolding step handshake write disconnect
  step-load (handshakes cb) s = flush_pending-load (handshake_flushed cb) s
  step-load (reads len cb) s = read-load len cb s
  step-load (writes buf cb) s = queued-load (length buf) cb (tls.writer buf s.conn).0 _
  step-load closes s = flush_pending-load closing _
  step-load (has_read k r) s = omega (arith, answer_read-load k r s)
  step-load (has_written k r) s = omega (arith, answer_write-load k r s)

-- No callback is lost and none is called twice: whatever the state machine does and whatever the
-- transport answers, in whatever order, a callback is called and waits at calls of the transport
-- together exactly as often as it was given to `handshake`, `read` or `write`, and the transport's
-- `disconnect` as often as `disconnect` was called.
pub run-called :
    {tls : ClientConnection} (o : Owner) (es : List Event) (s : TlsClientSocket tls)
    → called o (run es s) + waiting o (run es s) ≡ called o s + waiting o s + total (asks o) es
run-called o [] s = omega arith
run-called o (e ∷ es) s = omega (arith, run-called o es (step e s), step-load o e s)
