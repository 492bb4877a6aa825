-- ===== src/TlsClientSocket/Wire.antt =====
-- What goes over the transport of a TLS socket (rust_net/tls_client_socket.rs), operation by
-- operation.
pub mod Run
use rust_task_runner.Common.{
  ℕ, zero, suc, ◌+◌, ◌≤◌, ◌≡◌, refl, sym, ◌∙◌, ap, Bool, true, false, Bool-cases, List, [], ◌∷◌,
  ◌++◌, append-nil, append_assoc, Option, none, some, Option-cases, ◌⊎◌, inl, inr, length, leb,
  leb→le, ◌==◌, take, drop, take-append-drop, pick, arith,
}
use rust_task_runner.SocketPosix.{IoResult, ok, err, eagain}
use rust_task_runner.TlsClientSocket.{
  ClientConnection, TlsClientSocket, Done, handshake_flushed, read_flushed, written, closing, Fed,
  handshake_fed, read_fed, PendingWrite, feed_one, after_read_tls, after_packets, write_all, pulled,
  flushed, send_outgoing, outgoing, flush_pending, handshake, read, write, queued, disconnect, fed,
  after_loop, on_read, on_written, feed_loop,
}
use rust_task_runner.TlsClientSocket.Steps.{
  Event, handshakes, reads, writes, closes, has_read, has_written, answer_read, answer_write, step,
  run,
}

-- The bytes that a state machine has given out in all: only `write_tls` gives any.
pub record IsWriting (tls : ClientConnection) (output : tls.State → List ℕ) : Type 0 where
  pub gives : (c : tls.State) → output (tls.write_tls c).1 ≡ output c ++ (tls.write_tls c).0
  pub reads : (slice : List ℕ) (c : tls.State) → output (tls.read_tls slice c).1 ≡ output c
  pub processes : (c : tls.State) → output (tls.process_new_packets c).1 ≡ output c
  pub pulls : (len : ℕ) (c : tls.State) → output (tls.reader len c).1 ≡ output c
  pub queues : (bytes : List ℕ) (c : tls.State) → output (tls.writer bytes c).1 ≡ output c
  pub notifies : (c : tls.State) → output (tls.send_close_notify c) ≡ output c

abbrev pub bytes_of : List PendingWrite → List ℕ
bytes_of [] = []
bytes_of (w ∷ ws) = w.buf ++ bytes_of ws

-- What the transport has taken, and then what waits, is what was given out.
abbrev pub IsInOrder :
    {tls : ClientConnection} → (tls.State → List ℕ) → TlsClientSocket tls → Type 0
IsInOrder output s = s.wire ++ bytes_of s.writes ≡ output s.conn

bytes_of-append : (xs ys : List PendingWrite) → bytes_of (xs ++ ys) ≡ bytes_of xs ++ bytes_of ys
bytes_of-append [] ys = refl
bytes_of-append (x ∷ xs) ys = ap (λ b. x.buf ++ b) (bytes_of-append xs ys) ∙ rw append_assoc refl

module _ (tls : ClientConnection) (output : tls.State → List ℕ) (laws : IsWriting tls output) where
  outgoing-output : (c : tls.State) → output (outgoing tls c).1 ≡ output c ++ (outgoing tls c).0
  outgoing-output c = elim (Bool-cases (tls.wants_write c)) [
    | inl x ↦ rw x (laws.gives c)
    | inr x ↦ rw x (sym (append-nil (output c)))
  ]

  after_packets-output :
      (rest : tls.State → Option (IoResult Unit) × tls.State) (p : IoResult Unit × tls.State)
      → ((c : tls.State) → output (rest c).1 ≡ output c)
      → output (after_packets tls rest p).1 ≡ output p.1
  after_packets-output rest (ok _, c) h = h c
  after_packets-output rest (err e, c) h = refl

  after_read_tls-output :
      (rest : ℕ → tls.State → Option (IoResult Unit) × tls.State) (p : IoResult ℕ × tls.State)
      → ((n : ℕ) (c : tls.State) → output (rest n c).1 ≡ output c)
      → output (after_read_tls tls rest p).1 ≡ output p.1
  after_read_tls-output rest (ok zero, c) h = refl
  after_read_tls-output rest (ok (suc n), c) h =
      after_packets-output (rest (suc n)) (tls.process_new_packets c) (h (suc n)) ∙ laws.processes c
  after_read_tls-output rest (err e, c) h = refl

  pub feed_loop-output :
      (fuel : ℕ) (slice : List ℕ) (c : tls.State) → output (feed_loop tls fuel slice c).1 ≡ output c
  unfolding feed_loop
  feed_loop-output fuel [] c = refl
  feed_loop-output zero (b ∷ bs) c = refl
  feed_loop-output (suc fuel) (b ∷ bs) c =
      after_read_tls-output (λ n c'. feed_loop tls fuel (drop n (b ∷ bs)) c')
        (tls.read_tls (b ∷ bs) c) (λ n c'. feed_loop-output fuel (drop n (b ∷ bs)) c')
      ∙ laws.reads (b ∷ bs) c

  pulled-IsInOrder :
      (len cb : ℕ) (r : IoResult (List ℕ)) (s : TlsClientSocket tls)
      → IsInOrder output s
      → IsInOrder output (pulled len cb r s)
  unfolding pulled feed_one
  pulled-IsInOrder len cb (ok bytes) s h = h
  pulled-IsInOrder len cb (err e) s h = elim (Bool-cases (e == eagain)) [
    | inl x ↦ rw x h
    | inr x ↦ rw x h
  ]

  pub read-IsInOrder :
      (len cb : ℕ) (s : TlsClientSocket tls) → IsInOrder output s → IsInOrder output (read len cb s)
  unfolding read
  read-IsInOrder len cb s h =
      pulled-IsInOrder len cb (tls.reader len s.conn).0 _ (h ∙ sym (laws.pulls len s.conn))

  pub flushed-IsInOrder :
      (next : Done) (r : IoResult Unit) (s : TlsClientSocket tls)
      → IsInOrder output s
      → IsInOrder output (flushed next r s)
  unfolding flushed feed_one
  flushed-IsInOrder (handshake_flushed cb) (ok _) s h =
      elim (Bool-cases (tls.is_handshaking s.conn)) [ inl x ↦ rw x h | inr x ↦ rw x h ]
  flushed-IsInOrder (handshake_flushed cb) (err e) s h = h
  flushed-IsInOrder (read_flushed len cb) (ok _) s h = read-IsInOrder len cb s h
  flushed-IsInOrder (read_flushed len cb) (err e) s h = h
  flushed-IsInOrder (written len cb) (ok _) s h = h
  flushed-IsInOrder (written len cb) (err e) s h = h
  flushed-IsInOrder closing r s h = h

  -- Where the bytes `buf` have been given out and are to go behind the others.
  pub write_all-IsInOrder :
      (buf : List ℕ) (next : Done) (s : TlsClientSocket tls)
      → (s.wire ++ bytes_of s.writes) ++ buf ≡ output s.conn
      → IsInOrder output (write_all buf next s)
  unfolding write_all
  write_all-IsInOrder buf next s h =
      ap (λ b. s.wire ++ b)
        (bytes_of-append s.writes (record { buf = buf; next = next } ∷ [])
          ∙ ap (λ b. bytes_of s.writes ++ b) (append-nil buf))
      ∙ sym (append_assoc s.wire (bytes_of s.writes) buf)
      ∙ h

  send_outgoing-IsInOrder :
      (buf : List ℕ) (next : Done) (s : TlsClientSocket tls)
      → (s.wire ++ bytes_of s.writes) ++ buf ≡ output s.conn
      → IsInOrder output (send_outgoing buf next s)
  unfolding send_outgoing
  send_outgoing-IsInOrder [] next s h =
      flushed-IsInOrder next (ok tt) s (sym (append-nil (s.wire ++ bytes_of s.writes)) ∙ h)
  send_outgoing-IsInOrder (b ∷ bs) next s h = write_all-IsInOrder (b ∷ bs) next s h

  pub flush_pending-IsInOrder :
      (next : Done) (s : TlsClientSocket tls)
      → IsInOrder output s
      → IsInOrder output (flush_pending next s)
  unfolding flush_pending
  flush_pending-IsInOrder next s h =
      let (buf, c) = outgoing tls s.conn in
      send_outgoing-IsInOrder buf next (record s { conn = c })
        (ap (λ b. b ++ buf) h ∙ sym (outgoing-output s.conn))
