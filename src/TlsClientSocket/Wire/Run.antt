-- ===== src/TlsClientSocket/Wire/Run.antt =====
-- What goes over the transport of a TLS socket (rust_net/tls_client_socket.rs), over histories.
use rust_task_runner.Common.{
  ℕ, zero, suc, ◌≤◌, ◌≡◌, refl, sym, ◌∙◌, ap, Bool-cases, List, [], ◌∷◌, ◌++◌, append-nil,
  append_assoc, Option, none, some, Option-cases, inl, inr, length, leb, leb→le, take, drop,
  take-append-drop, pick, arith,
}
use rust_task_runner.SocketPosix.{IoResult, ok, err}
use rust_task_runner.TlsClientSocket.{
  ClientConnection, TlsClientSocket, closing, Fed, handshake_fed, read_fed, PendingWrite, handshake,
  write, queued, disconnect, fed, after_loop, on_read, on_written, feed_loop,
}
use rust_task_runner.TlsClientSocket.Steps.{
  Event, handshakes, reads, writes, closes, has_read, has_written, answer_read, answer_write, step,
  run,
}
use rust_task_runner.TlsClientSocket.Wire.{
  IsWriting, IsInOrder, bytes_of, feed_loop-output, read-IsInOrder, write_all-IsInOrder,
  flush_pending-IsInOrder,
}

-- Where the transport answers a write, no other write is pending, and the write has not failed.
abbrev pub IsCalm : {tls : ClientConnection} → Event → TlsClientSocket tls → Type 0
IsCalm (has_written k (ok n)) s = length s.writes ≤ 1
IsCalm (has_written k (err e)) s = ⊥
IsCalm _ s = Unit

abbrev pub AllCalm : {tls : ClientConnection} → List Event → TlsClientSocket tls → Type 0
AllCalm [] s = Unit
AllCalm (e ∷ es) s = IsCalm e s × AllCalm es (step e s)

pick_only :
    {A : Type 0} (k : ℕ) (xs : List A) (a : A) (ys : List A)
    → length xs ≤ 1
    → pick k xs ≡ some (a, ys)
    → (xs ≡ a ∷ []) × (ys ≡ [])
unfolding pick
pick_only k [] a ys h x = absurd (cc x)
pick_only zero (y ∷ []) a ys h x = (cc, cc)
pick_only (suc k) (y ∷ []) a ys h x = absurd (cc x)
pick_only k (y ∷ z ∷ zs) a ys h x = absurd (omega arith)

take_all : (n : ℕ) (xs : List ℕ) → length xs ≤ n → take n xs ≡ xs
take_all zero [] h = refl
take_all (suc n) [] h = refl
take_all zero (x ∷ xs) h = absurd (omega arith)
take_all (suc n) (x ∷ xs) h = ap (λ ys. x ∷ ys) (take_all n xs (omega arith))

module _ (tls : ClientConnection) (output : tls.State → List ℕ) (laws : IsWriting tls output) where
  queued-IsInOrder :
      (len cb : ℕ) (r : IoResult Unit) (s : TlsClientSocket tls)
      → IsInOrder output s
      → IsInOrder output (queued len cb r s)
  unfolding queued
  queued-IsInOrder len cb (ok _) s h = flush_pending-IsInOrder tls output laws _ s h
  queued-IsInOrder len cb (err e) s h = h

  fed-IsInOrder :
      (next : Fed) (r : IoResult Unit) (s : TlsClientSocket tls)
      → IsInOrder output s
      → IsInOrder output (fed next r s)
  unfolding fed handshake
  fed-IsInOrder (handshake_fed cb) (ok _) s h = flush_pending-IsInOrder tls output laws _ s h
  fed-IsInOrder (handshake_fed cb) (err e) s h = h
  fed-IsInOrder (read_fed len cb) (ok _) s h = flush_pending-IsInOrder tls output laws _ s h
  fed-IsInOrder (read_fed len cb) (err e) s h = h

  after_loop-IsInOrder :
      (next : Fed) (r : Option (IoResult Unit)) (s : TlsClientSocket tls)
      → IsInOrder output s
      → IsInOrder output (after_loop next r s)
  unfolding after_loop
  after_loop-IsInOrder next none s h = h
  after_loop-IsInOrder next (some r) s h = fed-IsInOrder next r s h

  on_read-IsInOrder :
      (next : Fed) (r : IoResult (List ℕ)) (s : TlsClientSocket tls)
      → IsInOrder output s
      → IsInOrder output (on_read next r s)
  unfolding on_read
  on_read-IsInOrder next (ok []) s h = fed-IsInOrder next _ s h
  on_read-IsInOrder next (ok (b ∷ bs)) s h =
      let (r, c) = feed_loop tls (length (b ∷ bs)) (b ∷ bs) s.conn in
      after_loop-IsInOrder next r (record s { conn = c })
        (h ∙ sym (feed_loop-output tls output laws (length (b ∷ bs)) (b ∷ bs) s.conn))
  on_read-IsInOrder next (err e) s h = fed-IsInOrder next (err e) s h

  answer_read-IsInOrder :
      (o : Option (Fed × List Fed)) (r : IoResult (List ℕ)) (s : TlsClientSocket tls)
      → IsInOrder output s
      → IsInOrder output (answer_read o r s)
  unfolding answer_read
  answer_read-IsInOrder none r s h = h
  answer_read-IsInOrder (some (next, rest)) r s h =
      on_read-IsInOrder next r (record s { reads = rest }) h

  -- The transport has taken some of the one write that was pending.
  on_written-IsInOrder :
      (w : PendingWrite) (n : ℕ) (s : TlsClientSocket tls)
      → s.writes ≡ []
      → s.wire ++ w.buf ≡ output s.conn
      → IsInOrder output (on_written w (ok n) s)
  unfolding on_written
  on_written-IsInOrder w n s none_left h = elim (Bool-cases (leb (length w.buf) n)) [
    | inl x ↦ rw x (
        flush_pending-IsInOrder tls output laws w.next (record s { wire = s.wire ++ take n w.buf })
          (rw (none_left, take_all n w.buf (leb→le (length w.buf) n x), append-nil) h))
    | inr x ↦ rw x (
        write_all-IsInOrder tls output laws (drop n w.buf) w.next
          (record s { wire = s.wire ++ take n w.buf })
          (rw (none_left, append-nil, append_assoc, take-append-drop n w.buf) h))
  ]

  answer_write-IsInOrder :
      (k n : ℕ) (s : TlsClientSocket tls)
      → length s.writes ≤ 1
      → IsInOrder output s
      → IsInOrder output (answer_write (pick k s.writes) (ok n) s)
  unfolding answer_write
  answer_write-IsInOrder k n s single h = elim (Option-cases (pick k s.writes)) [
    | inl x ↦ rw x h
    | inr ((w, rest), x) ↦
        let (only, none_left) = pick_only k s.writes w rest single x in
        rw x (
          on_written-IsInOrder w n (record s { writes = rest }) none_left
            (ap (λ b. s.wire ++ b) (sym (ap bytes_of only ∙ append-nil w.buf)) ∙ h))
  ]

  step-IsInOrder :
      (e : Event) (s : TlsClientSocket tls)
      → IsCalm e s
      → IsInOrder output s
      → IsInOrder output (step e s)
  unfolding step handshake write disconnect
  step-IsInOrder (handshakes cb) s calm h = flush_pending-IsInOrder tls output laws _ s h
  step-IsInOrder (reads len cb) s calm h = read-IsInOrder tls output laws len cb s h
  step-IsInOrder (writes buf cb) s calm h =
      queued-IsInOrder (length buf) cb (tls.writer buf s.conn).0 _
        (h ∙ sym (laws.queues buf s.conn))
  step-IsInOrder closes s calm h =
      flush_pending-IsInOrder tls output laws closing _ (h ∙ sym (laws.notifies s.conn))
  step-IsInOrder (has_read k r) s calm h = answer_read-IsInOrder (pick k s.reads) r s h
  step-IsInOrder (has_written k (ok n)) s calm h = answer_write-IsInOrder k n s calm h
  step-IsInOrder (has_written k (err e)) s calm h = absurd calm

-- The records go out in order and complete: in any history in which the transport has one write at
-- a time and no write of it fails, also where it takes a write in pieces, what the transport has
-- taken and then what waits is what the state machine gave out, if it was so at the start.
pub run-IsInOrder :
    (tls : ClientConnection) (output : tls.State → List ℕ)
    → IsWriting tls output
    → (es : List Event) (s : TlsClientSocket tls) → AllCalm es s
    → IsInOrder output s
    → IsInOrder output (run es s)
run-IsInOrder tls output laws [] s calm h = h
run-IsInOrder tls output laws (e ∷ es) s calm h =
    run-IsInOrder tls output laws es (step e s) calm.1 (step-IsInOrder tls output laws e s calm.0 h)
