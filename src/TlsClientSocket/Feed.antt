-- ===== src/TlsClientSocket/Feed.antt =====
-- The loop of `feed_one` in rust_net/tls_client_socket.rs, which hands a chunk of the transport to
-- the TLS state machine.
use rust_task_runner.Common.{
  ℕ, zero, suc, ◌≤◌, ◌≡◌, refl, sym, subst, ◌∙◌, ap, List, [], ◌∷◌, ◌++◌, append-nil, append_assoc,
  Option, some, ◌⊎◌, inl, inr, length, take, drop, length-drop, take-append-drop, arith,
}
use rust_task_runner.SocketPosix.{IoResult, ok, err}
use rust_task_runner.TlsClientSocket.{ClientConnection, feed_loop, after_read_tls, after_packets}

module _ (tls : ClientConnection) where
  -- A result of the loop is there.
  abbrev pub Returns : Option (IoResult Unit) × tls.State → Type 0
  Returns p = (r : IoResult Unit) × (p.0 ≡ some r)

  after_packets-Returns :
      (rest : tls.State → Option (IoResult Unit) × tls.State) (p : IoResult Unit × tls.State)
      → ((c : tls.State) → Returns (rest c))
      → Returns (after_packets tls rest p)
  after_packets-Returns rest (ok _, c) h = h c
  after_packets-Returns rest (err e, c) h = (err e, refl)

  after_read_tls-Returns :
      (rest : ℕ → tls.State → Option (IoResult Unit) × tls.State) (p : IoResult ℕ × tls.State)
      → ((n : ℕ) (c : tls.State) → Returns (rest (suc n) c))
      → Returns (after_read_tls tls rest p)
  after_read_tls-Returns rest (ok zero, c) h = (ok tt, refl)
  after_read_tls-Returns rest (ok (suc n), c) h =
      after_packets-Returns (rest (suc n)) (tls.process_new_packets c) (h n)
  after_read_tls-Returns rest (err e, c) h = (err e, refl)

-- Whatever the TLS state machine answers, the loop ends with a result when it has as much fuel as
-- the slice has bytes.
pub feed_loop-Returns :
    (tls : ClientConnection) (fuel : ℕ) (slice : List ℕ) (c : tls.State)
    → length slice ≤ fuel
    → Returns tls (feed_loop tls fuel slice c)
unfolding feed_loop
feed_loop-Returns tls fuel [] c h = (ok tt, refl)
feed_loop-Returns tls zero (b ∷ bs) c h = absurd (omega arith)
feed_loop-Returns tls (suc fuel) (b ∷ bs) c h =
    after_read_tls-Returns tls (λ n c'. feed_loop tls fuel (drop n (b ∷ bs)) c')
      (tls.read_tls (b ∷ bs) c)
      (λ n c'. feed_loop-Returns tls fuel (drop n bs) c' (omega (arith, length-drop n bs)))

-- What a state machine has taken in all, as `read_tls` is documented: it takes the first bytes of
-- the slice, as many as it returns, some of them where it does not stop, and none when it fails;
-- `process_new_packets` takes none.
pub record IsReading (tls : ClientConnection) (input : tls.State → List ℕ) : Type 0 where
  pub takes :
      (slice : List ℕ) (c : tls.State) (n : ℕ)
      → (tls.read_tls slice c).0 ≡ ok n
      → input (tls.read_tls slice c).1 ≡ input c ++ take n slice
  pub fails :
      (slice : List ℕ) (c : tls.State) (e : ℕ)
      → (tls.read_tls slice c).0 ≡ err e
      → input (tls.read_tls slice c).1 ≡ input c
  pub processes : (c : tls.State) → input (tls.process_new_packets c).1 ≡ input c

module _ (tls : ClientConnection) (input : tls.State → List ℕ) where
  -- How the loop ends with `left` not taken: with nothing left, where the state machine takes no
  -- more, or with an error.
  abbrev pub Ends : List ℕ → Option (IoResult Unit) × tls.State → Type 0
  Ends left p =
      ((left ≡ []) × (p.0 ≡ some (ok tt)))
      ⊎ (((c : tls.State) × ((tls.read_tls left c).0 ≡ ok 0)) × (p.0 ≡ some (ok tt)))
      ⊎ ((e : ℕ) × (p.0 ≡ some (err e)))

  -- Of the bytes `slice` the first have been taken behind `before`, and the others are left.
  abbrev pub Took : List ℕ → List ℕ → Option (IoResult Unit) × tls.State → Type 0
  Took before slice p =
      (taken : List ℕ) × (left : List ℕ) × (slice ≡ taken ++ left)
      × (input p.1 ≡ before ++ taken)
      × Ends left p

  Took-none :
      (before slice : List ℕ) (p : Option (IoResult Unit) × tls.State)
      → input p.1 ≡ before
      → Ends slice p
      → Took before slice p
  Took-none before slice p h end = ([], slice, refl, rw append-nil h, end)

  Took-drop :
      (before slice : List ℕ) (n : ℕ) (p : Option (IoResult Unit) × tls.State)
      → Took (before ++ take n slice) (drop n slice) p
      → Took before slice p
  Took-drop before slice n p (taken, left, split, got, end) = (
    take n slice ++ taken,
    left,
    sym (take-append-drop n slice) ∙ ap (λ x. take n slice ++ x) split ∙ rw append_assoc refl,
    got ∙ append_assoc before (take n slice) taken,
    end,
  )

module _ (tls : ClientConnection) (input : tls.State → List ℕ) (laws : IsReading tls input) where
  after_packets-Took :
      (before slice : List ℕ) (n : ℕ) (rest : tls.State → Option (IoResult Unit) × tls.State)
      (p : IoResult Unit × tls.State)
      → input p.1 ≡ before ++ take n slice
      → ((c : tls.State) → Took tls input (input c) (drop n slice) (rest c))
      → Took tls input before slice (after_packets tls rest p)
  after_packets-Took before slice n rest (ok _, c) h later =
      Took-drop tls input before slice n (rest c)
        (subst (λ x. Took tls input x (drop n slice) (rest c)) h (later c))
  after_packets-Took before slice n rest (err e, c) h later =
      Took-drop tls input before slice n (some (err e), c)
        (Took-none tls input _ _ _ h (inr (inr (e, refl))))

  -- The laws of `read_tls`, where its result is known.
  read_tls-takes :
      (slice : List ℕ) (c c' : tls.State) (n : ℕ)
      → tls.read_tls slice c ≡ (ok n, c')
      → input c' ≡ input c ++ take n slice
  read_tls-takes slice c c' n h =
      sym (ap (λ (p : IoResult ℕ × tls.State). input p.1) h)
      ∙ laws.takes slice c n (ap (λ (p : IoResult ℕ × tls.State). p.0) h)

  read_tls-fails :
      (slice : List ℕ) (c c' : tls.State) (e : ℕ)
      → tls.read_tls slice c ≡ (err e, c')
      → input c' ≡ input c
  read_tls-fails slice c c' e h =
      sym (ap (λ (p : IoResult ℕ × tls.State). input p.1) h)
      ∙ laws.fails slice c e (ap (λ (p : IoResult ℕ × tls.State). p.0) h)

  after_read_tls-Took :
      (slice : List ℕ) (c : tls.State) (rest : ℕ → tls.State → Option (IoResult Unit) × tls.State)
      (p : IoResult ℕ × tls.State)
      → tls.read_tls slice c ≡ p
      → ((n : ℕ) (c' : tls.State)
          → Took tls input (input c') (drop (suc n) slice) (rest (suc n) c'))
      → Took tls input (input c) slice (after_read_tls tls rest p)
  after_read_tls-Took slice c rest (ok zero, c') h later =
      Took-none tls input _ _ _ (read_tls-takes slice c c' 0 h ∙ append-nil (input c))
        (inr (inl ((c, ap (λ (p : IoResult ℕ × tls.State). p.0) h), refl)))
  after_read_tls-Took slice c rest (ok (suc n), c') h later =
      after_packets-Took (input c) slice (suc n) (rest (suc n)) (tls.process_new_packets c')
        (laws.processes c' ∙ read_tls-takes slice c c' (suc n) h) (later n)
  after_read_tls-Took slice c rest (err e, c') h later =
      Took-none tls input _ _ _ (read_tls-fails slice c c' e h) (inr (inr (e, refl)))

-- Of a chunk the state machine takes the first bytes, in order and each once, and the loop stops
-- where the chunk is used up, where the machine takes no more (the rest of the chunk is dropped
-- without an error), or with an error.
pub feed_loop-Took :
    (tls : ClientConnection) (input : tls.State → List ℕ)
    → IsReading tls input
    → (fuel : ℕ) (slice : List ℕ) (c : tls.State) → length slice ≤ fuel
    → Took tls input (input c) slice (feed_loop tls fuel slice c)
unfolding feed_loop
feed_loop-Took tls input laws fuel [] c h = Took-none tls input _ _ _ refl (inl (refl, refl))
feed_loop-Took tls input laws zero (b ∷ bs) c h = absurd (omega arith)
feed_loop-Took tls input laws (suc fuel) (b ∷ bs) c h =
    after_read_tls-Took tls input laws (b ∷ bs) c (λ n c'. feed_loop tls fuel (drop n (b ∷ bs)) c')
      (tls.read_tls (b ∷ bs) c) refl
      (λ n c'. feed_loop-Took tls input laws fuel (drop n bs) c' (omega (arith, length-drop n bs)))
