-- ===== src/TcpSocket/Listen.antt =====
-- How `listen` of rust_net/tcp_server_socket.rs ends.
use rust_task_runner.Common.{
  ℕ, ◌≡◌, refl, Bool, true, List, [], ◌∷◌, ◌++◌, append_assoc, none, some, ap, ◌∙◌, inl, inr,
}
use rust_task_runner.IoTaskRunner.{Kernel}
use rust_task_runner.SocketPosix.{IoResult, ok, err, IoResult-cases, open_socket}
use rust_task_runner.SocketPosix.Address.{SocketAddr, to_sockaddr}
use rust_task_runner.TcpSocket.{
  TcpSocket, Call, call_socket, call_setsockopt, call_bind, call_listen, so_reuseaddr, Outcome,
  returns, is_ipv4, server_listen, to_unit, open_tcp, setsockopt_bool, bind, listen, as_raw_fd,
  Method, log, ◌>>=◌, ◌>>◌,
}

abbrev prepend : Call → IoResult ℕ → List Call × IoResult Unit → List Call × IoResult Unit
prepend c (ok _) (made, r) = (c ∷ made, r)
prepend c (err e) _ = (c ∷ [], err e)

-- Calls made one after the other up to the first that fails: those made, and the first error.
abbrev pub first_error : (Call → IoResult ℕ) → List Call → List Call × IoResult Unit
first_error answers [] = ([], ok tt)
first_error answers (c ∷ cs) = prepend c (answers c) (first_error answers cs)

-- The calls of `listen` behind `socket(2)`, on the descriptor that it returned.
abbrev pub listen_calls : Bool → SocketAddr → ℕ → ℕ → List Call
listen_calls little addr backlog fd =
    call_setsockopt fd so_reuseaddr true
    ∷ call_bind fd (to_sockaddr little addr)
    ∷ call_listen fd backlog
    ∷ []

-- A method that makes the call `c`, and goes on if it is answered.
step-ok :
    {kernel : Kernel} {A : Type 0} (m : Method kernel Unit) (k : Method kernel A)
    (t t' : TcpSocket kernel)
    → m t ≡ (returns (ok tt), t')
    → (m >> k) t ≡ k t'
step-ok {kernel = kernel} m k t t' h =
    rw (ap (λ (p : Outcome Unit × TcpSocket kernel). p.0) h, ◌>>=◌)
      (ap (λ (p : Outcome Unit × TcpSocket kernel). k p.1) h)

step-err :
    {kernel : Kernel} (m k : Method kernel Unit) (t t' : TcpSocket kernel) (e : ℕ)
    → m t ≡ (returns (err e), t')
    → (m >> k) t ≡ (returns (err e), t')
step-err {kernel = kernel} m k t t' e h =
    rw (ap (λ (p : Outcome Unit × TcpSocket kernel). p.0) h, ◌>>=◌)
      (ap (λ (p : Outcome Unit × TcpSocket kernel). fail p.1) h)
  where
    fail : TcpSocket kernel → Outcome Unit × TcpSocket kernel
    fail x = (returns (err e), x)

module _ {kernel : Kernel} (little : Bool) (answers : Call → IoResult ℕ) where
  -- A method makes the one call `c` on `t`, or the calls `cs` up to the first that fails.
  abbrev Makes : Method kernel Unit → Call → TcpSocket kernel → Type 0
  Makes m c t = m t ≡ (returns (to_unit (answers c)), log little answers c t)

  abbrev MakesAll : Method kernel Unit → List Call → TcpSocket kernel → Type 0
  MakesAll m cs t =
      let (made, r) = first_error answers cs in
      m t ≡ (returns r, record t { calls = t.calls ++ made })

  last-MakesAll :
      (m : Method kernel Unit) (c : Call) (t : TcpSocket kernel)
      → Makes m c t
      → MakesAll m (c ∷ []) t
  last-MakesAll m c t h = elim (IoResult-cases (answers c)) [
    | inl (a, x) ↦ h ∙ rw x refl
    | inr (e, x) ↦ h ∙ rw x refl
  ]

  then-MakesAll :
      (m k : Method kernel Unit) (c : Call) (cs : List Call) (t : TcpSocket kernel)
      → Makes m c t
      → MakesAll k cs (log little answers c t)
      → MakesAll (m >> k) (c ∷ cs) t
  then-MakesAll m k c cs t h g = elim (IoResult-cases (answers c)) [
    | inl (a, x) ↦
        step-ok m k t (log little answers c t) (h ∙ rw x refl) ∙ g ∙ rw (x, append_assoc) refl
    | inr (e, x) ↦ step-err m k t (log little answers c t) e (h ∙ rw x refl) ∙ rw x refl
  ]

-- The socket after an `open` that has got the descriptor `fd`.
abbrev pub opened : {kernel : Kernel} → SocketAddr → ℕ → TcpSocket kernel → TcpSocket kernel
opened addr fd t = record t {
  net = record t.net { socket = record t.net.socket { fd = some fd } };
  calls = t.calls ++ call_socket (is_ipv4 addr) ∷ [];
}

open_tcp-ok :
    {kernel : Kernel} (little : Bool) (answers : Call → IoResult ℕ) (addr : SocketAddr) (fd : ℕ)
    (t : TcpSocket kernel)
    → answers (call_socket (is_ipv4 addr)) ≡ ok fd
    → open_tcp little answers addr t ≡ (returns (ok tt), opened addr fd t)
unfolding open_tcp open_socket
open_tcp-ok little answers addr fd t h = rw h refl

open_tcp-err :
    {kernel : Kernel} (little : Bool) (answers : Call → IoResult ℕ) (addr : SocketAddr) (e : ℕ)
    (t : TcpSocket kernel)
    → answers (call_socket (is_ipv4 addr)) ≡ err e
    → open_tcp little answers addr t
      ≡ (returns (err e), log little answers (call_socket (is_ipv4 addr)) t)
unfolding open_tcp open_socket
open_tcp-err little answers addr e t h = rw h refl

-- `listen` where `socket(2)` gives the descriptor `fd`.
server_listen-ok :
    {kernel : Kernel} (little : Bool) (answers : Call → IoResult ℕ) (addr : SocketAddr)
    (backlog fd : ℕ) (t : TcpSocket kernel)
    → answers (call_socket (is_ipv4 addr)) ≡ ok fd
    → let (made, r) = first_error answers (listen_calls little addr backlog fd) in
      server_listen little answers addr backlog t ≡ (
        returns r,
        record t {
          net = (opened addr fd t).net;
          calls = t.calls ++ call_socket (is_ipv4 addr) ∷ made;
        },
      )
unfolding server_listen setsockopt_bool bind listen
server_listen-ok {kernel = kernel} little answers addr backlog fd t h =
    step-ok (open_tcp little answers addr) (option >> (name >> queue)) t t1
      (open_tcp-ok little answers addr fd t h)
    ∙ then-MakesAll little answers option (name >> queue) option_call (name_call ∷ queue_call ∷ [])
        t1 refl
        (then-MakesAll little answers name queue name_call (queue_call ∷ []) t2 refl
          (last-MakesAll little answers queue queue_call (log little answers name_call t2) refl))
    ∙ rw append_assoc refl
  where
    option : Method kernel Unit
    option = setsockopt_bool little answers so_reuseaddr true

    name : Method kernel Unit
    name = bind little answers addr

    queue : Method kernel Unit
    queue = listen little answers backlog

    option_call : Call
    option_call = call_setsockopt fd so_reuseaddr true

    name_call : Call
    name_call = call_bind fd (to_sockaddr little addr)

    queue_call : Call
    queue_call = call_listen fd backlog

    t1 : TcpSocket kernel
    t1 = opened addr fd t

    t2 : TcpSocket kernel
    t2 = log little answers option_call t1

server_listen-err :
    {kernel : Kernel} (little : Bool) (answers : Call → IoResult ℕ) (addr : SocketAddr)
    (backlog e : ℕ) (t : TcpSocket kernel)
    → answers (call_socket (is_ipv4 addr)) ≡ err e
    → server_listen little answers addr backlog t
      ≡ (returns (err e), log little answers (call_socket (is_ipv4 addr)) t)
unfolding server_listen
server_listen-err little answers addr backlog e t x =
    step-err (open_tcp little answers addr)
      (setsockopt_bool little answers so_reuseaddr true
        >> (bind little answers addr >> listen little answers backlog))
      t (log little answers (call_socket (is_ipv4 addr)) t) e
      (open_tcp-err little answers addr e t x)

-- The descriptor of the calls behind `socket(2)`; they are not made if it fails.
abbrev pub descriptor : IoResult ℕ → ℕ
descriptor (ok fd) = fd
descriptor (err e) = as_raw_fd none

-- Whatever the system answers, `listen` asks for a socket, and on the descriptor that it gets for
-- the option, the address and the queue, in this order. It stops at the first call that fails,
-- `socket(2)` included, and returns its error; it never panics. A descriptor that it has got it
-- keeps, also on an error.
pub server_listen-eq-first_error :
    {kernel : Kernel} (little : Bool) (answers : Call → IoResult ℕ) (addr : SocketAddr)
    (backlog : ℕ) (t : TcpSocket kernel)
    → let socket = answers (call_socket (is_ipv4 addr)) in
      let (made, r) =
        first_error answers
          (call_socket (is_ipv4 addr) ∷ listen_calls little addr backlog (descriptor socket)) in
      server_listen little answers addr backlog t
      ≡ (returns r, record t { net = (open_socket socket t.net).1; calls = t.calls ++ made })
server_listen-eq-first_error little answers addr backlog t =
    elim (IoResult-cases (answers (call_socket (is_ipv4 addr)))) [
      | inl (fd, x) ↦
          server_listen-ok little answers addr backlog fd t x ∙ unfold open_socket in rw x refl
      | inr (e, x) ↦
          server_listen-err little answers addr backlog e t x ∙ unfold open_socket in rw x refl
    ]
