-- ===== src/TcpSocket.antt =====
-- rust_net/tcp_socket.rs, tcp_client_socket.rs and tcp_server_socket.rs on top of `SocketPosix`.
-- The system calls of set-up are parameters: what each answers, with `calls` as their log. A method
-- that fails an assertion of `SocketPosix` panics.
pub mod Listen
use rust_task_runner.Common.{
  ℕ, ◌-◌, ◌^◌, Bool, true, false, List, [], ◌∷◌, ◌++◌, Option, none, some,
}
use rust_task_runner.IoTaskRunner.{Kernel, IoTaskRunner}
use rust_task_runner.SocketPosix.{
  Net, SocketPosix, IoResult, ok, err, open_socket, connect, close, reply, done, with_descriptor,
}
use rust_task_runner.SocketPosix.Address.{SocketAddr, v4, v6, Sockaddr, to_sockaddr, from_sockaddr}

pub data SockOpt : Type 0 where
  so_reuseaddr tcp_nodelay : SockOpt

pub data Call : Type 0 where
  call_socket : Bool → Call
  call_setsockopt : ℕ → SockOpt → Bool → Call
  call_bind : ℕ → Sockaddr → Call
  call_listen : ℕ → ℕ → Call
  call_connect : ℕ → Sockaddr → Call

-- A socket with what has been asked of the system.
pub record TcpSocket (kernel : Kernel) : Type 0 where
  pub net : Net kernel
  pub calls : List Call

-- What a method returns, or that an assertion failed.
pub data Outcome (A : Type 0) : Type 0 where
  returns : IoResult A → Outcome A
  panics : Outcome A

abbrev pub is_ipv4 : SocketAddr → Bool
is_ipv4 (v4 _ _) = true
is_ipv4 (v6 _ _ _ _) = false

-- `as_raw_fd`: -1 is 2^32 - 1.
abbrev pub as_raw_fd : Option ℕ → ℕ
as_raw_fd none = 2 ^ 32 - 1
as_raw_fd (some fd) = fd

-- The answer of a call whose number is not looked at further.
abbrev pub to_unit : IoResult ℕ → IoResult Unit
to_unit (ok _) = ok tt
to_unit (err e) = err e

-- A method on a socket: the state after it, with what it returns.
abbrev pub Method : Kernel → Type 0 → Type 0
Method kernel A = TcpSocket kernel → Outcome A × TcpSocket kernel

-- The bind of `?`: an error or a panic leaves the method.
infixl 5 ◌>>=◌ ◌>>◌
abbrev pub ◌>>=◌ :
    {kernel : Kernel} {A B : Type 0} → Method kernel A → (A → Method kernel B) → Method kernel B
◌>>=◌ m f t =
    let (r, t') = m t in
    elim r [
      | returns (ok a) ↦ f a t'
      | returns (err e) ↦ (returns (err e), t')
      | panics ↦ (panics, t')
    ]

abbrev pub ◌>>◌ :
    {kernel : Kernel} {A B : Type 0} → Method kernel A → Method kernel B → Method kernel B
m >> k = m >>= λ _. k

-- `local_addr` where `getsockname(2)` answers `name`.
unfoldable pub local_addr : Bool → IoResult Sockaddr → IoResult SocketAddr
local_addr little (ok name) = from_sockaddr little name
local_addr little (err e) = err e

-- `answers` is what the system answers to each call, `little` the byte order of the machine.
module _ {kernel : Kernel} (little : Bool) (answers : Call → IoResult ℕ) where
  abbrev pub log : Call → TcpSocket kernel → TcpSocket kernel
  log c t = record t { calls = t.calls ++ c ∷ [] }

  -- One system call.
  abbrev pub ask : Call → Method kernel ℕ
  ask c t = (returns (answers c), log c t)

  -- `open` of the socket, with `socket(2)`.
  unfoldable pub open_tcp : SocketAddr → Method kernel Unit
  open_tcp addr t =
      let (r, n) = open_socket (answers (call_socket (is_ipv4 addr))) t.net in
      (returns r, record (log (call_socket (is_ipv4 addr)) t) { net = n })

  -- `setsockopt_bool`
  unfoldable pub setsockopt_bool : SockOpt → Bool → Method kernel Unit
  setsockopt_bool name on t =
      let (r, t') = ask (call_setsockopt (as_raw_fd t.net.socket.fd) name on) t in
      elim r [ returns a ↦ (returns (to_unit a), t') | panics ↦ (panics, t') ]

  abbrev pub set_reuse_addr : Bool → Method kernel Unit
  set_reuse_addr on = setsockopt_bool so_reuseaddr on

  abbrev pub set_no_delay : Bool → Method kernel Unit
  set_no_delay on = setsockopt_bool tcp_nodelay on

  abbrev pub set_default_options_for_server : Method kernel Unit
  set_default_options_for_server = set_reuse_addr true

  abbrev pub set_default_options_for_client : Method kernel Unit
  set_default_options_for_client = set_no_delay true

  -- `assert!(fd >= 0)` before a call on the descriptor.
  abbrev pub on_descriptor : Option ℕ → (ℕ → Call) → Method kernel Unit
  on_descriptor none c t = (panics, t)
  on_descriptor (some fd) c t = (returns (to_unit (answers (c fd))), log (c fd) t)

  unfoldable pub bind : SocketAddr → Method kernel Unit
  bind addr t = on_descriptor t.net.socket.fd (λ fd. call_bind fd (to_sockaddr little addr)) t

  unfoldable pub listen : ℕ → Method kernel Unit
  listen backlog t = on_descriptor t.net.socket.fd (λ fd. call_listen fd backlog) t

  -- `TcpServerSocket::listen`
  unfoldable pub server_listen : SocketAddr → ℕ → Method kernel Unit
  unfolding open_tcp setsockopt_bool bind listen
  server_listen addr backlog = do
    open_tcp addr
    set_default_options_for_server
    bind addr
    listen backlog

  -- The end of `TcpClientSocket::connect` after `open`: the option is set and its result not looked
  -- at, and then `connect` asserts that there is a descriptor.
  unfoldable pub connect_opened : SocketAddr → ℕ → Option ℕ → Method kernel Unit
  connect_opened addr cb none t = (panics, t)
  connect_opened addr cb (some fd) t =
      let call = call_connect fd (to_sockaddr little addr) in
      (returns (ok tt), record (log call t) { net = connect fd (to_unit (answers call)) cb t.net })

  -- `TcpClientSocket::connect`; an error of `open` goes to the callback.
  unfoldable pub connect_after : SocketAddr → ℕ → Outcome Unit → Method kernel Unit
  unfolding setsockopt_bool connect_opened
  connect_after addr cb (returns (ok _)) t =
      let (_, t') = set_default_options_for_client t in connect_opened addr cb t'.net.socket.fd t'
  connect_after addr cb (returns (err e)) t =
      (returns (ok tt), record t { net = reply (done cb (err e)) t.net })
  connect_after addr cb panics t = (panics, t)

  unfoldable pub client_connect : SocketAddr → ℕ → Method kernel Unit
  unfolding open_tcp connect_after
  client_connect addr cb t = let (opened, t') = open_tcp addr t in connect_after addr cb opened t'

  -- `TcpClientSocket::disconnect`
  unfoldable pub disconnect : TcpSocket kernel → TcpSocket kernel
  disconnect t = record t { net = close t.net }

  -- The closure of `TcpServerSocket::accept` on an accepted descriptor: the option is best effort.
  unfoldable pub adopt : IoResult (TcpSocket kernel) → IoResult (TcpSocket kernel)
  unfolding setsockopt_bool
  adopt (ok sock) = ok (set_default_options_for_client sock).1
  adopt (err e) = err e
