-- ===== src/Examples/Net.antt =====
-- Runs of a server and of a client socket.
use rust_task_runner.Common.{ℕ, ◌+◌, ◌≡◌, true, false, [], ◌∷◌, none}
use rust_task_runner.IoTaskRunner
use rust_task_runner.IoTaskRunner.{Kernel, IoTaskRunner}
use rust_task_runner.SocketPosix.{open_socket, IoResult, ok, err, einprogress, with_descriptor}
use rust_task_runner.SocketPosix.Address.{SocketAddr, v4, to_sockaddr}
use rust_task_runner.TcpSocket.{
  TcpSocket, Call, so_reuseaddr, call_socket, call_bind, call_setsockopt, call_listen, call_connect,
  returns, server_listen,
}
use rust_task_runner.TcpSocket.Listen.{opened, server_listen-eq-first_error}

abbrev kernel : Kernel
kernel = record { State = ℕ; epoll_ctl = λ op fd flags calls. (IoTaskRunner.ok, calls + 1) }

abbrev new_socket : TcpSocket kernel
new_socket = record {
  net = record {
    owner = 1;
    socket = with_descriptor none;
    io = record {
      wake_fd = 3;
      tasks = [];
      delayed_tasks = [];
      watches = λ fd. none;
      generation_counter = 0;
      shutdown = false;
      token = 0;
      monitored = false;
      epoll = 0;
    };
    replies = [];
    closed = [];
  };
  calls = [];
}

abbrev localhost : SocketAddr
localhost = v4 (record { a = 127; b = 0; c = 0; d = 1 }) 8080

-- The descriptor is 7, and the address is in use.
abbrev busy : Call → IoResult ℕ
busy (call_socket _) = ok 7
busy (call_setsockopt _ _ _) = ok 0
busy (call_bind _ _) = err 98
busy (call_listen _ _) = ok 0
busy (call_connect _ _) = err einprogress

server_listen-eq-first_error_example : server_listen true busy localhost 128 new_socket ≡ (
  returns (err 98),
  record {
    net = (opened localhost 7 new_socket).net;
    calls =
        call_socket true
        ∷ call_setsockopt 7 so_reuseaddr true
        ∷ call_bind 7 (to_sockaddr true localhost)
        ∷ [];
  },
)
unfolding open_socket
server_listen-eq-first_error_example =
    server_listen-eq-first_error true busy localhost 128 new_socket
