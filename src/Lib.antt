-- ===== src/Lib.antt =====
-- Verification of the task runner: rust_task (tasks, sequences, the thread pool, timers, the
-- monitor), rust_io (the IO thread, files) and the sockets of rust_net.
--
-- The program. A `Sequence` holds tasks that must run one after the other: an immediate queue, a
-- heap of delayed tasks, and a flag that says whether a worker has it. Threads that post push a
-- task to the sequence and then the sequence to the queue of the `ThreadGroup`, or register its
-- deadline with the `DelayedTaskManager`, whose timer thread pushes the sequence when the deadline
-- has come. Workers pop sequences by priority, claim them, run one task and put them back. The
-- `TaskTracker` counts the tasks that hold up a shutdown; `RepeatingTimer` posts itself again and
-- again through a weak pointer. The `IoTaskRunner` is one thread that runs tasks and dispatches the
-- events of epoll to watchers; the `TaskMonitor` looks for workers that stay in one task. A
-- `FileProxy` posts blocking calls to a runner of the pool and their results to the IO thread; a
-- `SocketPosix` watches its descriptor there, `TcpSocket` sets it up, and the `TlsClientSocket`
-- pumps bytes between a socket and rustls.
--
-- Which file models what (paths from the root of the repository):
--   Task             rust_task/task.rs, task_traits.rs, and the closures the library builds
--   ThreadLocals     rust_task/sequence_token.rs, sequenced_task_runner.rs,
--                    thread_pool/worker_thread.rs
--   BinaryHeap       the documented behaviour of std's BinaryHeap, as a list in popping order
--   Sequence         rust_task/thread_pool/sequence.rs, task_source.rs
--   PriorityQueue    rust_task/thread_pool/priority_queue.rs
--   DelayedTaskManager   rust_task/thread_pool/delayed_task_manager.rs
--   ThreadGroup      rust_task/thread_pool/thread_group.rs: the queue and a worker's own state
--   System           all of these at work together: `step` is one access of shared state by one
--                    thread (a worker, a thread that posts, the timer), in any order
--   TaskTracker      rust_task/thread_pool/task_tracker.rs
--   ThreadPool       rust_task/thread_pool/thread_pool.rs: posting, `wrap` and `shutdown`
--   ThreadPool.AtWork    the same on the sequences, the queue and the workers of System
--   ThreadPool.Runners   the sequences that pools create, and the other takers of their tokens
--   RepeatingTimer   rust_task/timer.rs and the weak pointers of rust_task/bind.rs
--   Bind             rust_task/bind.rs: bound closures and the counts of references
--   TaskRunner       post_task and post_task_and_reply of rust_task/task_runner.rs in the pooled
--                    runners of rust_task/thread_pool and in rust_io/io_task_runner.rs
--   EventBus         rust_task/examples/event_bus.rs on a sequenced runner
--   IoTaskRunner     rust_io/io_task_runner.rs: watches, controllers, posting, the timeout
--   IoTaskRunner.Loop    its run_loop, one access of shared state per step; its wake-up in
--                    IoTaskRunner.Loop.Wake
--   TaskMonitor      rust_task/task_monitor.rs
--   SocketPosix      rust_net/socket_posix.rs: one socket on its IO thread; its addresses in
--                    SocketPosix.Address
--   TcpSocket        rust_net/tcp_socket.rs, tcp_client_socket.rs, tcp_server_socket.rs: set-up
--   TlsClientSocket  rust_net/tls_client_socket.rs over a transport and rustls; its histories in
--                    TlsClientSocket.Steps
--   FileProxy        rust_io/file_proxy.rs over a file system
--   Examples         concrete runs
--
-- How the code is read. Functions under one lock are pure functions on the state; a function with
-- two critical sections is two functions. Objects that threads share are named by numbers and kept
-- in one store. Closures are data. The clock is a number that never goes back. The kernel is a
-- parameter: a state with `epoll_ctl` on it; what other system calls return is part of the
-- schedule, or a function that answers each call. rustls (`ClientConnection`) and the file system
-- (`FileSystem`) are parameters too, and what a theorem takes from their documents are the laws in a
-- record of its file. A closure that waits for the transport of a TLS socket is data (`Done`, `Fed`).
--
-- Bounds and fuel. Counters of 64 bits wrap (`u64`); a theorem that needs a counter not to wrap
-- says so as a bound on the length of the history. The number of workers is not bounded. Every
-- loop is one step of the schedule or goes down a list, but the loop of `feed_one` in the TLS
-- socket, whose fuel is the length of the chunk: each turn takes a byte or more.
--
-- `post_task` and `post_delayed_task` of an IoTaskRunner, each with its test of `shutdown` and its
-- push, are one step, though the source pushes under the lock of the queue without a second test: a
-- task that passes the test before a shutdown counts as pushed before it. Their `wake` is a step of
-- its own.
--
-- Not modelled: the waiting of threads on condition variables is a step that changes nothing;
-- that `join_all` waits for its threads; ties in a heap pop in insertion order, and no theorem
-- rests on that where the order of the source leaves it open; the memory order of atomics, each
-- access being one step; panics on a poisoned lock or off the IO thread; the examples but for
-- the event bus, and the tests. A callback that a transport calls within the call itself is an
-- answer that comes at once, which it is because such a call is the last thing a function does.
pub mod Common
pub mod BinaryHeap
pub mod Task
pub mod ThreadLocals
pub mod Sequence
pub mod PriorityQueue
pub mod DelayedTaskManager
pub mod ThreadGroup
pub mod System
pub mod TaskTracker
pub mod ThreadPool
pub mod RepeatingTimer
pub mod Bind
pub mod TaskRunner
pub mod EventBus
pub mod IoTaskRunner
pub mod TaskMonitor
pub mod SocketPosix
pub mod TcpSocket
pub mod TlsClientSocket
pub mod FileProxy
pub mod Examples
