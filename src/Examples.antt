-- ===== src/Examples.antt =====
-- Concrete runs of the components, one module per part.
mod Queues
mod Pool
mod Whole
mod Bus
mod Timers
mod Io
mod Sockets
mod Net
mod Files
mod Tls
mod Runners
