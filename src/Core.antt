-- ===== src/Core.antt =====
-- src/core: the connection pool, the connection state machine, the event loop.
pub mod Io
pub mod Pool
pub mod Connection
pub mod EventLoop
pub mod TlsContext
pub mod Samples
