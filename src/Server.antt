-- ===== src/Server.antt =====
-- src/server: the file server.
pub mod FileServer
pub mod Cli
