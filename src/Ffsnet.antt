-- ===== src/Ffsnet.antt =====
-- The file transfer between nodes: src/ffsnet.
pub mod Client
pub mod Daemon
pub mod Protocol
pub mod Sockets
