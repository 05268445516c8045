-- ===== src/Server.antt =====
-- The server (src/server).
pub mod Framing
pub mod Service
pub mod Exchange
pub mod Accept
pub mod Handle
