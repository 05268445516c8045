-- ===== src/Transport.antt =====
-- The transports (src/transport).
pub mod Reader
pub mod Stream
pub mod Serial
pub mod Udp
pub mod Tcp
