-- ===== src/Client.antt =====
-- The client (src/client).
pub mod Framing
pub mod Matching
pub mod Call
pub mod Methods
pub mod Transaction
pub mod Pipeline
pub mod Sync
