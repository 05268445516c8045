-- ===== src/Frame/Pdu.antt =====
-- Request and response PDUs (src/frame/pdu.rs).
pub mod Bits
pub mod Words
pub mod Limits
pub mod Decode
pub mod Encode
pub mod Request
pub mod Response
