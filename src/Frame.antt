-- ===== src/Frame.antt =====
-- The frame layer (src/frame): codes, PDUs and the framings around them.
pub mod Code
pub mod Bytes
pub mod Function
pub mod Exception
pub mod Diagnostics
pub mod File
pub mod Mei
pub mod Pdu
pub mod Framing
pub mod Tcp
pub mod Rtu
pub mod Ascii
