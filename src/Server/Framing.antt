-- ===== src/Server/Framing.antt =====
-- What a server needs of a framing (src/server/framing.rs).
use rust_modbus.Prelude.{ℕ, Bool, false, ◌==◌}
use rust_modbus.Frame.Tcp.Header.{MbapHeader}

-- The trait, over the type of the headers.
pub record ServerFraming (Header : Type 0) : Type 0 where
  pub unit : Header → ℕ
  pub is_broadcast : (unit : ℕ) → Bool

abbrev pub server_tcp : ServerFraming MbapHeader
server_tcp = record { unit = λ header. header.unit_id; is_broadcast = λ unit. false }

-- For RTU, ASCII and RTU over a byte stream alike.
abbrev pub server_serial : ServerFraming ℕ
server_serial = record { unit = λ header. header; is_broadcast = λ unit. unit == 0 }
