-- ===== src/Client/Framing.antt =====
-- What a client needs of a framing (src/client/framing.rs).
use rust_modbus.Prelude.{ℕ, Bool, false, ◌&&◌, ◌==◌}
use rust_modbus.Frame.Tcp.Header.{MbapHeader}

-- The trait, over the type of the headers.
pub record ClientFraming (Header : Type 0) : Type 0 where
  pub request_header : (unit transaction : ℕ) → Header
  pub is_response_to : (sent received : Header) → Bool
  pub is_broadcast : (unit : ℕ) → Bool

abbrev pub broadcast_unit : ℕ
broadcast_unit = 0

abbrev pub client_tcp : ClientFraming MbapHeader
client_tcp = record {
  request_header = λ unit transaction. record { transaction_id = transaction; unit_id = unit };
  is_response_to = λ sent received.
      sent.transaction_id == received.transaction_id && sent.unit_id == received.unit_id;
  is_broadcast = λ unit. false;
}

-- For RTU, ASCII and RTU over a byte stream alike.
abbrev pub client_serial : ClientFraming ℕ
client_serial = record {
  request_header = λ unit transaction. unit;
  is_response_to = λ sent received. sent == received;
  is_broadcast = λ unit. unit == broadcast_unit;
}
