-- ===== src/Client/Matching.antt =====
-- What a server reads of a header that a client built (src/client/framing.rs,
-- src/server/framing.rs).
use rust_modbus.Prelude.{ℕ, ◌≡◌, sym, ap, subst, ◌↔◌, true, List, arith, ok}
use rust_modbus.Parse.Stream.{Winnow, IsWinnow}
use rust_modbus.Frame.Bytes.{IsByte, IsU16}
use rust_modbus.Frame.Framing.{encode_request}
use rust_modbus.Frame.Pdu.Request.{RequestPdu}
use rust_modbus.Frame.Pdu.Request.Typed.{IsCanonical}
use rust_modbus.Frame.Tcp.{tcp, decode_request, tcp_decode-encode}
use rust_modbus.Frame.Tcp.Header.{MbapHeader}
use rust_modbus.Client.Framing.{client_tcp}
use rust_modbus.Server.Framing.{server_tcp}

equal_headers : (a b : MbapHeader) → client_tcp.is_response_to a b ≡ true → a ≡ b
equal_headers a b h = ground arith

-- Over TCP, a header answers the one sent only if it is the same header.
pub tcp_is_response_to-eq :
    (sent received : MbapHeader)
    → (client_tcp.is_response_to sent received ≡ true) ↔ (sent ≡ received)
tcp_is_response_to-eq sent received = (
  equal_headers sent received,
  λ e. subst (λ h. client_tcp.is_response_to sent h ≡ true) e (ground arith),
)

-- The request that a client addresses to a unit over TCP is read by a server, under any `winnow`
-- with the documented behaviour, as that request to that unit, under a header that answers the one
-- sent; the unit and the transaction are in the ranges of their Rust types, and the request is
-- canonical.
pub tcp_request-served :
    (w : Winnow) (unit transaction : ℕ) (pdu request : RequestPdu) (bs : List ℕ)
    (received : MbapHeader)
    → IsWinnow w
    → IsByte unit
    → IsU16 transaction
    → IsCanonical pdu
    → encode_request (tcp w) (client_tcp.request_header unit transaction) pdu ≡ ok bs
    → decode_request w bs ≡ ok (received, request)
    → (request ≡ pdu)
      × (server_tcp.unit received ≡ unit)
      × (client_tcp.is_response_to (client_tcp.request_header unit transaction) received ≡ true)
tcp_request-served w unit transaction pdu request bs received law hu ht hp e d =
    let sent = client_tcp.request_header unit transaction in
    let r = tcp_decode-encode w sent pdu bs law (ht, hu) hp e in
    let same : received ≡ sent = cc in
    (
      cc,
      ap (λ (h : MbapHeader). h.unit_id) same,
      (tcp_is_response_to-eq sent received).1 (sym same),
    )
