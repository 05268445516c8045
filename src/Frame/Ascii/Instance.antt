-- ===== src/Frame/Ascii/Instance.antt =====
-- `impl Framing for Ascii` (src/frame/ascii.rs).
use rust_modbus.Prelude.{ℕ, List, and_then, map_ok}
use rust_modbus.Error.{Result}
use rust_modbus.Buffer.{Writer}
use rust_modbus.Parse.Stream.{Winnow}
use rust_modbus.Frame.Framing.{delimited, Framing}
use rust_modbus.Frame.Pdu.Request
use rust_modbus.Frame.Pdu.Request.{RequestPdu}
use rust_modbus.Frame.Pdu.Request.Write.{encode_into}
use rust_modbus.Frame.Pdu.Response
use rust_modbus.Frame.Pdu.Response.{ResponsePdu}
use rust_modbus.Frame.Pdu.Response.Write
use rust_modbus.Frame.Ascii.{start, terminator, max_adu_len, split}
use rust_modbus.Frame.Ascii.Wrap.{wrap_into}

unfoldable pub decode_request : Winnow → List ℕ → Result (ℕ × RequestPdu)
unfolding split
decode_request w bytes =
    and_then (split bytes)
      (λ (address, pdu). map_ok (λ request. (address, request)) (Request.decode w pdu))

unfoldable pub decode_response : Winnow → List ℕ → Result (ℕ × ResponsePdu)
unfolding split
decode_response w bytes =
    and_then (split bytes)
      (λ (address, pdu). map_ok (λ response. (address, response)) (Response.decode w pdu))

unfoldable pub encode_request_into : ℕ → RequestPdu → Writer (Unit {0})
unfolding wrap_into
encode_request_into header pdu = wrap_into header (encode_into pdu)

unfoldable pub encode_response_into : ℕ → ResponsePdu → Writer (Unit {0})
unfolding wrap_into
encode_response_into header pdu = wrap_into header (Response.Write.encode_into pdu)

abbrev pub ascii : Winnow → Framing
ascii w = record {
  Header = ℕ;
  max_adu_len = max_adu_len;
  decode_request = decode_request w;
  encode_request_into = encode_request_into;
  decode_response = decode_response w;
  encode_response_into = encode_response_into;
  boundary = delimited start terminator;
}
