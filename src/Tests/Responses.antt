-- ===== src/Tests/Responses.antt =====
-- The theorems on the response PDUs, at concrete responses (src/frame/pdu.rs).
use rust_modbus.Prelude.{ℕ, ◌≡◌, refl, ◌↔◌, List, [], ◌∷◌, arith, ok}
use rust_modbus.Parse.Reference.{reference, reference-IsWinnow}
use rust_modbus.Frame.Function
use rust_modbus.Frame.Pdu.Request
use rust_modbus.Frame.Pdu.Request.{RequestPdu}
use rust_modbus.Frame.Pdu.Request.Typed as RequestTyped
use rust_modbus.Frame.Mei.{MeiRequest, MeiResponse}
use rust_modbus.Frame.Pdu.Response.Canonical.{response_decode-encode_iff}
use rust_modbus.Frame.Pdu.Request.Write as RequestWrite
use rust_modbus.Frame.Pdu.Request.Canonical.{request_decode-encode_iff}
use rust_modbus.Frame.Pdu.Response.{ResponsePdu, decode}
use rust_modbus.Frame.Pdu.Response.Typed.{IsCanonical, padded}
use rust_modbus.Frame.Pdu.Response.Write.{encode}
use rust_modbus.Frame.Pdu.Response.Decodes.{response_decode-encode}
use rust_modbus.Frame.Pdu.Response.Encodes.{response_encode-decode}

abbrev mask_pdu : ResponsePdu
mask_pdu = ResponsePdu.mask_write_register 4 242 37

abbrev mask_bytes : List ℕ
mask_bytes = 22 ∷ 0 ∷ 4 ∷ 0 ∷ 242 ∷ 0 ∷ 37 ∷ []

mask_encode : encode mask_pdu ≡ ok mask_bytes
unfolding encode rust_modbus.Frame.Pdu.Encode.sized
mask_encode = refl

response_decode-encode_example : decode reference mask_bytes ≡ ok (padded mask_pdu)
response_decode-encode_example =
    response_decode-encode reference mask_pdu mask_bytes reference-IsWinnow (omega arith)
      mask_encode

abbrev registers_bytes : List ℕ
registers_bytes = 3 ∷ 4 ∷ 0 ∷ 255 ∷ 1 ∷ 0 ∷ []

abbrev registers_pdu : ResponsePdu
registers_pdu = ResponsePdu.read_holding_registers (255 ∷ 256 ∷ [])

registers_run : decode reference registers_bytes ≡ ok registers_pdu
unfolding decode reference Function.decode rust_modbus.Frame.Pdu.Decode.counted_bytes
    rust_modbus.Frame.Pdu.Words.words_from_bytes rust_modbus.Frame.Pdu.Words.registers_from_bytes
    rust_modbus.Frame.Pdu.Decode.registers
registers_run = refl

response_encode-decode_example : encode registers_pdu ≡ ok registers_bytes
response_encode-decode_example =
    response_encode-decode reference registers_pdu registers_bytes reference-IsWinnow (omega arith)
      registers_run

-- An MEI body `Other` under the type of another variant, which encodes.
abbrev other_pdu : RequestPdu
other_pdu = RequestPdu.encapsulated_interface_transport (MeiRequest.other 14 [])

other_encode : RequestWrite.encode other_pdu ≡ ok (43 ∷ 14 ∷ [])
unfolding rust_modbus.Frame.Pdu.Request.Write.encode rust_modbus.Frame.Pdu.Encode.encode_body
    rust_modbus.Frame.Mei.Encode.encode_request_into
other_encode = refl

request_decode-encode_iff_example :
    (Request.decode reference (43 ∷ 14 ∷ []) ≡ ok other_pdu) ↔ RequestTyped.IsCanonical other_pdu
request_decode-encode_iff_example =
    request_decode-encode_iff reference other_pdu (43 ∷ 14 ∷ []) reference-IsWinnow (omega arith)
      other_encode

abbrev other_response : ResponsePdu
other_response = ResponsePdu.encapsulated_interface_transport (MeiResponse.other 13 (7 ∷ []))

other_response-encode : encode other_response ≡ ok (43 ∷ 13 ∷ 7 ∷ [])
unfolding encode rust_modbus.Frame.Pdu.Encode.encode_body
    rust_modbus.Frame.Mei.Encode.encode_response_into
other_response-encode = refl

response_decode-encode_iff_example :
    (decode reference (43 ∷ 13 ∷ 7 ∷ []) ≡ ok (padded other_response)) ↔ IsCanonical other_response
response_decode-encode_iff_example =
    response_decode-encode_iff reference other_response (43 ∷ 13 ∷ 7 ∷ []) reference-IsWinnow
      (omega arith) other_response-encode
