-- ===== src/Tests.antt =====
-- The theorems at concrete requests, and runs of the code on them.
use rust_modbus.Prelude.{ℕ, ◌+◌, ◌%◌, ◌≤◌, ◌≡◌, refl, List, [], ◌∷◌, ◌++◌, arith, length, ok}
mod Pipeline
mod Server
mod Client
mod Conversation
mod Responses
mod Transports
use rust_modbus.Buffer.{extend, owned}
use rust_modbus.Buffer.Relative.{appended}
use rust_modbus.Parse.Reference.{reference, reference-IsWinnow}
use rust_modbus.Frame.Bytes.{IsU16}
use rust_modbus.Frame.Function
use rust_modbus.Frame.Function.RoundTrip
use rust_modbus.Frame.Framing.{encode_request, request, complete}
use rust_modbus.Frame.Pdu.Request.{
  RequestPdu, mask_write_register, read_write_multiple_registers, decode,
}
use rust_modbus.Frame.Pdu.Request.Write.{encode, encode_into}
use rust_modbus.Frame.Pdu.Request.Appends.{encode_into-appended}
use rust_modbus.Frame.Pdu.Request.Decodes.{request_decode-encode}
use rust_modbus.Frame.Pdu.Request.Encodes.{request_encode-decode}
use rust_modbus.Frame.Tcp
use rust_modbus.Frame.Tcp.{tcp, tcp_decode-encode, tcp-adu_len-encode}
use rust_modbus.Frame.Tcp.Header.{MbapHeader}
use rust_modbus.Frame.Tcp.Split.{adu_len}
use rust_modbus.Frame.Rtu
use rust_modbus.Frame.Rtu.{rtu, rtu_decode-encode}
use rust_modbus.Frame.Rtu.Split
use rust_modbus.Frame.Rtu.Adu
use rust_modbus.Frame.Rtu.Adu.{adu-split}
use rust_modbus.Frame.Rtu.Extent.{derive_extent}
use rust_modbus.Frame.Rtu.Boundary.{derive_extent-adu}
use rust_modbus.Frame.Ascii
use rust_modbus.Frame.Ascii.Wrap.{wrap_into}
use rust_modbus.Frame.Ascii.Adu.{split-wrap_into}

abbrev registers_pdu : RequestPdu
registers_pdu = read_write_multiple_registers 3 6 14 (255 ∷ 256 ∷ [])

abbrev registers_bytes : List ℕ
registers_bytes = 23 ∷ 0 ∷ 3 ∷ 0 ∷ 6 ∷ 0 ∷ 14 ∷ 0 ∷ 2 ∷ 4 ∷ 0 ∷ 255 ∷ 1 ∷ 0 ∷ []

registers_encode : encode registers_pdu ≡ ok registers_bytes
unfolding encode rust_modbus.Buffer.◌>>=◌ rust_modbus.Frame.Pdu.Limits.check_range
    rust_modbus.Frame.Pdu.Encode.quantity_of rust_modbus.Frame.Pdu.Encode.sized
    rust_modbus.Frame.Pdu.Words.push_registers
registers_encode = refl

registers_decode_run : decode reference registers_bytes ≡ ok registers_pdu
unfolding decode reference Function.decode rust_modbus.Frame.Pdu.Decode.quantified_bytes
    rust_modbus.Frame.Pdu.Bits.register_width rust_modbus.Frame.Pdu.Words.registers_from_bytes
registers_decode_run = refl

abbrev mask_pdu : RequestPdu
mask_pdu = mask_write_register 4 242 37

abbrev mask_bytes : List ℕ
mask_bytes = 22 ∷ 0 ∷ 4 ∷ 0 ∷ 242 ∷ 0 ∷ 37 ∷ []

mask_encode : encode mask_pdu ≡ ok mask_bytes
unfolding encode rust_modbus.Frame.Pdu.Encode.sized
mask_encode = refl

request_decode-encode_example : decode reference mask_bytes ≡ ok mask_pdu
request_decode-encode_example =
    request_decode-encode reference mask_pdu mask_bytes reference-IsWinnow (omega arith) mask_encode

request_encode-decode_example : encode registers_pdu ≡ ok registers_bytes
request_encode-decode_example =
    request_encode-decode reference registers_pdu registers_bytes reference-IsWinnow (omega arith)
      registers_decode_run

encode_into-appended_example :
    encode_into mask_pdu (1 ∷ 2 ∷ []) ≡ appended (1 ∷ 2 ∷ []) (encode mask_pdu)
encode_into-appended_example = encode_into-appended mask_pdu (1 ∷ 2 ∷ [])

abbrev header : MbapHeader
header = record { transaction_id = 5; unit_id = 17 }

abbrev tcp_bytes : List ℕ
tcp_bytes = 0 ∷ 5 ∷ 0 ∷ 0 ∷ 0 ∷ 8 ∷ 17 ∷ mask_bytes

tcp_encode : encode_request (tcp reference) header mask_pdu ≡ ok tcp_bytes
unfolding encode_request Tcp.encode_request_into encode rust_modbus.Frame.Pdu.Encode.sized
tcp_encode = refl

tcp_decode-encode_example : Tcp.decode_request reference tcp_bytes ≡ ok (header, mask_pdu)
tcp_decode-encode_example =
    tcp_decode-encode reference header mask_pdu tcp_bytes reference-IsWinnow (omega arith)
      (omega arith) tcp_encode

-- A checksum that stands in for the CRC.
abbrev sum : List ℕ → ℕ
sum bytes = elim bytes [ [] ↦ 0 | x ∷ (xs → s) ↦ (x + s) % 65536 ]

sum-IsU16 : (bytes : List ℕ) → IsU16 (sum bytes)
sum-IsU16 [] = omega arith
sum-IsU16 (x ∷ xs) = omega arith

abbrev rtu_bytes : List ℕ
rtu_bytes = 17 ∷ 22 ∷ 0 ∷ 4 ∷ 0 ∷ 242 ∷ 0 ∷ 37 ∷ 66 ∷ 1 ∷ []

rtu_encode : encode_request (rtu sum reference) 17 mask_pdu ≡ ok rtu_bytes
unfolding encode_request Rtu.encode_request_into encode rust_modbus.Frame.Pdu.Encode.sized
rtu_encode = refl

rtu_decode-encode_example :
    (Rtu.decode_request sum reference rtu_bytes ≡ ok (17, mask_pdu)) × (length rtu_bytes ≤ 256)
rtu_decode-encode_example =
    rtu_decode-encode sum reference 17 mask_pdu rtu_bytes sum-IsU16 reference-IsWinnow (omega arith)
      rtu_encode

rtu_split : Split.split sum rtu_bytes ≡ ok (17, mask_bytes)
unfolding Split.split
rtu_split = refl

adu-split_example : rtu_bytes ≡ Adu.adu sum 17 mask_bytes
adu-split_example = adu-split sum rtu_bytes 17 mask_bytes (omega arith) rtu_split

derive_extent-adu_example :
    derive_extent request (Adu.adu sum 17 registers_bytes ++ 1 ∷ [])
    ≡ ok (complete (length (Adu.adu sum 17 registers_bytes)))
derive_extent-adu_example =
    derive_extent-adu sum 17 registers_pdu registers_bytes (1 ∷ []) tt registers_encode

split-wrap_into_example :
    (bs : List ℕ) × (owned (wrap_into 17 (extend mask_bytes)) ≡ ok bs)
    × (length bs ≤ 513)
    × (Ascii.split bs ≡ ok (17, mask_bytes))
split-wrap_into_example =
    split-wrap_into 17 mask_bytes (omega arith) (omega arith) (omega arith) (omega arith)

tcp-adu_len-encode_example :
    (length tcp_bytes ≤ 260) × (adu_len (tcp_bytes ++ 9 ∷ []) ≡ ok (length tcp_bytes))
tcp-adu_len-encode_example =
    tcp-adu_len-encode header mask_pdu tcp_bytes (9 ∷ []) (omega arith) tcp_encode
