-- ===== src/Frame/Rtu.antt =====
-- RTU framing, over a serial line and over a byte stream (src/frame/rtu.rs).
use rust_modbus.Prelude.{ℕ, ◌≤◌, ◌≡◌, refl, List, arith, length, ok, and_then, map_ok}
use rust_modbus.Frame.Framing.{encode_request}
pub mod Split
pub mod Wrap
pub mod Adu
pub mod Extent
pub mod Boundary
use rust_modbus.Error.{Result}
use rust_modbus.Buffer.{Writer}
use rust_modbus.Parse.Stream.{Winnow, IsWinnow}
use rust_modbus.Frame.Bytes.{IsU16}
use rust_modbus.Frame.Framing.{AduBoundary, silence, content_length, Framing, IsFraming}
use rust_modbus.Frame.Framing.Wrap.{Appends}
use rust_modbus.Frame.Framing.Laws.{IsWrapping, wrapping-IsFraming}
use rust_modbus.Frame.Pdu.Request
use rust_modbus.Frame.Pdu.Request.{RequestPdu}
use rust_modbus.Frame.Pdu.Response
use rust_modbus.Frame.Pdu.Response.{ResponsePdu}
use rust_modbus.Frame.Pdu.Response.Appends.{response_encode_into-appended}
use rust_modbus.Frame.Pdu.Request.Typed.{IsCanonical}
use rust_modbus.Frame.Pdu.Request.Write.{encode, encode_into}
use rust_modbus.Frame.Pdu.Request.Appends.{encode_into-appended}
use rust_modbus.Frame.Rtu.Split.{max_adu_len, split}
use rust_modbus.Frame.Rtu.Wrap.{wrap_into}
use rust_modbus.Frame.Rtu.Adu.{adu, length-adu, wrap_into-Appends, split-adu}
use rust_modbus.Frame.Rtu.Extent.{derive_extent}

unfoldable pub decode_request : (List ℕ → ℕ) → Winnow → List ℕ → Result (ℕ × RequestPdu)
unfolding split
decode_request crc16 w bytes =
    and_then (split crc16 bytes)
      (λ (header, pdu). map_ok (λ request. (header, request)) (Request.decode w pdu))

unfoldable pub decode_response : (List ℕ → ℕ) → Winnow → List ℕ → Result (ℕ × ResponsePdu)
unfolding split
decode_response crc16 w bytes =
    and_then (split crc16 bytes)
      (λ (header, pdu). map_ok (λ response. (header, response)) (Response.decode w pdu))

unfoldable pub encode_response_into : (List ℕ → ℕ) → ℕ → ResponsePdu → Writer (Unit {0})
unfolding wrap_into
encode_response_into crc16 header pdu = wrap_into crc16 header (Response.Write.encode_into pdu)

unfoldable pub encode_request_into : (List ℕ → ℕ) → ℕ → RequestPdu → Writer (Unit {0})
unfolding wrap_into
encode_request_into crc16 header pdu = wrap_into crc16 header (encode_into pdu)

-- The two framings differ in the boundary alone.
abbrev with_boundary : AduBoundary → (List ℕ → ℕ) → Winnow → Framing
with_boundary boundary crc16 w = record {
  Header = ℕ;
  max_adu_len = max_adu_len;
  decode_request = decode_request crc16 w;
  encode_request_into = encode_request_into crc16;
  decode_response = decode_response crc16 w;
  encode_response_into = encode_response_into crc16;
  boundary = boundary;
}

abbrev pub rtu : (List ℕ → ℕ) → Winnow → Framing
rtu = with_boundary silence

abbrev pub rtu_over_tcp : (List ℕ → ℕ) → Winnow → Framing
rtu_over_tcp = with_boundary (content_length 4 derive_extent)

rtu-wraps :
    (crc16 : List ℕ → ℕ) (header : ℕ) (pdu : RequestPdu)
    → Appends (encode_request_into crc16 header pdu) (map_ok (adu crc16 header) (encode pdu))
unfolding encode_request_into
rtu-wraps crc16 header pdu =
    wrap_into-Appends crc16 header (encode_into pdu) (encode pdu) (encode_into-appended pdu)

rtu-wraps_response :
    (crc16 : List ℕ → ℕ) (header : ℕ) (pdu : ResponsePdu)
    → Appends
        (encode_response_into crc16 header pdu)
        (map_ok (adu crc16 header) (Response.Write.encode pdu))
unfolding encode_response_into
rtu-wraps_response crc16 header pdu =
    wrap_into-Appends crc16 header (Response.Write.encode_into pdu) (Response.Write.encode pdu)
      (response_encode_into-appended pdu)

module _ (crc16 : List ℕ → ℕ) (law : (bytes : List ℕ) → IsU16 (crc16 bytes)) where
  rtu-splits :
      (w : Winnow) (header : ℕ) (pdu : List ℕ)
      → 1 ≤ length pdu
      → length pdu ≤ 253
      → decode_request crc16 w (adu crc16 header pdu)
        ≡ map_ok (λ (r : RequestPdu). (header, r)) (Request.decode w pdu)
  unfolding decode_request
  rtu-splits w header pdu l u = rw (split-adu crc16 header pdu law l u) refl

  rtu-splits_response :
      (w : Winnow) (header : ℕ) (pdu : List ℕ)
      → 1 ≤ length pdu
      → length pdu ≤ 253
      → decode_response crc16 w (adu crc16 header pdu)
        ≡ map_ok (λ (r : ResponsePdu). (header, r)) (Response.decode w pdu)
  unfolding decode_response
  rtu-splits_response w header pdu l u = rw (split-adu crc16 header pdu law l u) refl

  rtu-IsWrapping :
      (boundary : AduBoundary) (w : Winnow)
      → IsWrapping w (with_boundary boundary crc16 w) (λ (header : ℕ). Unit {0})
  rtu-IsWrapping boundary w = record {
    adu = adu crc16;
    wraps = λ header pdu t. rtu-wraps crc16 header pdu;
    wraps_response = rtu-wraps_response crc16;
    adu_bounded = λ header pdu u. omega (arith, length-adu crc16 header pdu);
    splits = λ header pdu t. rtu-splits w header pdu;
    splits_response = λ header pdu t. rtu-splits_response w header pdu;
  }

-- Under any `winnow` with the documented behaviour and any checksum of 16 bits, the RTU framings
-- read the request or the response and the address that they wrote, the bits of a response filled
-- up to whole bytes, write at most 256 bytes, write them behind what the buffer holds, leave the
-- buffer alone when they fail, and frame every request that encodes; all for canonical PDUs.
pub rtu-IsFraming :
    (crc16 : List ℕ → ℕ)
    → ((bytes : List ℕ) → IsU16 (crc16 bytes))
    → (w : Winnow) → IsWinnow w
    → IsFraming (rtu crc16 w) (λ (header : ℕ). Unit {0})
      × IsFraming (rtu_over_tcp crc16 w) (λ (header : ℕ). Unit {0})
rtu-IsFraming crc16 law w winnow = (
  wrapping-IsFraming (rtu-IsWrapping crc16 law silence w) winnow,
  wrapping-IsFraming (rtu-IsWrapping crc16 law (content_length 4 derive_extent) w) winnow,
)

-- For a checksum of 16 bits and a request whose fields are in the ranges of their Rust types, and
-- that holds no MEI body `Other` under the type 13 or 14 of another variant, what `encode_request`
-- returns is read back, under any `winnow` with the documented behaviour, as the same address and
-- request, and has 256 bytes at most.
pub rtu_decode-encode :
    (crc16 : List ℕ → ℕ) (w : Winnow) (address : ℕ) (pdu : RequestPdu) (bs : List ℕ)
    → ((bytes : List ℕ) → IsU16 (crc16 bytes))
    → IsWinnow w
    → IsCanonical pdu
    → encode_request (rtu crc16 w) address pdu ≡ ok bs
    → (decode_request crc16 w bs ≡ ok (address, pdu)) × (length bs ≤ 256)
rtu_decode-encode crc16 w address pdu bs law winnow t e =
    let framing = (rtu-IsFraming crc16 law w winnow).0 in
    (framing.reads address pdu bs tt t e, framing.bounded address pdu bs t e)
