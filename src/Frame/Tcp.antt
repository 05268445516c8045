-- ===== src/Frame/Tcp.antt =====
-- TCP framing (src/frame/tcp.rs).
use rust_modbus.Prelude.{ℕ, ◌≤◌, ◌≡◌, refl, List, ◌++◌, arith, length, ok, and_then, map_ok}
use rust_modbus.Buffer.{Buffer}
use rust_modbus.Buffer.Relative.{appended}
use rust_modbus.Parse.Reference.{reference, reference-IsWinnow}
use rust_modbus.Frame.Framing.{encode_request, encode_response}
use rust_modbus.Frame.Framing.Laws.{encoded-bytes}
use rust_modbus.Frame.Tcp.Adu.{adu_len-adu}
pub mod Header
pub mod Split
pub mod Wrap
pub mod Adu
use rust_modbus.Parse.Stream.{Winnow, IsWinnow}
use rust_modbus.Frame.Framing.{prefixed, Framing, IsFraming}
use rust_modbus.Frame.Pdu.Request
use rust_modbus.Frame.Pdu.Request.{RequestPdu}
use rust_modbus.Frame.Pdu.Response
use rust_modbus.Frame.Pdu.Response.{ResponsePdu}
use rust_modbus.Frame.Pdu.Response.Typed
use rust_modbus.Frame.Pdu.Response.Appends.{response_encode_into-appended, encode-bounded}
use rust_modbus.Error.{Result}
use rust_modbus.Buffer.{Writer}
use rust_modbus.Frame.Framing.Laws.{IsWrapping, wrapping-IsFraming}
use rust_modbus.Buffer.Relative.{appended}
use rust_modbus.Frame.Framing.Wrap.{Appends, encode-size}
use rust_modbus.Frame.Pdu.Request.Write.{encode, encode_into}
use rust_modbus.Frame.Pdu.Request.Appends.{encode_into-appended}
use rust_modbus.Frame.Pdu.Request.Typed.{IsCanonical}
use rust_modbus.Frame.Tcp.Adu.{adu, wrap_into-Appends, HeaderIsTyped, split-adu}
use rust_modbus.Frame.Tcp.Header.{MbapHeader, max_adu_len, length_prefix_len}
use rust_modbus.Frame.Tcp.Split.{adu_len, split}
use rust_modbus.Frame.Tcp.Wrap.{wrap_into}

unfoldable pub decode_request : Winnow → List ℕ → Result (MbapHeader × RequestPdu)
unfolding split
decode_request w bytes =
    and_then (split bytes)
      (λ (header, pdu). map_ok (λ request. (header, request)) (Request.decode w pdu))

unfoldable pub decode_response : Winnow → List ℕ → Result (MbapHeader × ResponsePdu)
unfolding split
decode_response w bytes =
    and_then (split bytes)
      (λ (header, pdu). map_ok (λ response. (header, response)) (Response.decode w pdu))

unfoldable pub encode_response_into : MbapHeader → ResponsePdu → Writer (Unit {0})
unfolding wrap_into
encode_response_into header pdu = wrap_into header (Response.Write.encode_into pdu)

unfoldable pub encode_request_into : MbapHeader → RequestPdu → Writer (Unit {0})
unfolding wrap_into
encode_request_into header pdu = wrap_into header (encode_into pdu)

abbrev pub tcp : Winnow → Framing
tcp w = record {
  Header = MbapHeader;
  max_adu_len = max_adu_len;
  decode_request = decode_request w;
  encode_request_into = encode_request_into;
  decode_response = decode_response w;
  encode_response_into = encode_response_into;
  boundary = prefixed length_prefix_len adu_len;
}

tcp-wraps :
    (header : MbapHeader) (pdu : RequestPdu)
    → IsCanonical pdu
    → Appends (encode_request_into header pdu) (map_ok (adu header) (encode pdu))
unfolding encode_request_into
tcp-wraps header pdu t =
    wrap_into-Appends header (encode_into pdu) (encode pdu) (λ b e. (encode-size pdu b t e).1)
      (encode_into-appended pdu)

tcp-wraps_response :
    (header : MbapHeader) (pdu : ResponsePdu)
    → Appends (encode_response_into header pdu) (map_ok (adu header) (Response.Write.encode pdu))
unfolding encode_response_into
tcp-wraps_response header pdu =
    wrap_into-Appends header (Response.Write.encode_into pdu) (Response.Write.encode pdu)
      (λ b e. encode-bounded pdu b e) (response_encode_into-appended pdu)

tcp-splits :
    (w : Winnow) (header : MbapHeader) (pdu : List ℕ)
    → HeaderIsTyped header
    → 1 ≤ length pdu
    → length pdu ≤ 253
    → decode_request w (adu header pdu)
      ≡ map_ok (λ (r : RequestPdu). (header, r)) (Request.decode w pdu)
unfolding decode_request
tcp-splits w header pdu t l u = rw (split-adu header pdu t l u) refl

tcp-splits_response :
    (w : Winnow) (header : MbapHeader) (pdu : List ℕ)
    → HeaderIsTyped header
    → 1 ≤ length pdu
    → length pdu ≤ 253
    → decode_response w (adu header pdu)
      ≡ map_ok (λ (r : ResponsePdu). (header, r)) (Response.decode w pdu)
unfolding decode_response
tcp-splits_response w header pdu t l u = rw (split-adu header pdu t l u) refl

tcp-IsWrapping : (w : Winnow) → IsWrapping w (tcp w) HeaderIsTyped
tcp-IsWrapping w = record {
  adu = adu;
  wraps = tcp-wraps;
  wraps_response = tcp-wraps_response;
  adu_bounded = λ header pdu u. omega arith;
  splits = tcp-splits w;
  splits_response = tcp-splits_response w;
}

-- Under any `winnow` with the documented behaviour, a TCP framing reads the request or the response
-- and the header that it wrote, the bits of a response filled up to whole bytes, writes at most 260
-- bytes, writes them behind what the buffer holds, leaves the buffer alone when it fails, and
-- frames every request that encodes; all for canonical PDUs and for headers whose fields are in the
-- ranges of their Rust types.
pub tcp-IsFraming : (w : Winnow) → IsWinnow w → IsFraming (tcp w) HeaderIsTyped
tcp-IsFraming w law = wrapping-IsFraming (tcp-IsWrapping w) law

-- For a header and a request whose fields are in the ranges of their Rust types, and that holds no
-- MEI body `Other` under the type 13 or 14 of another variant, what `encode_request` returns is
-- read back, under any `winnow` with the documented behaviour, as the same header and request.
pub tcp_decode-encode :
    (w : Winnow) (header : MbapHeader) (pdu : RequestPdu) (bs : List ℕ)
    → IsWinnow w
    → HeaderIsTyped header
    → IsCanonical pdu
    → encode_request (tcp w) header pdu ≡ ok bs
    → decode_request w bs ≡ ok (header, pdu)
tcp_decode-encode w header pdu bs law hh ht e = (tcp-IsFraming w law).reads header pdu bs hh ht e

-- For a canonical response and a header whose fields are in the ranges of their Rust types, what
-- `encode_response` returns is read back, under any `winnow` with the documented behaviour, as the
-- same header and the response with its bits filled up to whole bytes.
pub tcp_decode-encode_response :
    (w : Winnow) (header : MbapHeader) (pdu : ResponsePdu) (bs : List ℕ)
    → IsWinnow w
    → HeaderIsTyped header
    → Response.Typed.IsCanonical pdu
    → encode_response (tcp w) header pdu ≡ ok bs
    → decode_response w bs ≡ ok (header, Response.Typed.padded pdu)
tcp_decode-encode_response w header pdu bs law hh ht e =
    (tcp-IsFraming w law).reads_response header pdu bs hh ht e

-- The ADU of a canonical request has 260 bytes at most, and `adu_len` tells its length from its
-- front, whatever follows it in the stream.
pub tcp-adu_len-encode :
    (header : MbapHeader) (pdu : RequestPdu) (bs more : List ℕ)
    → IsCanonical pdu
    → encode_request (tcp reference) header pdu ≡ ok bs
    → (length bs ≤ 260) × (adu_len (bs ++ more) ≡ ok (length bs))
unfolding tcp-IsWrapping
tcp-adu_len-encode header pdu bs more t e =
    let (b, eb, ebs) = encoded-bytes (tcp-IsWrapping reference) header pdu bs t e in
    let (lo, hi) = encode-size pdu b t eb in rw ebs (omega arith, adu_len-adu header b more hi)

-- For a canonical request, `encode_request_into` appends what `encode_request` returns behind what
-- the buffer holds, and where that fails it fails with the same error and leaves the buffer as it
-- was.
pub tcp_encode_into-appended :
    (header : MbapHeader) (pdu : RequestPdu) (out : Buffer)
    → IsCanonical pdu
    → encode_request_into header pdu out ≡ appended out (encode_request (tcp reference) header pdu)
tcp_encode_into-appended header pdu out t =
    (tcp-IsFraming reference reference-IsWinnow).appends header pdu out t
