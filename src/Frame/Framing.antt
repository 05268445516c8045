-- ===== src/Frame/Framing.antt =====
-- The ADU framing abstraction (src/frame/framing.rs).
use rust_modbus.Prelude.{ℕ, ◌≤◌, ◌≡◌, Bool, true, false, List, length, ok}
pub mod Wrap
pub mod Laws
use rust_modbus.Error.{Result}
use rust_modbus.Buffer.{Buffer, Writer, owned}
use rust_modbus.Buffer.Relative.{appended}
use rust_modbus.Frame.Pdu.Request.{RequestPdu}
use rust_modbus.Frame.Pdu.Response.{ResponsePdu}
use rust_modbus.Frame.Pdu.Response.Typed
use rust_modbus.Frame.Pdu.Response.Write
use rust_modbus.Frame.Pdu.Request.Typed.{IsCanonical}
use rust_modbus.Frame.Pdu.Request.Write.{encode}

pub data Direction : Type 0 where
  request response : Direction

pub data Extent : Type 0 where
  need_more : Extent
  complete : ℕ → Extent

pub data AduBoundary : Type 0 where
  prefixed : (prefix : ℕ) (total : List ℕ → Result ℕ) → AduBoundary
  delimited : (start : ℕ) (terminator : List ℕ) → AduBoundary
  silence : AduBoundary
  content_length : (min : ℕ) (extent : Direction → List ℕ → Result Extent) → AduBoundary

unfoldable pub is_self_locating : AduBoundary → Bool
is_self_locating (delimited start terminator) = true
is_self_locating silence = true
is_self_locating (prefixed prefix total) = false
is_self_locating (content_length min extent) = false

-- The trait.
pub record Framing : Type 1 where
  pub Header : Type 0
  pub max_adu_len : ℕ
  pub decode_request : List ℕ → Result (Header × RequestPdu)
  pub encode_request_into : Header → RequestPdu → Writer (Unit {0})
  pub decode_response : List ℕ → Result (Header × ResponsePdu)
  pub encode_response_into : Header → ResponsePdu → Writer (Unit {0})
  pub boundary : AduBoundary

-- `Framing::encode_request`
unfoldable pub encode_request : (f : Framing) → f.Header → RequestPdu → Result (List ℕ)
unfolding owned
encode_request f header pdu = owned (f.encode_request_into header pdu)

-- `Framing::encode_response`
unfoldable pub encode_response : (f : Framing) → f.Header → ResponsePdu → Result (List ℕ)
unfolding owned
encode_response f header pdu = owned (f.encode_response_into header pdu)

-- What a client or a server relies on in a framing: what it writes it reads back, within the
-- length that it promises, behind what the buffer holds, and a failure leaves the buffer alone.
pub record IsFraming (f : Framing) (IsHeader : f.Header → Type 0) : Type 0 where
  pub reads :
      (header : f.Header) (pdu : RequestPdu) (bs : List ℕ)
      → IsHeader header
      → IsCanonical pdu
      → encode_request f header pdu ≡ ok bs
      → f.decode_request bs ≡ ok (header, pdu)
  pub bounded :
      (header : f.Header) (pdu : RequestPdu) (bs : List ℕ)
      → IsCanonical pdu
      → encode_request f header pdu ≡ ok bs
      → length bs ≤ f.max_adu_len
  pub appends :
      (header : f.Header) (pdu : RequestPdu) (out : Buffer)
      → IsCanonical pdu
      → f.encode_request_into header pdu out ≡ appended out (encode_request f header pdu)
  pub accepts :
      (header : f.Header) (pdu : RequestPdu) (pdu_bytes : List ℕ)
      → IsCanonical pdu
      → encode pdu ≡ ok pdu_bytes
      → (bs : List ℕ) × (encode_request f header pdu ≡ ok bs)
  pub accepts_response :
      (header : f.Header) (pdu : ResponsePdu) (pdu_bytes : List ℕ)
      → Write.encode pdu ≡ ok pdu_bytes
      → (bs : List ℕ) × (encode_response f header pdu ≡ ok bs)
  pub reads_response :
      (header : f.Header) (pdu : ResponsePdu) (bs : List ℕ)
      → IsHeader header
      → Typed.IsCanonical pdu
      → encode_response f header pdu ≡ ok bs
      → f.decode_response bs ≡ ok (header, Typed.padded pdu)
  pub response_bounded :
      (header : f.Header) (pdu : ResponsePdu) (bs : List ℕ)
      → encode_response f header pdu ≡ ok bs
      → length bs ≤ f.max_adu_len
  pub response_appends :
      (header : f.Header) (pdu : ResponsePdu) (out : Buffer)
      → f.encode_response_into header pdu out ≡ appended out (encode_response f header pdu)
