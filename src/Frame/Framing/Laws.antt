-- ===== src/Frame/Framing/Laws.antt =====
-- The laws of a framing follow from the bytes of its ADUs.
use rust_modbus.Prelude.{
  ℕ, ◌≤◌, ◌≡◌, refl, sym, ap, ◌∙◌, inl, inr, List, length, ok, map_ok, Outcome-cases,
}
use rust_modbus.Buffer.Relative.{appended}
use rust_modbus.Parse.Stream.{Winnow, IsWinnow}
use rust_modbus.Frame.Framing.{Framing, IsFraming, encode_request, encode_response}
use rust_modbus.Frame.Framing.Wrap.{Appends, owned-Appends, encode-size, encode-response_size}
use rust_modbus.Frame.Pdu.Response.{ResponsePdu}
use rust_modbus.Frame.Pdu.Response
use rust_modbus.Frame.Pdu.Response.Write
use rust_modbus.Frame.Pdu.Response.Decodes.{response_decode-encode}
use rust_modbus.Frame.Pdu.Response.Appends.{encode-bounded}
use rust_modbus.Frame.Pdu.Request.{RequestPdu, decode}
use rust_modbus.Frame.Pdu.Request.Typed.{IsCanonical}
use rust_modbus.Frame.Pdu.Request.Write.{encode}
use rust_modbus.Frame.Pdu.Request.Decodes.{request_decode-encode}

-- A framing whose ADU is a function of the header and of the bytes of the PDU.
pub record IsWrapping (w : Winnow) (f : Framing) (IsHeader : f.Header → Type 0) : Type 0 where
  pub adu : f.Header → List ℕ → List ℕ
  pub wraps :
      (header : f.Header) (pdu : RequestPdu)
      → IsCanonical pdu
      → Appends (f.encode_request_into header pdu) (map_ok (adu header) (encode pdu))
  pub wraps_response :
      (header : f.Header) (pdu : ResponsePdu)
      → Appends
          (f.encode_response_into header pdu)
          (map_ok (adu header) (Response.Write.encode pdu))
  pub adu_bounded :
      (header : f.Header) (pdu : List ℕ)
      → length pdu ≤ 253
      → length (adu header pdu) ≤ f.max_adu_len
  pub splits :
      (header : f.Header) (pdu : List ℕ)
      → IsHeader header
      → 1 ≤ length pdu
      → length pdu ≤ 253
      → f.decode_request (adu header pdu) ≡ map_ok (λ (r : RequestPdu). (header, r)) (decode w pdu)
  pub splits_response :
      (header : f.Header) (pdu : List ℕ)
      → IsHeader header
      → 1 ≤ length pdu
      → length pdu ≤ 253
      → f.decode_response (adu header pdu)
        ≡ map_ok (λ (r : ResponsePdu). (header, r)) (Response.decode w pdu)

module _ {w : Winnow} {f : Framing} {IsHeader : f.Header → Type 0}
    (h : IsWrapping w f IsHeader) where
  encoded :
      (header : f.Header) (pdu : RequestPdu)
      → IsCanonical pdu
      → encode_request f header pdu ≡ map_ok (h.adu header) (encode pdu)
  unfolding encode_request
  encoded header pdu t = owned-Appends _ _ (h.wraps header pdu t)

  pub encoded-bytes :
      (header : f.Header) (pdu : RequestPdu) (bs : List ℕ)
      → IsCanonical pdu
      → encode_request f header pdu ≡ ok bs
      → (b : List ℕ) × (encode pdu ≡ ok b) × (bs ≡ h.adu header b)
  encoded-bytes header pdu bs t e =
      let e' = sym (encoded header pdu t) ∙ e in
      elim (Outcome-cases (encode pdu)) [
        | inl (b, eb) ↦ (b, eb, cc)
        | inr (inl (x, ex)) ↦ absurd (cc)
        | inr (inr es) ↦ absurd (cc)
      ]

  encoded_response :
      (header : f.Header) (pdu : ResponsePdu)
      → encode_response f header pdu ≡ map_ok (h.adu header) (Response.Write.encode pdu)
  unfolding encode_response
  encoded_response header pdu = owned-Appends _ _ (h.wraps_response header pdu)

  pub response-bytes :
      (header : f.Header) (pdu : ResponsePdu) (bs : List ℕ)
      → encode_response f header pdu ≡ ok bs
      → (b : List ℕ) × (Response.Write.encode pdu ≡ ok b) × (bs ≡ h.adu header b)
  response-bytes header pdu bs e =
      let e' = sym (encoded_response header pdu) ∙ e in
      elim (Outcome-cases (Response.Write.encode pdu)) [
        | inl (b, eb) ↦ (b, eb, cc)
        | inr (inl (x, ex)) ↦ absurd (cc)
        | inr (inr es) ↦ absurd (cc)
      ]

  pub wrapping-IsFraming : IsWinnow w → IsFraming f IsHeader
  wrapping-IsFraming law = record {
    reads = λ header pdu bs t ht e.
        let (b, eb, ebs) = encoded-bytes header pdu bs ht e in
        let (lo, hi) = encode-size pdu b ht eb in
        rw (ebs, h.splits header b t lo hi, request_decode-encode w pdu b law ht eb) refl;
    bounded = λ header pdu bs ht e.
        let (b, eb, ebs) = encoded-bytes header pdu bs ht e in
        rw ebs (h.adu_bounded header b (encode-size pdu b ht eb).1);
    appends = λ header pdu out t.
        h.wraps header pdu t out ∙ ap (appended out) (sym (encoded header pdu t));
    accepts =
        λ header pdu b t e. (h.adu header b, encoded header pdu t ∙ ap (map_ok (h.adu header)) e);
    accepts_response = λ header pdu b e.
        (h.adu header b, encoded_response header pdu ∙ ap (map_ok (h.adu header)) e);
    reads_response = λ header pdu bs t ht e.
        let (b, eb, ebs) = response-bytes header pdu bs e in
        let (lo, hi) = encode-response_size pdu b ht eb in
        rw (ebs, h.splits_response header b t lo hi, response_decode-encode w pdu b law ht eb) refl;
    response_bounded = λ header pdu bs e.
        let (b, eb, ebs) = response-bytes header pdu bs e in
        rw ebs (h.adu_bounded header b (encode-bounded pdu b eb));
    response_appends = λ header pdu out.
        h.wraps_response header pdu out ∙ ap (appended out) (sym (encoded_response header pdu));
  }
