-- ===== src/Frame/Pdu/Response/DecodeRegions.antt =====
-- Decoding the response bodies of records and objects, of custom functions and of exceptions
-- (src/frame/pdu.rs).
use rust_modbus.Prelude.{
  ℕ, ◌+◌, ◌*◌, ◌/◌, ◌%◌, ◌<◌, bit_and, bit_or, ◌≡◌, ◌∙◌, inl, inr, List, [], ◌∷◌, arith, All, ok,
  Outcome-cases,
}
use rust_modbus.Buffer.{◌>>=◌}
use rust_modbus.Parse.Reference.{reference}
use rust_modbus.Frame.Code.{FunctionCode}
use rust_modbus.Frame.Function
use rust_modbus.Frame.Function.RoundTrip.{decode-encode}
use rust_modbus.Frame.Exception
use rust_modbus.Frame.Exception.{ExceptionResponse}
use rust_modbus.Frame.Exception.RoundTrip.{decode_code-encode_code, flag_bits}
use rust_modbus.Frame.Diagnostics
use rust_modbus.Frame.Diagnostics.{DiagnosticSubFunction}
use rust_modbus.Frame.Diagnostics.RoundTrip.{decode-encode as sub_function-decode-encode}
use rust_modbus.Frame.File.{FileRecordReadResponse, FileRecordWrite}
use rust_modbus.Frame.File.Items.{WriteIsTyped}
use rust_modbus.Frame.File.ReadResponses.{
  ResponseIsTyped, encode_read_responses_into-bytes, encode_read_responses_into-fits,
  decode_read_responses-bytes,
}
use rust_modbus.Frame.File.RoundTrip.{
  encode_write_records_into-bytes, encode_write_records_into-fits, decode_write_records-bytes,
}
use rust_modbus.Frame.File.Encode.Relative.{
  encode_read_responses_into-IsRelative, encode_write_records_into-IsRelative,
}
use rust_modbus.Frame.Mei.{MeiResponse}
use rust_modbus.Frame.Mei.Encode.{encode_response_into-IsRelative}
use rust_modbus.Frame.Mei.Objects.{
  ResponseIsCanonical, encode_response_into-fits, encode_response_into-bytes, decode_response-bytes,
}
use rust_modbus.Frame.Pdu.Words.{push_words_lem, length-words_bytes, words_from_bytes-words_bytes}
use rust_modbus.Frame.Pdu.Encode.{encode_diagnostics, encode_custom, encode_body}
use rust_modbus.Frame.Pdu.Decode.{diagnostic_body}
use rust_modbus.Frame.Pdu.Response.{
  diagnostics, read_file_record, write_file_record, encapsulated_interface_transport, custom,
  exception, decode,
}
use rust_modbus.Frame.Pdu.Response.Write.{encode}
use rust_modbus.Frame.Pdu.Response.Typed.{IsCanonical}

-- The bodies that are written as a whole behind the function code.
pub reads_decode :
    (records : List FileRecordReadResponse) (bs : List ℕ)
    → All ResponseIsTyped records
    → encode (read_file_record records) ≡ ok bs
    → decode reference bs ≡ ok (read_file_record records)
unfolding encode encode_body decode reference Function.decode ◌>>=◌
reads_decode records bs t h = ground (
  arith,
  (encode_read_responses_into-IsRelative records).at (20 ∷ []),
  encode_read_responses_into-fits records,
  encode_read_responses_into-bytes records,
  decode_read_responses-bytes records,
)

pub writes_decode :
    (records : List FileRecordWrite) (bs : List ℕ)
    → All WriteIsTyped records
    → encode (write_file_record records) ≡ ok bs
    → decode reference bs ≡ ok (write_file_record records)
unfolding encode encode_body decode reference Function.decode ◌>>=◌
writes_decode records bs t h = ground (
  arith,
  (encode_write_records_into-IsRelative records).at (21 ∷ []),
  encode_write_records_into-fits records,
  encode_write_records_into-bytes records,
  decode_write_records-bytes records,
)

pub mei_decode :
    (response : MeiResponse) (bs : List ℕ)
    → ResponseIsCanonical response
    → encode (encapsulated_interface_transport response) ≡ ok bs
    → decode reference bs ≡ ok (encapsulated_interface_transport response)
unfolding encode encode_body decode reference Function.decode ◌>>=◌
mei_decode response bs t h = ground (
  arith,
  (encode_response_into-IsRelative response).at (43 ∷ []),
  encode_response_into-fits response,
  encode_response_into-bytes response,
  decode_response-bytes response t,
)

-- The byte of a function code has the high bit clear.
code_small : (code : FunctionCode) {b : ℕ} → Function.encode code ≡ ok b → b < 128
unfolding Function.decode
code_small code {b} h = ground (arith, decode-encode code h)

pub custom_decode :
    (code : ℕ) (body bs : List ℕ)
    → encode (custom code body) ≡ ok bs
    → decode reference bs ≡ ok (custom code body)
unfolding encode encode_custom decode reference ◌>>=◌
custom_decode code body bs h = elim (Outcome-cases (Function.encode (FunctionCode.custom code))) [
  | inl (b, e) ↦
      ground (arith, decode-encode (FunctionCode.custom code) e, code_small _ e, flag_bits b)
  | inr (inl (x, e)) ↦ absurd (ground arith)
  | inr (inr e) ↦ absurd (ground arith)
]

exception_bytes :
    (response : ExceptionResponse) (bs : List ℕ)
    → encode (exception response) ≡ ok bs
    → (b c : ℕ) × (Function.encode response.function ≡ ok b)
      × (Exception.encode_code response.exception ≡ ok c)
      × (bs ≡ bit_or b 128 ∷ c ∷ [])
unfolding encode Exception.encode_into ◌>>=◌
exception_bytes response bs h = elim (Outcome-cases (Function.encode response.function)) [
  | inl (b, e) ↦ elim (Outcome-cases (Exception.encode_code response.exception)) [
    | inl (c, f) ↦ (b, c, e, f, ground arith)
    | inr (inl (x, f)) ↦ absurd (ground arith)
    | inr (inr f) ↦ absurd (ground arith)
  ]
  | inr (inl (x, e)) ↦ absurd (ground arith)
  | inr (inr e) ↦ absurd (ground arith)
]

flag_set :
    (b : ℕ)
    → b < 128
    → (bit_or b 128 ≡ b + 128) × (bit_and (b + 128) 128 ≡ 128) × (bit_and (b + 128) 127 ≡ b)
flag_set b h =
    let whole : b % 128 ≡ b = omega arith in
    let high : (b + 128) / 128 * 128 ≡ 128 = omega arith in
    let low : (b + 128) % 128 ≡ b = omega arith in
    let (p, q, r) = flag_bits b (omega arith) in
    let (p', q', r') = flag_bits (b + 128) (omega arith) in (rw whole at r, p' ∙ high, q' ∙ low)

exception_body :
    (response : ExceptionResponse) (b c : ℕ)
    → b < 128
    → Function.decode b ≡ ok response.function
    → Exception.decode_code c ≡ response.exception
    → decode reference (bit_or b 128 ∷ c ∷ []) ≡ ok (exception response)
unfolding decode Exception.decode
exception_body response b c h e f = let (p, q, r) = flag_set b h in ground arith

pub exception_decode :
    (response : ExceptionResponse) (bs : List ℕ)
    → encode (exception response) ≡ ok bs
    → decode reference bs ≡ ok (exception response)
exception_decode response bs h =
    let (b, c, e, f, bytes) = exception_bytes response bs h in
    rw bytes (
      exception_body response b c (code_small _ e) (decode-encode response.function e)
        (decode_code-encode_code response.exception f))

pub decode-diagnostics :
    (sub : DiagnosticSubFunction) (words bs : List ℕ)
    → IsCanonical (diagnostics sub words)
    → encode (diagnostics sub words) ≡ ok bs
    → decode reference bs ≡ ok (diagnostics sub words)
unfolding encode encode_diagnostics decode diagnostic_body reference Function.decode ◌>>=◌
decode-diagnostics sub words bs (t, ts) h = elim (Outcome-cases (Diagnostics.encode sub)) [
  | inl (raw, e) ↦ ground (
    arith,
    t raw e,
    sub_function-decode-encode sub {raw = raw} e,
    push_words_lem words (8 ∷ raw / 256 % 256 ∷ raw % 256 ∷ []),
    length-words_bytes words,
    words_from_bytes-words_bytes words ts,
  )
  | inr (inl (x, e)) ↦ absurd (ground arith)
  | inr (inr e) ↦ absurd (ground arith)
]
