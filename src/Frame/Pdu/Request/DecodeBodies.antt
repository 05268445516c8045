-- ===== src/Frame/Pdu/Request/DecodeBodies.antt =====
-- Decoding the bodies that have a length of their own (src/frame/pdu.rs).
use rust_modbus.Prelude.{
  ℕ, ◌+◌, ◌*◌, ◌/◌, ◌%◌, ◌≤◌, ◌≡◌, inl, inr, Bool, List, [], ◌∷◌, ◌++◌, arith, length, All, ok,
  take-all, drop-all, Outcome-cases,
}
use rust_modbus.Buffer.{◌>>=◌}
use rust_modbus.Parse.Reference.{reference}
use rust_modbus.Frame.Bytes.{IsU16, u8_saturated-small}
use rust_modbus.Frame.Code.{FunctionCode}
use rust_modbus.Frame.Function
use rust_modbus.Frame.Function.RoundTrip.{decode-encode}
use rust_modbus.Frame.Diagnostics
use rust_modbus.Frame.Diagnostics.{DiagnosticSubFunction}
use rust_modbus.Frame.File.{FileRecordRead, FileRecordWrite}
use rust_modbus.Frame.Mei.{MeiRequest}
use rust_modbus.Frame.Diagnostics.RoundTrip.{decode-encode as sub_function-decode-encode}
use rust_modbus.Frame.File.Items.{ReadIsTyped, WriteIsTyped}
use rust_modbus.Frame.File.RoundTrip.{
  encode_read_requests_into-bytes, encode_read_requests_into-fits, encode_write_records_into-bytes,
  encode_write_records_into-fits, decode_read_requests-bytes, decode_write_records-bytes,
}
use rust_modbus.Frame.File.Encode.Relative.{
  encode_read_requests_into-IsRelative, encode_write_records_into-IsRelative,
}
use rust_modbus.Frame.Mei.RoundTrip.{
  MeiIsCanonical, encode_request_into-bytes, decode_request-bytes,
}
use rust_modbus.Frame.Pdu.Bits.{bit_width, register_width, packed_len}
use rust_modbus.Frame.Pdu.Bits.RoundTrip.{push_bits_lem, pack, length-pack, packed_bits-pack}
use rust_modbus.Frame.Pdu.Words.{
  push_registers_lem, push_words_lem, words_bytes, length-words_bytes, words_from_bytes-words_bytes,
  registers-eq-words,
}
use rust_modbus.Frame.Pdu.Limits.{check_range}
use rust_modbus.Frame.Pdu.Encode.{
  quantity_of-in_range, sized, encode_quantified, quantity_of, encode_diagnostics, encode_custom,
  encode_body,
}
use rust_modbus.Frame.Pdu.Decode.{quantified_bytes, diagnostic_body}
use rust_modbus.Frame.Pdu.Request.{
  write_multiple_coils, write_multiple_registers, read_write_multiple_registers, diagnostics,
  read_file_record, write_file_record, encapsulated_interface_transport, custom, decode,
}
use rust_modbus.Frame.Pdu.Request.Write.{encode}
use rust_modbus.Frame.Pdu.Request.Typed.{IsCanonical}

abbrev front : ℕ → ℕ → ℕ → ℕ → List ℕ
front c a q n = c ∷ a / 256 % 256 ∷ a % 256 ∷ q / 256 % 256 ∷ q % 256 ∷ n ∷ []

pub coils_decode :
    (a : ℕ) (l : List Bool) (bs : List ℕ)
    → IsU16 a
    → encode (write_multiple_coils a l) ≡ ok bs
    → decode reference bs ≡ ok (write_multiple_coils a l)
unfolding encode encode_quantified quantity_of decode quantified_bytes reference Function.decode
    ◌>>=◌ bit_width packed_len
coils_decode a l bs ha h = ground (
  arith,
  push_bits_lem l (front 15 a (length l) ((length l + 7) / 8)),
  length-pack l,
  take-all ((length l + 7) / 8) (pack l),
  drop-all ((length l + 7) / 8) (pack l),
  packed_bits-pack l,
)

pub registers_decode :
    (a : ℕ) (r bs : List ℕ)
    → IsU16 a
    → All IsU16 r
    → encode (write_multiple_registers a r) ≡ ok bs
    → decode reference bs ≡ ok (write_multiple_registers a r)
unfolding encode encode_quantified quantity_of decode quantified_bytes reference Function.decode
    ◌>>=◌ register_width
registers_decode a r bs ha hr h = ground (
  arith,
  push_registers_lem r (front 16 a (length r) (length r * 2)),
  length-words_bytes r,
  take-all (length r * 2) (words_bytes r),
  drop-all (length r * 2) (words_bytes r),
  registers-eq-words (words_bytes r),
  words_from_bytes-words_bytes r,
)

abbrev rw_front : ℕ → ℕ → ℕ → ℕ → ℕ → List ℕ
rw_front a q b k n =
    23
    ∷ a / 256 % 256
    ∷ a % 256
    ∷ q / 256 % 256
    ∷ q % 256
    ∷ b / 256 % 256
    ∷ b % 256
    ∷ k / 256 % 256
    ∷ k % 256
    ∷ n
    ∷ []

pub read_write_bounds :
    (a q b : ℕ) (r bs : List ℕ)
    → encode (read_write_multiple_registers a q b r) ≡ ok bs
    → (1 ≤ q) × (q ≤ 125) × (1 ≤ length r) × (length r ≤ 121)
unfolding encode quantity_of ◌>>=◌
read_write_bounds a q b r bs h = ground arith

pub read_write_bytes :
    (a q b : ℕ) (r bs : List ℕ)
    → (1 ≤ q) × (q ≤ 125) × (1 ≤ length r) × (length r ≤ 121)
    → encode (read_write_multiple_registers a q b r) ≡ ok bs
    → bs ≡ rw_front a q b (length r) (length r * 2) ++ words_bytes r
unfolding encode check_range sized ◌>>=◌
read_write_bytes a q b r bs (q1, q2, r1, r2) h = ground (
  arith,
  quantity_of-in_range "write quantity" (length r) 1 121 r1 r2 (omega arith),
  u8_saturated-small (length r * 2) (omega arith),
  push_registers_lem r (rw_front a q b (length r) (length r * 2)),
  length-words_bytes r,
)

pub read_write_decode :
    (a q b : ℕ) (r : List ℕ)
    → IsU16 a × IsU16 q × IsU16 b × All IsU16 r
    → (1 ≤ q) × (q ≤ 125) × (1 ≤ length r) × (length r ≤ 121)
    → decode reference (rw_front a q b (length r) (length r * 2) ++ words_bytes r)
      ≡ ok (read_write_multiple_registers a q b r)
unfolding decode quantified_bytes reference Function.decode register_width
read_write_decode a q b r t h = ground (
  arith,
  length-words_bytes r,
  take-all (length r * 2) (words_bytes r),
  drop-all (length r * 2) (words_bytes r),
  registers-eq-words (words_bytes r),
  words_from_bytes-words_bytes r,
)

-- The bodies that are written as a whole behind the function code.
pub reads_decode :
    (records : List FileRecordRead) (bs : List ℕ)
    → All ReadIsTyped records
    → encode (read_file_record records) ≡ ok bs
    → decode reference bs ≡ ok (read_file_record records)
unfolding encode encode_body decode reference Function.decode ◌>>=◌
reads_decode records bs t h = ground (
  arith,
  (encode_read_requests_into-IsRelative records).at (20 ∷ []),
  encode_read_requests_into-fits records,
  encode_read_requests_into-bytes records,
  decode_read_requests-bytes records,
)

pub writes_decode :
    (records : List FileRecordWrite) (bs : List ℕ)
    → All WriteIsTyped records
    → encode (write_file_record records) ≡ ok bs
    → decode reference bs ≡ ok (write_file_record records)
unfolding encode encode_body decode reference Function.decode ◌>>=◌
writes_decode records bs t h = ground (
  arith,
  (encode_write_records_into-IsRelative records).at (21 ∷ []),
  encode_write_records_into-fits records,
  encode_write_records_into-bytes records,
  decode_write_records-bytes records,
)

pub mei_decode :
    (request : MeiRequest) (bs : List ℕ)
    → MeiIsCanonical request
    → encode (encapsulated_interface_transport request) ≡ ok bs
    → decode reference bs ≡ ok (encapsulated_interface_transport request)
unfolding encode encode_body decode reference Function.decode ◌>>=◌
mei_decode request bs t h =
    ground (arith, encode_request_into-bytes request (43 ∷ []), decode_request-bytes request t)

pub custom_decode :
    (code : ℕ) (body bs : List ℕ)
    → encode (custom code body) ≡ ok bs
    → decode reference bs ≡ ok (custom code body)
unfolding encode encode_custom decode reference Function.encode ◌>>=◌
custom_decode code body bs h = ground (arith, decode-encode (FunctionCode.custom code) {b = code})

pub decode-diagnostics :
    (sub : DiagnosticSubFunction) (words bs : List ℕ)
    → IsCanonical (diagnostics sub words)
    → encode (diagnostics sub words) ≡ ok bs
    → decode reference bs ≡ ok (diagnostics sub words)
unfolding encode encode_diagnostics decode diagnostic_body reference Function.decode ◌>>=◌
decode-diagnostics sub words bs (t, ts) h = elim (Outcome-cases (Diagnostics.encode sub)) [
  | inl (raw, e) ↦ ground (
    arith,
    t raw e,
    sub_function-decode-encode sub {raw = raw} e,
    push_words_lem words (8 ∷ raw / 256 % 256 ∷ raw % 256 ∷ []),
    length-words_bytes words,
    words_from_bytes-words_bytes words ts,
  )
  | inr (inl (x, e)) ↦ absurd (ground arith)
  | inr (inr e) ↦ absurd (ground arith)
]
