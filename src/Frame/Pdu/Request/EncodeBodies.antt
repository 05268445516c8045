-- ===== src/Frame/Pdu/Request/EncodeBodies.antt =====
-- Encoding the request of each function that a body decodes to (src/frame/pdu.rs).
use rust_modbus.Prelude.{
  ℕ, ◌+◌, ◌*◌, ◌/◌, ◌<◌, ◌≡◌, ap, ◌⊎◌, inl, inr, List, [], ◌∷◌, arith, length, All, length-drop, ok,
  take-all, Outcome-cases,
}
use rust_modbus.Frame.Pdu.Bits.RoundTrip.{push_bits_lem, pack-packed_bits}
use rust_modbus.Frame.Pdu.Limits.{check_range}
use rust_modbus.Frame.Pdu.Bits.{packed_bits}
use rust_modbus.Frame.Pdu.Encode.{sized, encode_diagnostics}
use rust_modbus.Frame.File.{decode_read_requests, decode_write_records}
use rust_modbus.Frame.Mei.{decode_request}
use rust_modbus.Frame.Mei.RoundTrip.{encode_request_into-bytes, bytes-decode_request}
use rust_modbus.Frame.Diagnostics.RoundTrip.{encode-decode as sub_function-encode-decode}
use rust_modbus.Frame.File.Encode.Relative.{
  encode_read_requests_into-IsRelative, encode_write_records_into-IsRelative,
}
use rust_modbus.Frame.File.RoundTrip.{
  encode_read_requests_into-bytes, encode_write_records_into-bytes, bytes-decode_read_requests,
  bytes-decode_write_records,
}
use rust_modbus.Frame.Pdu.Words.{push_words_lem}
use rust_modbus.Frame.Pdu.Decode.{diagnostic_body}
use rust_modbus.Buffer.{◌>>=◌}
use rust_modbus.Parse.Stream.{Input}
use rust_modbus.Parse.Reference.{reference}
use rust_modbus.Frame.Bytes.{IsByte}
use rust_modbus.Frame.Code.{FunctionCode}
use rust_modbus.Frame.Function
use rust_modbus.Frame.Pdu.Bits.{bit_width, register_width, packed_len}
use rust_modbus.Frame.Pdu.Words.{
  push_registers_lem, words_from_bytes, words_bytes-words_from_bytes, registers-eq-words,
}
use rust_modbus.Frame.Pdu.Encode.{
  encode_read, encode_single, encode_quantified, quantity_of, encode_custom, encode_body,
  encode_bare,
}
use rust_modbus.Frame.Pdu.Decode.{read_request, single_coil, quantified_bytes}
use rust_modbus.Frame.Pdu.Request.{RequestPdu, decode_body}
use rust_modbus.Frame.Pdu.Request.Write.{encode}

-- The body `s` under the function code `code` gives a request that encodes to the same body.
abbrev pub Reencodes : FunctionCode → ℕ → Input → Type 0
Reencodes code byte s =
    (pdu : RequestPdu)
    → All IsByte s
    → length s < 253
    → decode_body reference code s ≡ ok (pdu, [])
    → encode pdu ≡ ok (byte ∷ s)

pub read_again :
    (code : FunctionCode) (byte : ℕ) (s : Input)
    → Function.encode code ≡ ok byte
    → byte < 5
    → Reencodes code byte s
unfolding encode encode_read decode_body read_request reference Function.encode ◌>>=◌
read_again FunctionCode.read_coils byte (x ∷ y ∷ z ∷ u ∷ s) e l pdu hb hl h = ground arith
read_again FunctionCode.read_coils byte s e l pdu hb hl h = absurd (ground arith)
read_again FunctionCode.read_discrete_inputs byte (x ∷ y ∷ z ∷ u ∷ s) e l pdu hb hl h = ground arith
read_again FunctionCode.read_discrete_inputs byte s e l pdu hb hl h = absurd (ground arith)
read_again FunctionCode.read_holding_registers byte (x ∷ y ∷ z ∷ u ∷ s) e l pdu hb hl h =
    ground arith
read_again FunctionCode.read_holding_registers byte s e l pdu hb hl h = absurd (ground arith)
read_again FunctionCode.read_input_registers byte (x ∷ y ∷ z ∷ u ∷ s) e l pdu hb hl h = ground arith
read_again FunctionCode.read_input_registers byte s e l pdu hb hl h = absurd (ground arith)
read_again (FunctionCode.custom c) byte s e l pdu hb hl h = absurd (ground arith)
read_again _ byte s e l pdu hb hl h = absurd (ground arith)

pub coil_again : (s : Input) → Reencodes FunctionCode.write_single_coil 5 s
unfolding encode encode_single decode_body single_coil reference ◌>>=◌
coil_again (x ∷ y ∷ z ∷ u ∷ s) pdu hb hl h = ground arith
coil_again s pdu hb hl h = absurd (ground arith)

pub register_again : (s : Input) → Reencodes FunctionCode.write_single_register 6 s
unfolding encode encode_single decode_body reference ◌>>=◌
register_again (x ∷ y ∷ z ∷ u ∷ s) pdu hb hl h = ground arith
register_again s pdu hb hl h = absurd (ground arith)

pub coils_again : (s : Input) → Reencodes FunctionCode.write_multiple_coils 15 s
unfolding encode encode_quantified quantity_of decode_body quantified_bytes reference ◌>>=◌
    bit_width packed_len
coils_again (x ∷ y ∷ z ∷ u ∷ n ∷ s) pdu hb hl h =
    elim (Outcome-cases (packed_bits s (z * 256 + u))) [
      | inl (l, e) ↦ ground (
        arith,
        length-drop ((z * 256 + u + 7) / 8) s,
        take-all ((z * 256 + u + 7) / 8) s,
        pack-packed_bits s (z * 256 + u) l,
        push_bits_lem l (15 ∷ x ∷ y ∷ z ∷ u ∷ n ∷ []),
      )
      | inr (inl (x, e)) ↦ absurd (
          ground (arith, length-drop ((z * 256 + u + 7) / 8) s, take-all ((z * 256 + u + 7) / 8) s))
      | inr (inr e) ↦ absurd (
          ground (arith, length-drop ((z * 256 + u + 7) / 8) s, take-all ((z * 256 + u + 7) / 8) s))
    ]
coils_again s pdu hb hl h = absurd (ground arith)

pub registers_again : (s : Input) → Reencodes FunctionCode.write_multiple_registers 16 s
unfolding encode encode_quantified quantity_of decode_body quantified_bytes reference ◌>>=◌
    register_width
registers_again (x ∷ y ∷ z ∷ u ∷ n ∷ s) pdu hb hl h = ground (
  arith,
  length-drop ((z * 256 + u) * 2) s,
  take-all ((z * 256 + u) * 2) s,
  ap (λ (t : List ℕ). length t) (registers-eq-words s),
  registers-eq-words s,
  words_bytes-words_from_bytes s,
  push_registers_lem (words_from_bytes s) (16 ∷ x ∷ y ∷ z ∷ u ∷ n ∷ []),
)
registers_again s pdu hb hl h = absurd (ground arith)

pub mask_again : (s : Input) → Reencodes FunctionCode.mask_write_register 22 s
unfolding encode sized decode_body reference ◌>>=◌
mask_again (x ∷ y ∷ z ∷ u ∷ v ∷ t ∷ s) pdu hb hl h = ground arith
mask_again s pdu hb hl h = absurd (ground arith)

pub bare_again :
    (code : FunctionCode) (byte : ℕ) (s : Input)
    → Function.encode code ≡ ok byte
    → (byte ≡ 7) ⊎ (byte ≡ 11) ⊎ (byte ≡ 12) ⊎ (byte ≡ 17)
    → Reencodes code byte s
unfolding encode encode_bare decode_body reference Function.encode ◌>>=◌
bare_again FunctionCode.read_exception_status byte s e l pdu hb hl h = ground arith
bare_again FunctionCode.get_comm_event_counter byte s e l pdu hb hl h = ground arith
bare_again FunctionCode.get_comm_event_log byte s e l pdu hb hl h = ground arith
bare_again FunctionCode.report_server_id byte s e l pdu hb hl h = ground arith
bare_again (FunctionCode.custom c) byte s e l pdu hb hl h = absurd (ground arith)
bare_again _ byte s e l pdu hb hl h = absurd (ground arith)

pub fifo_again : (s : Input) → Reencodes FunctionCode.read_fifo_queue 24 s
unfolding encode sized decode_body reference ◌>>=◌
fifo_again (x ∷ y ∷ s) pdu hb hl h = ground arith
fifo_again s pdu hb hl h = absurd (ground arith)

pub reads_again : (s : Input) → Reencodes FunctionCode.read_file_record 20 s
unfolding encode encode_body decode_body reference ◌>>=◌
reads_again s pdu hb hl h = elim (Outcome-cases (decode_read_requests reference s)) [
  | inl ((records, rest), e) ↦ ground (
    arith,
    bytes-decode_read_requests s records,
    (encode_read_requests_into-IsRelative records).at (20 ∷ []),
    encode_read_requests_into-bytes records,
  )
  | inr (inl (x, e)) ↦ absurd (ground arith)
  | inr (inr e) ↦ absurd (ground arith)
]

pub writes_again : (s : Input) → Reencodes FunctionCode.write_file_record 21 s
unfolding encode encode_body decode_body reference ◌>>=◌
writes_again s pdu hb hl h = elim (Outcome-cases (decode_write_records reference s)) [
  | inl ((records, rest), e) ↦ ground (
    arith,
    bytes-decode_write_records s records,
    (encode_write_records_into-IsRelative records).at (21 ∷ []),
    encode_write_records_into-bytes records,
  )
  | inr (inl (x, e)) ↦ absurd (ground arith)
  | inr (inr e) ↦ absurd (ground arith)
]

pub mei_again : (s : Input) → Reencodes FunctionCode.encapsulated_interface_transport 43 s
unfolding encode encode_body decode_body reference ◌>>=◌
mei_again s pdu hb hl h = elim (Outcome-cases (decode_request reference s)) [
  | inl ((request, rest), e) ↦
      ground (arith, bytes-decode_request s request, encode_request_into-bytes request (43 ∷ []))
  | inr (inl (x, e)) ↦ absurd (ground arith)
  | inr (inr e) ↦ absurd (ground arith)
]

pub diagnostics_again : (s : Input) → Reencodes FunctionCode.diagnostics 8 s
unfolding encode encode_diagnostics decode_body diagnostic_body reference ◌>>=◌
diagnostics_again (x ∷ y ∷ s) pdu hb hl h = ground (
  arith,
  sub_function-encode-decode (x * 256 + y),
  words_bytes-words_from_bytes s,
  push_words_lem (words_from_bytes s) (8 ∷ x ∷ y ∷ []),
)
diagnostics_again s pdu hb hl h = absurd (ground arith)

pub read_write_again : (s : Input) → Reencodes FunctionCode.read_write_multiple_registers 23 s
unfolding encode sized quantity_of check_range decode_body quantified_bytes reference ◌>>=◌
    register_width
read_write_again (x ∷ y ∷ z ∷ u ∷ v ∷ t ∷ p ∷ q ∷ n ∷ s) pdu hb hl h = ground (
  arith,
  length-drop ((p * 256 + q) * 2) s,
  take-all ((p * 256 + q) * 2) s,
  ap (λ (t : List ℕ). length t) (registers-eq-words s),
  registers-eq-words s,
  words_bytes-words_from_bytes s,
  push_registers_lem (words_from_bytes s) (23 ∷ x ∷ y ∷ z ∷ u ∷ v ∷ t ∷ p ∷ q ∷ n ∷ []),
)
read_write_again s pdu hb hl h = absurd (ground arith)

pub custom_again :
    (c byte : ℕ) (s : Input)
    → Function.encode (FunctionCode.custom c) ≡ ok byte
    → Reencodes (FunctionCode.custom c) byte s
unfolding encode encode_custom decode_body reference ◌>>=◌
custom_again c byte s e pdu hb hl h = ground arith
