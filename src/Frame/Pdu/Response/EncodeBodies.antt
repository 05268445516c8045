-- ===== src/Frame/Pdu/Response/EncodeBodies.antt =====
-- Encoding the response of each function that a body decodes to (src/frame/pdu.rs).
use rust_modbus.Prelude.{
  ℕ, ◌+◌, ◌*◌, ◌<◌, ◌≡◌, ◌⊎◌, inl, inr, [], ◌∷◌, arith, length, All, ok, take-all, drop-all,
  Outcome-cases,
}
use rust_modbus.Buffer.{◌>>=◌}
use rust_modbus.Parse.Stream.{Input}
use rust_modbus.Parse.Reference.{reference}
use rust_modbus.Frame.Bytes.{IsByte}
use rust_modbus.Frame.Code.{FunctionCode}
use rust_modbus.Frame.Function
use rust_modbus.Frame.Diagnostics.RoundTrip.{encode-decode as sub_function-encode-decode}
use rust_modbus.Frame.File.{decode_read_responses, decode_write_records}
use rust_modbus.Frame.File.Encode.Relative.{
  encode_read_responses_into-IsRelative, encode_write_records_into-IsRelative,
}
use rust_modbus.Frame.File.RoundTrip.{encode_write_records_into-bytes, bytes-decode_write_records}
use rust_modbus.Frame.File.ReadResponses.{
  encode_read_responses_into-bytes, bytes-decode_read_responses,
}
use rust_modbus.Frame.Pdu.Bits.{bits_from_bytes, packed_len}
use rust_modbus.Frame.Pdu.Bits.RoundTrip.{
  push_bits_lem, pack-bits_from_bytes, length-bits_from_bytes,
}
use rust_modbus.Frame.Pdu.Words.{
  push_registers_lem, push_words_lem, words_from_bytes, words_bytes, length-words_bytes,
  words_bytes-words_from_bytes, registers-eq-words,
}
use rust_modbus.Frame.Pdu.Encode.{
  sized, encode_single, encode_echo_quantity, encode_counted, encode_diagnostics, encode_custom,
  encode_body,
}
use rust_modbus.Frame.Pdu.Decode.{counted_bytes, registers, single_coil, diagnostic_body}
use rust_modbus.Frame.Pdu.Response.{ResponsePdu, decode_body}
use rust_modbus.Frame.Mei.{decode_response}
use rust_modbus.Frame.Mei.Encode.{encode_response_into-IsRelative}
use rust_modbus.Frame.Mei.Objects.{encode_response_into-bytes, bytes-decode_response}
use rust_modbus.Frame.Pdu.Response.Write.{encode}

-- The body `s` under the function code `code` gives a response that encodes to the same body.
abbrev pub Reencodes : FunctionCode → ℕ → Input → Type 0
Reencodes code byte s =
    (pdu : ResponsePdu)
    → All IsByte s
    → length s < 253
    → decode_body reference code s ≡ ok (pdu, [])
    → encode pdu ≡ ok (byte ∷ s)

pub coils_again : (s : Input) → Reencodes FunctionCode.read_coils 1 s
unfolding encode encode_counted decode_body counted_bytes reference packed_len ◌>>=◌
coils_again (n ∷ s) pdu hb hl h = ground (
  arith,
  take-all n s,
  length-bits_from_bytes s,
  pack-bits_from_bytes s,
  push_bits_lem (bits_from_bytes s) (1 ∷ n ∷ []),
)
coils_again [] pdu hb hl h = absurd (ground arith)

pub inputs_again : (s : Input) → Reencodes FunctionCode.read_discrete_inputs 2 s
unfolding encode encode_counted decode_body counted_bytes reference packed_len ◌>>=◌
inputs_again (n ∷ s) pdu hb hl h = ground (
  arith,
  take-all n s,
  length-bits_from_bytes s,
  pack-bits_from_bytes s,
  push_bits_lem (bits_from_bytes s) (2 ∷ n ∷ []),
)
inputs_again [] pdu hb hl h = absurd (ground arith)

-- The three bodies of registers.
registers_read :
    (n : ℕ) (s rest values : Input)
    → All IsByte s
    → registers reference (n ∷ s) ≡ ok (values, rest)
    → (rest ≡ []) × (words_bytes values ≡ s) × (n ≡ length values * 2)
unfolding registers counted_bytes reference
registers_read n s rest values hb h = ground (
  arith,
  take-all n s,
  drop-all n s,
  registers-eq-words s,
  words_bytes-words_from_bytes s hb,
  length-words_bytes (words_from_bytes s),
)

pub holding_again : (s : Input) → Reencodes FunctionCode.read_holding_registers 3 s
unfolding encode encode_counted decode_body registers counted_bytes reference ◌>>=◌
holding_again [] pdu hb hl h = absurd (ground arith)
holding_again (n ∷ s) pdu hb hl h = elim (Outcome-cases (registers reference (n ∷ s))) [
  | inl ((values, rest), e) ↦ ground (
    arith,
    registers_read n s rest values hb.1 e,
    length-words_bytes values,
    push_registers_lem values (3 ∷ n ∷ []),
  )
  | inr (inl (x, e)) ↦ absurd (ground arith)
  | inr (inr e) ↦ absurd (ground arith)
]

pub input_again : (s : Input) → Reencodes FunctionCode.read_input_registers 4 s
unfolding encode encode_counted decode_body registers counted_bytes reference ◌>>=◌
input_again [] pdu hb hl h = absurd (ground arith)
input_again (n ∷ s) pdu hb hl h = elim (Outcome-cases (registers reference (n ∷ s))) [
  | inl ((values, rest), e) ↦ ground (
    arith,
    registers_read n s rest values hb.1 e,
    length-words_bytes values,
    push_registers_lem values (4 ∷ n ∷ []),
  )
  | inr (inl (x, e)) ↦ absurd (ground arith)
  | inr (inr e) ↦ absurd (ground arith)
]

pub read_write_again : (s : Input) → Reencodes FunctionCode.read_write_multiple_registers 23 s
unfolding encode encode_counted decode_body registers counted_bytes reference ◌>>=◌
read_write_again [] pdu hb hl h = absurd (ground arith)
read_write_again (n ∷ s) pdu hb hl h = elim (Outcome-cases (registers reference (n ∷ s))) [
  | inl ((values, rest), e) ↦ ground (
    arith,
    registers_read n s rest values hb.1 e,
    length-words_bytes values,
    push_registers_lem values (23 ∷ n ∷ []),
  )
  | inr (inl (x, e)) ↦ absurd (ground arith)
  | inr (inr e) ↦ absurd (ground arith)
]

pub coil_again : (s : Input) → Reencodes FunctionCode.write_single_coil 5 s
unfolding encode encode_single decode_body single_coil reference ◌>>=◌
coil_again (x ∷ y ∷ z ∷ u ∷ s) pdu hb hl h = ground arith
coil_again s pdu hb hl h = absurd (ground arith)

pub register_again : (s : Input) → Reencodes FunctionCode.write_single_register 6 s
unfolding encode encode_single decode_body reference ◌>>=◌
register_again (x ∷ y ∷ z ∷ u ∷ s) pdu hb hl h = ground arith
register_again s pdu hb hl h = absurd (ground arith)

pub echo_again :
    (code : FunctionCode) (byte : ℕ) (s : Input)
    → Function.encode code ≡ ok byte
    → (byte ≡ 15) ⊎ (byte ≡ 16)
    → Reencodes code byte s
unfolding encode encode_echo_quantity decode_body reference Function.encode ◌>>=◌
echo_again FunctionCode.write_multiple_coils byte (x ∷ y ∷ z ∷ u ∷ s) e b pdu hb hl h = ground arith
echo_again FunctionCode.write_multiple_coils byte s e b pdu hb hl h = absurd (ground arith)
echo_again FunctionCode.write_multiple_registers byte (x ∷ y ∷ z ∷ u ∷ s) e b pdu hb hl h =
    ground arith
echo_again FunctionCode.write_multiple_registers byte s e b pdu hb hl h = absurd (ground arith)
echo_again (FunctionCode.custom c) byte s e b pdu hb hl h = absurd (ground arith)
echo_again _ byte s e b pdu hb hl h = absurd (ground arith)

pub mask_again : (s : Input) → Reencodes FunctionCode.mask_write_register 22 s
unfolding encode sized decode_body reference ◌>>=◌
mask_again (x ∷ y ∷ z ∷ u ∷ v ∷ t ∷ s) pdu hb hl h = ground arith
mask_again s pdu hb hl h = absurd (ground arith)

pub status_again : (s : Input) → Reencodes FunctionCode.read_exception_status 7 s
unfolding encode sized decode_body reference ◌>>=◌
status_again (x ∷ s) pdu hb hl h = ground arith
status_again s pdu hb hl h = absurd (ground arith)

pub counter_again : (s : Input) → Reencodes FunctionCode.get_comm_event_counter 11 s
unfolding encode sized decode_body reference ◌>>=◌
counter_again (x ∷ y ∷ z ∷ u ∷ s) pdu hb hl h = ground arith
counter_again s pdu hb hl h = absurd (ground arith)

pub server_id_again : (s : Input) → Reencodes FunctionCode.report_server_id 17 s
unfolding encode encode_counted decode_body counted_bytes reference ◌>>=◌
server_id_again (n ∷ s) pdu hb hl h = ground (arith, take-all n s)
server_id_again [] pdu hb hl h = absurd (ground arith)

pub diagnostics_again : (s : Input) → Reencodes FunctionCode.diagnostics 8 s
unfolding encode encode_diagnostics decode_body diagnostic_body reference ◌>>=◌
diagnostics_again (x ∷ y ∷ s) pdu hb hl h = ground (
  arith,
  sub_function-encode-decode (x * 256 + y),
  words_bytes-words_from_bytes s,
  push_words_lem (words_from_bytes s) (8 ∷ x ∷ y ∷ []),
)
diagnostics_again s pdu hb hl h = absurd (ground arith)

pub reads_again : (s : Input) → Reencodes FunctionCode.read_file_record 20 s
unfolding encode encode_body decode_body reference ◌>>=◌
reads_again s pdu hb hl h = elim (Outcome-cases (decode_read_responses reference s)) [
  | inl ((records, rest), e) ↦ ground (
    arith,
    bytes-decode_read_responses s records,
    (encode_read_responses_into-IsRelative records).at (20 ∷ []),
    encode_read_responses_into-bytes records,
  )
  | inr (inl (x, e)) ↦ absurd (ground arith)
  | inr (inr e) ↦ absurd (ground arith)
]

pub writes_again : (s : Input) → Reencodes FunctionCode.write_file_record 21 s
unfolding encode encode_body decode_body reference ◌>>=◌
writes_again s pdu hb hl h = elim (Outcome-cases (decode_write_records reference s)) [
  | inl ((records, rest), e) ↦ ground (
    arith,
    bytes-decode_write_records s records,
    (encode_write_records_into-IsRelative records).at (21 ∷ []),
    encode_write_records_into-bytes records,
  )
  | inr (inl (x, e)) ↦ absurd (ground arith)
  | inr (inr e) ↦ absurd (ground arith)
]

pub custom_again :
    (c byte : ℕ) (s : Input)
    → Function.encode (FunctionCode.custom c) ≡ ok byte
    → Reencodes (FunctionCode.custom c) byte s
unfolding encode encode_custom decode_body reference ◌>>=◌
custom_again c byte s e pdu hb hl h = ground arith

pub mei_again : (s : Input) → Reencodes FunctionCode.encapsulated_interface_transport 43 s
unfolding encode encode_body decode_body reference ◌>>=◌
mei_again s pdu hb hl h = elim (Outcome-cases (decode_response reference s)) [
  | inl ((response, rest), e) ↦ ground (
    arith,
    bytes-decode_response s response,
    (encode_response_into-IsRelative response).at (43 ∷ []),
    encode_response_into-bytes response,
  )
  | inr (inl (x, e)) ↦ absurd (ground arith)
  | inr (inr e) ↦ absurd (ground arith)
]
