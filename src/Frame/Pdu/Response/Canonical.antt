-- ===== src/Frame/Pdu/Response/Canonical.antt =====
-- What `decode` returns is canonical, and so what is not does not come back (src/frame/pdu.rs).
use rust_modbus.Prelude.{
  ℕ, ◌+◌, ◌*◌, ◌≡◌, subst, ◌↔◌, ◌⊎◌, inl, inr, List, [], ◌∷◌, arith, Bool-cases, take, All, ok,
  Outcome-cases,
}
use rust_modbus.Parse.Stream.{Winnow, IsWinnow, Input}
use rust_modbus.Parse.Reference.{reference, by_reference}
use rust_modbus.Frame.Bytes.{IsByte, IsU16}
use rust_modbus.Frame.Code.{FunctionCode}
use rust_modbus.Frame.Function
use rust_modbus.Frame.Exception
use rust_modbus.Frame.Diagnostics
use rust_modbus.Frame.File.RoundTrip.{bytes-decode_write_records}
use rust_modbus.Frame.File.ReadResponses.{bytes-decode_read_responses}
use rust_modbus.Frame.File.{decode_read_responses, decode_write_records}
use rust_modbus.Frame.Mei.{decode_response, decode_device_identification, MeiResponse}
use rust_modbus.Frame.Mei.Objects.{ResponseIsCanonical}
use rust_modbus.Frame.Pdu.Words.{words_from_bytes, words_from_bytes-IsU16, registers-eq-words}
use rust_modbus.Frame.Pdu.Decode.{
  counted_bytes, registers, single_coil, diagnostic_body, fifo_values,
}
use rust_modbus.Frame.Pdu.Request.Canonical.{sub_function_typed, words_typed}
use rust_modbus.Frame.Pdu.Response.{ResponsePdu, decode, decode_body, event_log, is_exception}
use rust_modbus.Frame.Pdu.Response.Typed.{IsCanonical, padded}
use rust_modbus.Frame.Pdu.Response.Write.{encode}
use rust_modbus.Frame.Pdu.Response.Decodes.{response_decode-encode}

-- What a body decodes to under the function code has its fields in range.
abbrev GivesTyped : FunctionCode → Input → Type 0
GivesTyped code s =
    (pdu : ResponsePdu)
    → All IsByte s
    → decode_body reference code s ≡ ok (pdu, [])
    → IsCanonical pdu

mei_canonical :
    (s rest : Input) (response : MeiResponse)
    → decode_response reference s ≡ ok (response, rest)
    → ResponseIsCanonical response
unfolding decode_response decode_device_identification reference
mei_canonical [] rest response h = absurd (cc)
mei_canonical (t ∷ s) rest response h = ground arith

registers_typed :
    (s rest : Input) (values : List ℕ)
    → All IsByte s
    → registers reference s ≡ ok (values, rest)
    → All IsU16 values
unfolding registers counted_bytes reference
registers_typed [] rest values hb h = absurd (cc)
registers_typed (n ∷ s) rest values hb h =
    ground (arith, registers-eq-words (take n s), words_typed n s)

fifo_typed :
    (s rest : Input) (values : List ℕ)
    → All IsByte s
    → fifo_values reference s ≡ ok (values, rest)
    → All IsU16 values
unfolding fifo_values reference
fifo_typed (a ∷ b ∷ c ∷ d ∷ s) rest values hb h =
    let m : ℕ = (c * 256 + d) * 2 in ground (arith, registers-eq-words (take m s), words_typed m s)
fifo_typed s rest values hb h = absurd (ground arith)

diagnostics_typed : (s : Input) → GivesTyped FunctionCode.diagnostics s
unfolding decode_body diagnostic_body reference
diagnostics_typed (x ∷ y ∷ s) pdu (hx, (hy, hb)) h =
    let raw : ℕ = x * 256 + y in
    let same : ResponsePdu.diagnostics (Diagnostics.decode raw) (words_from_bytes s) ≡ pdu =
      ground arith in
    subst IsCanonical same
      (λ r. sub_function_typed raw r (omega arith), words_from_bytes-IsU16 s hb)
diagnostics_typed s pdu hb h = absurd (ground arith)

log_typed : (s : Input) → GivesTyped FunctionCode.get_comm_event_log s
unfolding decode_body event_log reference
log_typed (n ∷ x ∷ y ∷ z ∷ u ∷ v ∷ t ∷ s) pdu hb h = ground arith
log_typed s pdu hb h = absurd (ground arith)

any_code : (code : FunctionCode) (s : Input) → GivesTyped code s
unfolding decode_body single_coil reference
any_code FunctionCode.read_coils s pdu hb h = ground arith
any_code FunctionCode.read_discrete_inputs s pdu hb h = ground arith
any_code FunctionCode.read_holding_registers s pdu hb h =
    elim (Outcome-cases (registers reference s)) [
      | inl ((values, rest), e) ↦ ground (arith, registers_typed s rest values)
      | inr (inl (x, e)) ↦ absurd (ground arith)
      | inr (inr e) ↦ absurd (ground arith)
    ]
any_code FunctionCode.read_input_registers s pdu hb h =
    elim (Outcome-cases (registers reference s)) [
      | inl ((values, rest), e) ↦ ground (arith, registers_typed s rest values)
      | inr (inl (x, e)) ↦ absurd (ground arith)
      | inr (inr e) ↦ absurd (ground arith)
    ]
any_code FunctionCode.write_single_coil (x ∷ y ∷ z ∷ u ∷ s) pdu hb h = ground arith
any_code FunctionCode.write_single_register (x ∷ y ∷ z ∷ u ∷ s) pdu hb h = ground arith
any_code FunctionCode.write_multiple_coils (x ∷ y ∷ z ∷ u ∷ s) pdu hb h = ground arith
any_code FunctionCode.write_multiple_registers (x ∷ y ∷ z ∷ u ∷ s) pdu hb h = ground arith
any_code FunctionCode.mask_write_register (x ∷ y ∷ z ∷ u ∷ v ∷ t ∷ s) pdu hb h = ground arith
any_code FunctionCode.read_write_multiple_registers s pdu hb h =
    elim (Outcome-cases (registers reference s)) [
      | inl ((values, rest), e) ↦ ground (arith, registers_typed s rest values)
      | inr (inl (x, e)) ↦ absurd (ground arith)
      | inr (inr e) ↦ absurd (ground arith)
    ]
any_code FunctionCode.read_exception_status s pdu hb h = ground arith
any_code FunctionCode.diagnostics s pdu hb h = diagnostics_typed s pdu hb h
any_code FunctionCode.get_comm_event_counter (x ∷ y ∷ z ∷ u ∷ s) pdu hb h = ground arith
any_code FunctionCode.get_comm_event_log s pdu hb h = log_typed s pdu hb h
any_code FunctionCode.report_server_id s pdu hb h = ground arith
any_code FunctionCode.read_file_record s pdu hb h =
    elim (Outcome-cases (decode_read_responses reference s)) [
      | inl ((records, rest), e) ↦ ground (arith, bytes-decode_read_responses s records)
      | inr (inl (x, e)) ↦ absurd (ground arith)
      | inr (inr e) ↦ absurd (ground arith)
    ]
any_code FunctionCode.write_file_record s pdu hb h =
    elim (Outcome-cases (decode_write_records reference s)) [
      | inl ((records, rest), e) ↦ ground (arith, bytes-decode_write_records s records)
      | inr (inl (x, e)) ↦ absurd (ground arith)
      | inr (inr e) ↦ absurd (ground arith)
    ]
any_code FunctionCode.read_fifo_queue s pdu hb h = elim (Outcome-cases (fifo_values reference s)) [
  | inl ((values, rest), e) ↦ ground (arith, fifo_typed s rest values)
  | inr (inl (x, e)) ↦ absurd (ground arith)
  | inr (inr e) ↦ absurd (ground arith)
]
any_code FunctionCode.encapsulated_interface_transport s pdu hb h =
    elim (Outcome-cases (decode_response reference s)) [
      | inl ((response, rest), e) ↦ ground (arith, mei_canonical s rest response)
      | inr (inl (x, e)) ↦ absurd (ground arith)
      | inr (inr e) ↦ absurd (ground arith)
    ]
any_code (FunctionCode.custom c) s pdu hb h = ground arith
any_code _ s pdu hb h = absurd (ground arith)

exception_or_body :
    (pdu : ResponsePdu) (b : ℕ) (s : Input)
    → decode reference (b ∷ s) ≡ ok pdu
    → IsCanonical pdu ⊎ ((code : FunctionCode) × (decode_body reference code s ≡ ok (pdu, [])))
unfolding decode reference
exception_or_body pdu b s h = elim (Bool-cases (is_exception (b ∷ s))) [
  | inl f ↦ elim (Outcome-cases (Exception.decode (b ∷ s))) [
    | inl (e, eq) ↦ inl (ground arith)
    | inr (inl (x, e)) ↦ absurd (ground arith)
    | inr (inr e) ↦ absurd (ground arith)
  ]
  | inr f ↦ elim (Outcome-cases (Function.decode b)) [
    | inl (code, e) ↦ inr (code, ground arith)
    | inr (inl (x, e)) ↦ absurd (ground arith)
    | inr (inr e) ↦ absurd (ground arith)
  ]
]

any_decode-IsCanonical :
    (pdu : ResponsePdu) (bs : Input)
    → All IsByte bs
    → decode reference bs ≡ ok pdu
    → IsCanonical pdu
unfolding decode reference
any_decode-IsCanonical pdu [] hb h = absurd (ground arith)
any_decode-IsCanonical pdu (b ∷ s) hb h = elim (exception_or_body pdu b s h) [
  | inl t ↦ t
  | inr (code, body) ↦ any_code code s pdu hb.1 body
]

-- Every response that `decode` returns, from bytes and under any `winnow` with the documented
-- behaviour, is canonical.
pub response_decode-IsCanonical :
    (w : Winnow) (pdu : ResponsePdu) (bs : Input)
    → IsWinnow w
    → All IsByte bs
    → decode w bs ≡ ok pdu
    → IsCanonical pdu
response_decode-IsCanonical w pdu bs law hb h =
    by_reference (λ v. decode v bs ≡ ok pdu → IsCanonical pdu) (any_decode-IsCanonical pdu bs hb)
      law h

unpadded : (pdu : ResponsePdu) → IsCanonical (padded pdu) → IsCanonical pdu
unfolding padded
unpadded (ResponsePdu.read_coils coils) h = tt
unpadded (ResponsePdu.read_discrete_inputs inputs) h = tt
unpadded (ResponsePdu.read_holding_registers values) h = h
unpadded (ResponsePdu.read_input_registers values) h = h
unpadded (ResponsePdu.write_single_coil a v) h = h
unpadded (ResponsePdu.write_single_register a v) h = h
unpadded (ResponsePdu.write_multiple_coils a q) h = h
unpadded (ResponsePdu.write_multiple_registers a q) h = h
unpadded (ResponsePdu.mask_write_register a m n) h = h
unpadded (ResponsePdu.read_write_multiple_registers values) h = h
unpadded (ResponsePdu.read_exception_status status) h = h
unpadded (ResponsePdu.diagnostics f words) h = h
unpadded (ResponsePdu.get_comm_event_counter s n) h = h
unpadded (ResponsePdu.get_comm_event_log s n m e) h = h
unpadded (ResponsePdu.report_server_id b) h = h
unpadded (ResponsePdu.read_file_record r) h = h
unpadded (ResponsePdu.write_file_record r) h = h
unpadded (ResponsePdu.read_fifo_queue values) h = h
unpadded (ResponsePdu.encapsulated_interface_transport m) h = h
unpadded (ResponsePdu.custom c b) h = h
unpadded (ResponsePdu.exception e) h = h

-- What `encode` returns for a response, if it is bytes, decodes to that response, with the bits of
-- a read filled up to whole bytes, under any `winnow` with the documented behaviour, exactly if the
-- response is canonical: its 16-bit fields are in range, and it holds no MEI body `Other` under the
-- type 13 or 14 of another variant.
pub response_decode-encode_iff :
    (w : Winnow) (pdu : ResponsePdu) (bs : Input)
    → IsWinnow w
    → All IsByte bs
    → encode pdu ≡ ok bs
    → (decode w bs ≡ ok (padded pdu)) ↔ IsCanonical pdu
response_decode-encode_iff w pdu bs law hb h = (
  λ back. unpadded pdu (response_decode-IsCanonical w (padded pdu) bs law hb back),
  λ canonical. response_decode-encode w pdu bs law canonical h,
)
