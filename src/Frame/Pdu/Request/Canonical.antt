-- ===== src/Frame/Pdu/Request/Canonical.antt =====
-- What `decode` returns is canonical, and so what is not does not come back (src/frame/pdu.rs).
use rust_modbus.Prelude.{
  ℕ, ◌+◌, ◌*◌, ◌≡◌, subst, ◌↔◌, inl, inr, [], ◌∷◌, arith, take, All, All-take, ok, Outcome-cases,
}
use rust_modbus.Parse.Stream.{Winnow, IsWinnow, Input}
use rust_modbus.Parse.Reference.{reference, by_reference}
use rust_modbus.Frame.Bytes.{IsByte, IsU16}
use rust_modbus.Frame.Code.{FunctionCode}
use rust_modbus.Frame.Function
use rust_modbus.Frame.Diagnostics
use rust_modbus.Frame.Diagnostics.RoundTrip.{encode-decode as sub_function-encode-decode}
use rust_modbus.Frame.File.RoundTrip.{bytes-decode_read_requests, bytes-decode_write_records}
use rust_modbus.Frame.File.{decode_read_requests, decode_write_records}
use rust_modbus.Frame.Mei.{decode_request, MeiRequest}
use rust_modbus.Frame.Mei.RoundTrip.{MeiIsCanonical}
use rust_modbus.Frame.Pdu.Words.{words_from_bytes, words_from_bytes-IsU16, registers-eq-words}
use rust_modbus.Frame.Pdu.Bits.{register_width}
use rust_modbus.Frame.Pdu.Decode.{read_request, single_coil, quantified_bytes, diagnostic_body}
use rust_modbus.Frame.Pdu.Request.{RequestPdu, decode, decode_body}
use rust_modbus.Frame.Pdu.Request.Write.{encode}
use rust_modbus.Frame.Pdu.Request.Decodes.{request_decode-encode}
use rust_modbus.Frame.Pdu.Request.Typed.{IsCanonical}

-- What a body decodes to under the function code has its fields in range.
abbrev GivesTyped : FunctionCode → Input → Type 0
GivesTyped code s =
    (pdu : RequestPdu)
    → All IsByte s
    → decode_body reference code s ≡ ok (pdu, [])
    → IsCanonical pdu

mei-MeiIsCanonical :
    (s rest : Input) (request : MeiRequest)
    → decode_request reference s ≡ ok (request, rest)
    → MeiIsCanonical request
unfolding decode_request reference
mei-MeiIsCanonical [] rest request h = absurd (cc)
mei-MeiIsCanonical (t ∷ s) rest request h = ground arith

pub sub_function_typed :
    (x raw : ℕ) → IsU16 x → Diagnostics.encode (Diagnostics.decode x) ≡ ok raw → IsU16 raw
sub_function_typed x raw hx h = ground (arith, sub_function-encode-decode x)

pub words_typed : (n : ℕ) (s : Input) → All IsByte s → All IsU16 (words_from_bytes (take n s))
words_typed n s hb = words_from_bytes-IsU16 (take n s) (All-take IsByte n s hb)

registers_typed : (s : Input) → GivesTyped FunctionCode.write_multiple_registers s
unfolding decode_body quantified_bytes register_width reference
registers_typed (x ∷ y ∷ z ∷ u ∷ n ∷ s) pdu hb h =
    let m : ℕ = (z * 256 + u) * 2 in ground (arith, registers-eq-words (take m s), words_typed m s)
registers_typed s pdu hb h = absurd (ground arith)

read_write_typed : (s : Input) → GivesTyped FunctionCode.read_write_multiple_registers s
unfolding decode_body quantified_bytes register_width reference
read_write_typed (x ∷ y ∷ z ∷ u ∷ v ∷ t ∷ p ∷ q ∷ n ∷ s) pdu hb h =
    let m : ℕ = (p * 256 + q) * 2 in ground (arith, registers-eq-words (take m s), words_typed m s)
read_write_typed s pdu hb h = absurd (ground arith)

diagnostics_typed : (s : Input) → GivesTyped FunctionCode.diagnostics s
unfolding decode_body diagnostic_body reference
diagnostics_typed (x ∷ y ∷ s) pdu (hx, (hy, hb)) h =
    let raw : ℕ = x * 256 + y in
    let same : RequestPdu.diagnostics (Diagnostics.decode raw) (words_from_bytes s) ≡ pdu =
      ground arith in
    subst IsCanonical same
      (λ r. sub_function_typed raw r (omega arith), words_from_bytes-IsU16 s hb)
diagnostics_typed s pdu hb h = absurd (ground arith)

any_code : (code : FunctionCode) (s : Input) → GivesTyped code s
unfolding decode_body read_request single_coil quantified_bytes diagnostic_body reference
any_code FunctionCode.read_coils (x ∷ y ∷ z ∷ u ∷ s) pdu hb h = ground arith
any_code FunctionCode.read_discrete_inputs (x ∷ y ∷ z ∷ u ∷ s) pdu hb h = ground arith
any_code FunctionCode.read_holding_registers (x ∷ y ∷ z ∷ u ∷ s) pdu hb h = ground arith
any_code FunctionCode.read_input_registers (x ∷ y ∷ z ∷ u ∷ s) pdu hb h = ground arith
any_code FunctionCode.write_single_coil (x ∷ y ∷ z ∷ u ∷ s) pdu hb h = ground arith
any_code FunctionCode.write_single_register (x ∷ y ∷ z ∷ u ∷ s) pdu hb h = ground arith
any_code FunctionCode.write_multiple_coils (x ∷ y ∷ z ∷ u ∷ n ∷ s) pdu hb h = ground arith
any_code FunctionCode.write_multiple_registers s pdu hb h = registers_typed s pdu hb h
any_code FunctionCode.mask_write_register (x ∷ y ∷ z ∷ u ∷ v ∷ t ∷ s) pdu hb h = ground arith
any_code FunctionCode.read_write_multiple_registers s pdu hb h = read_write_typed s pdu hb h
any_code FunctionCode.read_exception_status s pdu hb h = ground arith
any_code FunctionCode.diagnostics s pdu hb h = diagnostics_typed s pdu hb h
any_code FunctionCode.get_comm_event_counter s pdu hb h = ground arith
any_code FunctionCode.get_comm_event_log s pdu hb h = ground arith
any_code FunctionCode.report_server_id s pdu hb h = ground arith
any_code FunctionCode.read_file_record s pdu hb h =
    elim (Outcome-cases (decode_read_requests reference s)) [
      | inl ((records, rest), e) ↦ ground (arith, bytes-decode_read_requests s records)
      | inr (inl (x, e)) ↦ absurd (ground arith)
      | inr (inr e) ↦ absurd (ground arith)
    ]
any_code FunctionCode.write_file_record s pdu hb h =
    elim (Outcome-cases (decode_write_records reference s)) [
      | inl ((records, rest), e) ↦ ground (arith, bytes-decode_write_records s records)
      | inr (inl (x, e)) ↦ absurd (ground arith)
      | inr (inr e) ↦ absurd (ground arith)
    ]
any_code FunctionCode.read_fifo_queue (x ∷ y ∷ s) pdu hb h = ground arith
any_code FunctionCode.encapsulated_interface_transport s pdu hb h =
    elim (Outcome-cases (decode_request reference s)) [
      | inl ((request, rest), e) ↦ ground (arith, mei-MeiIsCanonical s rest request)
      | inr (inl (x, e)) ↦ absurd (ground arith)
      | inr (inr e) ↦ absurd (ground arith)
    ]
any_code (FunctionCode.custom c) s pdu hb h = ground arith
any_code _ s pdu hb h = absurd (ground arith)

body_of :
    (pdu : RequestPdu) (b : ℕ) (s : Input)
    → decode reference (b ∷ s) ≡ ok pdu
    → (code : FunctionCode) × (decode_body reference code s ≡ ok (pdu, []))
unfolding decode reference
body_of pdu b s h = elim (Outcome-cases (Function.decode b)) [
  | inl (code, e) ↦ (code, ground arith)
  | inr (inl (x, e)) ↦ absurd (ground arith)
  | inr (inr e) ↦ absurd (ground arith)
]

any_decode-IsCanonical :
    (pdu : RequestPdu) (bs : Input) → All IsByte bs → decode reference bs ≡ ok pdu → IsCanonical pdu
unfolding decode reference
any_decode-IsCanonical pdu [] hb h = absurd (ground arith)
any_decode-IsCanonical pdu (b ∷ s) hb h =
    let (code, body) = body_of pdu b s h in any_code code s pdu hb.1 body

-- Every request that `decode` returns, from bytes and under any `winnow` with the documented
-- behaviour, is canonical.
pub request_decode-IsCanonical :
    (w : Winnow) (pdu : RequestPdu) (bs : Input)
    → IsWinnow w
    → All IsByte bs
    → decode w bs ≡ ok pdu
    → IsCanonical pdu
request_decode-IsCanonical w pdu bs law hb h =
    by_reference (λ v. decode v bs ≡ ok pdu → IsCanonical pdu) (any_decode-IsCanonical pdu bs hb)
      law h

-- What `encode` returns for a request, if it is bytes, decodes to that request, under any `winnow`
-- with the documented behaviour, exactly if the request is canonical: its 16-bit fields are in
-- range, and it holds no MEI body `Other` under the type 13 or 14 of another variant.
pub request_decode-encode_iff :
    (w : Winnow) (pdu : RequestPdu) (bs : Input)
    → IsWinnow w
    → All IsByte bs
    → encode pdu ≡ ok bs
    → (decode w bs ≡ ok pdu) ↔ IsCanonical pdu
request_decode-encode_iff w pdu bs law hb h = (
  request_decode-IsCanonical w pdu bs law hb,
  λ canonical. request_decode-encode w pdu bs law canonical h,
)
