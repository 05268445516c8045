-- ===== src/Frame/Pdu/Response/Encodes.antt =====
-- Encoding the response that bytes decode to (src/frame/pdu.rs).
use rust_modbus.Prelude.{
  ℕ, ◌<◌, bit_and, bit_or, ◌≡◌, refl, sym, subst, inl, inr, true, false, [], ◌∷◌, arith, Bool-cases,
  length, All, ok, Outcome-cases,
}
use rust_modbus.Buffer.{◌>>=◌}
use rust_modbus.Parse.Stream.{Winnow, IsWinnow, Input}
use rust_modbus.Parse.Reference.{reference, by_reference}
use rust_modbus.Frame.Bytes.{IsByte}
use rust_modbus.Frame.Code.{FunctionCode}
use rust_modbus.Frame.Function
use rust_modbus.Frame.Function.RoundTrip.{encode-decode}
use rust_modbus.Frame.Exception
use rust_modbus.Frame.Exception.{ExceptionResponse}
use rust_modbus.Frame.Exception.RoundTrip.{encode_code-decode_code, flag_bits}
use rust_modbus.Frame.Pdu.Response.{ResponsePdu, exception, decode, decode_body, is_exception}
use rust_modbus.Frame.Pdu.Response.Write.{encode}
use rust_modbus.Frame.Pdu.Response.EncodeBodies.{
  Reencodes, coils_again, inputs_again, holding_again, input_again, coil_again, register_again,
  echo_again, mask_again, read_write_again, status_again, counter_again, server_id_again,
  diagnostics_again, reads_again, writes_again, mei_again, custom_again,
}
use rust_modbus.Frame.Pdu.Response.EncodeLogs.{log_again, fifo_again}

-- The byte that a function code encodes to.
at_byte :
    (code : FunctionCode) (b byte : ℕ) (s : Input)
    → Function.encode code ≡ ok b
    → Function.encode code ≡ ok byte
    → Reencodes code byte s
    → Reencodes code b s
at_byte code b byte s h e r = subst (λ v. Reencodes code v s) (ground arith) r

any_code :
    (code : FunctionCode) (b : ℕ) (s : Input) → Function.encode code ≡ ok b → Reencodes code b s
unfolding Function.encode
any_code FunctionCode.read_coils b s h = at_byte _ b 1 s h refl (coils_again s)
any_code FunctionCode.read_discrete_inputs b s h = at_byte _ b 2 s h refl (inputs_again s)
any_code FunctionCode.read_holding_registers b s h = at_byte _ b 3 s h refl (holding_again s)
any_code FunctionCode.read_input_registers b s h = at_byte _ b 4 s h refl (input_again s)
any_code FunctionCode.write_single_coil b s h = at_byte _ b 5 s h refl (coil_again s)
any_code FunctionCode.write_single_register b s h = at_byte _ b 6 s h refl (register_again s)
any_code FunctionCode.read_exception_status b s h = at_byte _ b 7 s h refl (status_again s)
any_code FunctionCode.diagnostics b s h = at_byte _ b 8 s h refl (diagnostics_again s)
any_code FunctionCode.get_comm_event_counter b s h = at_byte _ b 11 s h refl (counter_again s)
any_code FunctionCode.get_comm_event_log b s h = at_byte _ b 12 s h refl (log_again s)
any_code FunctionCode.write_multiple_coils b s h =
    echo_again FunctionCode.write_multiple_coils b s h (ground arith)
any_code FunctionCode.write_multiple_registers b s h =
    echo_again FunctionCode.write_multiple_registers b s h (ground arith)
any_code FunctionCode.report_server_id b s h = at_byte _ b 17 s h refl (server_id_again s)
any_code FunctionCode.read_file_record b s h = at_byte _ b 20 s h refl (reads_again s)
any_code FunctionCode.write_file_record b s h = at_byte _ b 21 s h refl (writes_again s)
any_code FunctionCode.mask_write_register b s h = at_byte _ b 22 s h refl (mask_again s)
any_code FunctionCode.read_write_multiple_registers b s h =
    at_byte _ b 23 s h refl (read_write_again s)
any_code FunctionCode.read_fifo_queue b s h = at_byte _ b 24 s h refl (fifo_again s)
any_code FunctionCode.encapsulated_interface_transport b s h = at_byte _ b 43 s h refl (mei_again s)
any_code (FunctionCode.custom c) b s h = custom_again c b s h

flag_rest :
    (b : ℕ)
    → IsByte b
    → (bit_and b 128 ≡ 0 → b < 128) × ((bit_and b 128 ≡ 0 → ⊥) → bit_or (bit_and b 127) 128 ≡ b)
flag_rest b hb = ground (arith, flag_bits b hb)

exception_parts :
    (b : ℕ) (s : Input) (e : ExceptionResponse)
    → Exception.decode (b ∷ s) ≡ ok e
    → (c : ℕ) × (s ≡ c ∷ [])
      × (Function.decode (bit_and b 127) ≡ ok e.function)
      × (e.exception ≡ Exception.decode_code c)
unfolding Exception.decode
exception_parts b (c ∷ []) e h = elim (Outcome-cases (Function.decode (bit_and b 127))) [
  | inl (code, f) ↦ (c, refl, ground arith, ground arith)
  | inr (inl (x, f)) ↦ absurd (ground arith)
  | inr (inr f) ↦ absurd (ground arith)
]
exception_parts b [] e h = cc
exception_parts b (c ∷ d ∷ s) e h = cc

exception_again :
    (b : ℕ) (s : Input) (e : ExceptionResponse)
    → All IsByte (b ∷ s)
    → (bit_and b 128 ≡ 0 → ⊥)
    → Exception.decode (b ∷ s) ≡ ok e
    → encode (exception e) ≡ ok (b ∷ s)
unfolding encode Exception.encode_into ◌>>=◌
exception_again b s e (hb, hs) high h =
    let (c, same, f, code) = exception_parts b s e h in
    let low : IsByte (bit_and b 127) = ground (arith, flag_bits b hb) in
    ground (
      arith,
      encode-decode (bit_and b 127) {code = e.function} low f,
      encode_code-decode_code c,
      (flag_rest b hb).1 high,
    )

-- The two ways in which a response decodes.
body_of :
    (pdu : ResponsePdu) (b : ℕ) (s : Input) (code : FunctionCode)
    → is_exception (b ∷ s) ≡ false
    → Function.decode b ≡ ok code
    → decode reference (b ∷ s) ≡ ok pdu
    → (length s < 253) × (decode_body reference code s ≡ ok (pdu, []))
unfolding decode reference
body_of pdu b s code f e h = ground arith

exception_of :
    (pdu : ResponsePdu) (b : ℕ) (s : Input)
    → is_exception (b ∷ s) ≡ true
    → decode reference (b ∷ s) ≡ ok pdu
    → (e : ExceptionResponse) × (pdu ≡ exception e) × (Exception.decode (b ∷ s) ≡ ok e)
unfolding decode
exception_of pdu b s f h = elim (Outcome-cases (Exception.decode (b ∷ s))) [
  | inl (e, d) ↦ (e, ground arith, d)
  | inr (inl (x, e)) ↦ absurd (ground arith)
  | inr (inr e) ↦ absurd (ground arith)
]

any_encode-decode :
    (pdu : ResponsePdu) (bs : Input)
    → All IsByte bs
    → decode reference bs ≡ ok pdu
    → encode pdu ≡ ok bs
unfolding decode reference
any_encode-decode pdu [] hb h = absurd (ground arith)
any_encode-decode pdu (b ∷ s) hb h = elim (Bool-cases (is_exception (b ∷ s))) [
  | inl f ↦
      let (e, same, d) = exception_of pdu b s f h in
      let high : bit_and b 128 ≡ 0 → ⊥ = λ zero_bit. ground arith in
      subst (λ (p : ResponsePdu). encode p ≡ ok (b ∷ s)) (sym same)
        (exception_again b s e hb high d)
  | inr f ↦ elim (Outcome-cases (Function.decode b)) [
    | inl (code, e) ↦
        let (short, body) = body_of pdu b s code f e h in
        any_code code b s (encode-decode b hb.0 e).0 pdu hb.1 short body
    | inr (inl (x, e)) ↦ absurd (ground arith)
    | inr (inr e) ↦ absurd (ground arith)
  ]
]

-- Every byte sequence that `decode` accepts as a response, under any `winnow` with the documented
-- behaviour, is what `encode` gives for the response it returns.
pub response_encode-decode :
    (w : Winnow) (pdu : ResponsePdu) (bs : Input)
    → IsWinnow w
    → All IsByte bs
    → decode w bs ≡ ok pdu
    → encode pdu ≡ ok bs
response_encode-decode w pdu bs law hb h =
    by_reference (λ v. decode v bs ≡ ok pdu → encode pdu ≡ ok bs) (any_encode-decode pdu bs hb) law
      h
