-- ===== src/Frame/Pdu/Request/Encodes.antt =====
-- Encoding what bytes decode to (src/frame/pdu.rs).
use rust_modbus.Prelude.{
  ℕ, ◌<◌, ◌≡◌, refl, subst, inl, inr, [], ◌∷◌, arith, length, All, ok, Outcome-cases,
}
use rust_modbus.Parse.Stream.{Winnow, IsWinnow, Input}
use rust_modbus.Parse.Reference.{reference, by_reference}
use rust_modbus.Frame.Bytes.{IsByte}
use rust_modbus.Frame.Code.{FunctionCode}
use rust_modbus.Frame.Function
use rust_modbus.Frame.Function.RoundTrip.{encode-decode}
use rust_modbus.Frame.Pdu.Request.{RequestPdu, decode, decode_body}
use rust_modbus.Frame.Pdu.Request.Write.{encode}
use rust_modbus.Frame.Pdu.Request.EncodeBodies.{
  Reencodes, read_again, coil_again, register_again, coils_again, registers_again, mask_again,
  bare_again, fifo_again, reads_again, writes_again, mei_again, diagnostics_again, read_write_again,
  custom_again,
}

-- The byte that a function code encodes to.
at_byte :
    (code : FunctionCode) (b byte : ℕ) (s : Input)
    → Function.encode code ≡ ok b
    → Function.encode code ≡ ok byte
    → Reencodes code byte s
    → Reencodes code b s
at_byte code b byte s h e r = subst (λ v. Reencodes code v s) (ground arith) r

any_code :
    (code : FunctionCode) (b : ℕ) (s : Input) → Function.encode code ≡ ok b → Reencodes code b s
unfolding Function.encode
any_code FunctionCode.read_coils b s h = read_again FunctionCode.read_coils b s h (ground arith)
any_code FunctionCode.read_discrete_inputs b s h =
    read_again FunctionCode.read_discrete_inputs b s h (ground arith)
any_code FunctionCode.read_holding_registers b s h =
    read_again FunctionCode.read_holding_registers b s h (ground arith)
any_code FunctionCode.read_input_registers b s h =
    read_again FunctionCode.read_input_registers b s h (ground arith)
any_code FunctionCode.write_single_coil b s h = at_byte _ b 5 s h refl (coil_again s)
any_code FunctionCode.write_single_register b s h = at_byte _ b 6 s h refl (register_again s)
any_code FunctionCode.read_exception_status b s h =
    bare_again FunctionCode.read_exception_status b s h (ground arith)
any_code FunctionCode.diagnostics b s h = at_byte _ b 8 s h refl (diagnostics_again s)
any_code FunctionCode.get_comm_event_counter b s h =
    bare_again FunctionCode.get_comm_event_counter b s h (ground arith)
any_code FunctionCode.get_comm_event_log b s h =
    bare_again FunctionCode.get_comm_event_log b s h (ground arith)
any_code FunctionCode.write_multiple_coils b s h = at_byte _ b 15 s h refl (coils_again s)
any_code FunctionCode.write_multiple_registers b s h = at_byte _ b 16 s h refl (registers_again s)
any_code FunctionCode.report_server_id b s h =
    bare_again FunctionCode.report_server_id b s h (ground arith)
any_code FunctionCode.read_file_record b s h = at_byte _ b 20 s h refl (reads_again s)
any_code FunctionCode.write_file_record b s h = at_byte _ b 21 s h refl (writes_again s)
any_code FunctionCode.mask_write_register b s h = at_byte _ b 22 s h refl (mask_again s)
any_code FunctionCode.read_write_multiple_registers b s h =
    at_byte _ b 23 s h refl (read_write_again s)
any_code FunctionCode.read_fifo_queue b s h = at_byte _ b 24 s h refl (fifo_again s)
any_code FunctionCode.encapsulated_interface_transport b s h = at_byte _ b 43 s h refl (mei_again s)
any_code (FunctionCode.custom c) b s h = custom_again c b s h

body_of :
    (code : FunctionCode) (pdu : RequestPdu) (b : ℕ) (s : Input)
    → Function.decode b ≡ ok code
    → decode reference (b ∷ s) ≡ ok pdu
    → (length s < 253) × (decode_body reference code s ≡ ok (pdu, []))
unfolding decode reference
body_of code pdu b s e h = ground arith

any_encode-decode :
    (pdu : RequestPdu) (bs : Input)
    → All IsByte bs
    → decode reference bs ≡ ok pdu
    → encode pdu ≡ ok bs
unfolding decode reference
any_encode-decode pdu [] hb h = absurd (ground arith)
any_encode-decode pdu (b ∷ s) hb h = elim (Outcome-cases (Function.decode b)) [
  | inl (code, e) ↦
      let (short, body) = body_of code pdu b s e h in
      any_code code b s (encode-decode b hb.0 e).0 pdu hb.1 short body
  | inr (inl (x, e)) ↦ absurd (ground arith)
  | inr (inr e) ↦ absurd (ground arith)
]

-- Every byte sequence that `decode` accepts, under any `winnow` with the documented behaviour, is
-- what `encode` gives for the request it returns.
pub request_encode-decode :
    (w : Winnow) (pdu : RequestPdu) (bs : Input)
    → IsWinnow w
    → All IsByte bs
    → decode w bs ≡ ok pdu
    → encode pdu ≡ ok bs
request_encode-decode w pdu bs law hb h =
    by_reference (λ v. decode v bs ≡ ok pdu → encode pdu ≡ ok bs) (any_encode-decode pdu bs hb) law
      h
