-- ===== src/Frame/Pdu/Request/Decodes.antt =====
-- Decoding what a request encodes to (src/frame/pdu.rs).
use rust_modbus.Prelude.{ℕ, ◌≡◌, true, false, List, arith, ok}
use rust_modbus.Buffer.{◌>>=◌}
use rust_modbus.Parse.Stream.{Winnow, IsWinnow}
use rust_modbus.Parse.Reference.{reference, by_reference}
use rust_modbus.Frame.Function
use rust_modbus.Frame.Pdu.Encode.{encode_read, encode_single, encode_bare}
use rust_modbus.Frame.Pdu.Decode.{read_request, single_coil}
use rust_modbus.Frame.Pdu.Request.{
  RequestPdu, read_coils, read_discrete_inputs, read_holding_registers, read_input_registers,
  write_single_coil, write_single_register, write_multiple_coils, write_multiple_registers,
  mask_write_register, read_write_multiple_registers, read_exception_status, diagnostics,
  get_comm_event_counter, get_comm_event_log, report_server_id, read_file_record, write_file_record,
  read_fifo_queue, encapsulated_interface_transport, custom, decode,
}
use rust_modbus.Frame.Pdu.Request.Write.{encode}
use rust_modbus.Frame.Pdu.Request.Typed.{IsCanonical}
use rust_modbus.Frame.Pdu.Request.DecodeBodies.{
  read_write_bounds, read_write_bytes, read_write_decode, coils_decode, registers_decode,
  reads_decode, writes_decode, mei_decode, custom_decode, decode-diagnostics,
}

any_decode-encode :
    (pdu : RequestPdu) (bs : List ℕ)
    → IsCanonical pdu
    → encode pdu ≡ ok bs
    → decode reference bs ≡ ok pdu
unfolding encode encode_read encode_single encode_bare decode read_request single_coil reference
    Function.decode ◌>>=◌
any_decode-encode (read_coils a q) bs t h = ground arith
any_decode-encode (read_discrete_inputs a q) bs t h = ground arith
any_decode-encode (read_holding_registers a q) bs t h = ground arith
any_decode-encode (read_input_registers a q) bs t h = ground arith
any_decode-encode (write_single_coil a true) bs t h = ground arith
any_decode-encode (write_single_coil a false) bs t h = ground arith
any_decode-encode (write_single_register a v) bs t h = ground arith
any_decode-encode (mask_write_register a m n) bs t h = ground arith
any_decode-encode read_exception_status bs t h = ground arith
any_decode-encode get_comm_event_counter bs t h = ground arith
any_decode-encode get_comm_event_log bs t h = ground arith
any_decode-encode report_server_id bs t h = ground arith
any_decode-encode (read_fifo_queue a) bs t h = ground arith
any_decode-encode (write_multiple_coils a l) bs t h = coils_decode a l bs t h
any_decode-encode (write_multiple_registers a r) bs t h = registers_decode a r bs t.0 t.1 h
any_decode-encode (read_write_multiple_registers a q b r) bs t h =
    let bounds = read_write_bounds a q b r bs h in
    rw (read_write_bytes a q b r bs bounds h) (read_write_decode a q b r t bounds)
any_decode-encode (diagnostics sub words) bs t h = decode-diagnostics sub words bs t h
any_decode-encode (read_file_record records) bs t h = reads_decode records bs t h
any_decode-encode (write_file_record records) bs t h = writes_decode records bs t h
any_decode-encode (encapsulated_interface_transport request) bs t h = mei_decode request bs t h
any_decode-encode (custom code body) bs t h = custom_decode code body bs h

-- For every request whose fields are in the ranges of their Rust types, and that holds no MEI body
-- `Other` under the type 13 or 14 of another variant, what `encode` returns decodes, under any
-- `winnow` with the documented behaviour, to the same request.
pub request_decode-encode :
    (w : Winnow) (pdu : RequestPdu) (bs : List ℕ)
    → IsWinnow w
    → IsCanonical pdu
    → encode pdu ≡ ok bs
    → decode w bs ≡ ok pdu
request_decode-encode w pdu bs law t h =
    by_reference (λ v. decode v bs ≡ ok pdu) (any_decode-encode pdu bs t h) law
