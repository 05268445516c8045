-- ===== src/Frame/Pdu/Response/Decodes.antt =====
-- Decoding what a response encodes to (src/frame/pdu.rs).
use rust_modbus.Prelude.{ℕ, ◌≡◌, true, false, List, arith, ok}
use rust_modbus.Buffer.{◌>>=◌}
use rust_modbus.Parse.Stream.{Winnow, IsWinnow}
use rust_modbus.Parse.Reference.{reference, by_reference}
use rust_modbus.Frame.Function
use rust_modbus.Frame.Pdu.Encode.{encode_single, encode_echo_quantity}
use rust_modbus.Frame.Pdu.Decode.{single_coil}
use rust_modbus.Frame.Pdu.Response.{
  ResponsePdu, read_coils, read_discrete_inputs, read_holding_registers, read_input_registers,
  write_single_coil, write_single_register, write_multiple_coils, write_multiple_registers,
  mask_write_register, read_write_multiple_registers, read_exception_status, diagnostics,
  get_comm_event_counter, get_comm_event_log, report_server_id, read_file_record, write_file_record,
  read_fifo_queue, encapsulated_interface_transport, custom, exception, decode,
}
use rust_modbus.Frame.Pdu.Response.Write.{encode}
use rust_modbus.Frame.Pdu.Response.Typed.{IsCanonical, padded}
use rust_modbus.Frame.Pdu.Response.DecodeBodies.{
  coils_decode, inputs_decode, holding_decode, input_decode, read_write_decode, server_id_decode,
}
use rust_modbus.Frame.Pdu.Response.DecodeLogs.{log_decode, fifo_decode}
use rust_modbus.Frame.Pdu.Response.DecodeRegions.{
  reads_decode, writes_decode, mei_decode, custom_decode, exception_decode, decode-diagnostics,
}

any_decode-encode :
    (pdu : ResponsePdu) (bs : List ℕ)
    → IsCanonical pdu
    → encode pdu ≡ ok bs
    → decode reference bs ≡ ok (padded pdu)
unfolding encode encode_single encode_echo_quantity decode single_coil reference Function.decode
    padded ◌>>=◌
any_decode-encode (read_coils coils) bs t h = coils_decode coils bs h
any_decode-encode (read_discrete_inputs inputs) bs t h = inputs_decode inputs bs h
any_decode-encode (read_holding_registers values) bs t h = holding_decode values bs t h
any_decode-encode (read_input_registers values) bs t h = input_decode values bs t h
any_decode-encode (write_single_coil a true) bs t h = ground arith
any_decode-encode (write_single_coil a false) bs t h = ground arith
any_decode-encode (write_single_register a v) bs t h = ground arith
any_decode-encode (write_multiple_coils a q) bs t h = ground arith
any_decode-encode (write_multiple_registers a q) bs t h = ground arith
any_decode-encode (mask_write_register a m n) bs t h = ground arith
any_decode-encode (read_write_multiple_registers values) bs t h = read_write_decode values bs t h
any_decode-encode (read_exception_status status) bs t h = ground arith
any_decode-encode (diagnostics sub words) bs t h = decode-diagnostics sub words bs t h
any_decode-encode (get_comm_event_counter s c) bs t h = ground arith
any_decode-encode (get_comm_event_log s c m events) bs t h = log_decode s c m events bs t h
any_decode-encode (report_server_id body) bs t h = server_id_decode body bs h
any_decode-encode (read_file_record records) bs t h = reads_decode records bs t h
any_decode-encode (write_file_record records) bs t h = writes_decode records bs t h
any_decode-encode (read_fifo_queue values) bs t h = fifo_decode values bs t h
any_decode-encode (encapsulated_interface_transport response) bs t h = mei_decode response bs t h
any_decode-encode (custom code body) bs t h = custom_decode code body bs h
any_decode-encode (exception response) bs t h = exception_decode response bs h

-- For every response whose fields are in the ranges of their Rust types, and that holds no MEI body
-- `Other` under the type 13 or 14 of another variant, what `encode` returns decodes, under any
-- `winnow` with the documented behaviour, to the same response, with the bits of a read of coils or
-- discrete inputs filled up to whole bytes by zeros.
pub response_decode-encode :
    (w : Winnow) (pdu : ResponsePdu) (bs : List ℕ)
    → IsWinnow w
    → IsCanonical pdu
    → encode pdu ≡ ok bs
    → decode w bs ≡ ok (padded pdu)
response_decode-encode w pdu bs law t h =
    by_reference (λ v. decode v bs ≡ ok (padded pdu)) (any_decode-encode pdu bs t h) law
