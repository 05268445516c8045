-- ===== src/Frame/Pdu/Response/Write.antt =====
-- Encoding a response PDU (src/frame/pdu.rs).
use rust_modbus.Prelude.{ℕ, ◌+◌, ◌*◌, List, if◌then◌else◌, length}
use rust_modbus.Error.{Result}
use rust_modbus.Buffer.{Writer, guarded, owned, lift, extend, push, ◌>>=◌, ◌>>◌}
use rust_modbus.Frame.Bytes.{be_bytes, u8_saturated, u32_saturated}
use rust_modbus.Frame.Exception
use rust_modbus.Frame.File.Encode.{encode_read_responses_into, encode_write_records_into}
use rust_modbus.Frame.Mei.Encode.{encode_response_into}
use rust_modbus.Frame.Pdu.Bits.{push_bits, packed_len}
use rust_modbus.Frame.Pdu.Words.{push_registers}
use rust_modbus.Frame.Pdu.Limits.{
  check_event_log_bytes, event_log_fixed_bytes, coil_on, coil_off, max_fifo_count,
}
use rust_modbus.Frame.Pdu.Encode.{
  sized, quantity_of, encode_single, encode_echo_quantity, encode_diagnostics, encode_custom,
  encode_body, encode_counted,
}
use rust_modbus.Frame.Pdu.Response.{
  ResponsePdu, read_coils, read_discrete_inputs, read_holding_registers, read_input_registers,
  write_single_coil, write_single_register, write_multiple_coils, write_multiple_registers,
  mask_write_register, read_write_multiple_registers, read_exception_status, diagnostics,
  get_comm_event_counter, get_comm_event_log, report_server_id, read_file_record, write_file_record,
  read_fifo_queue, encapsulated_interface_transport, custom, exception,
}

-- `ResponsePdu::write`. A length in memory is far below the point where doubling it saturates, and
-- `count * 2 + 2` stays within 16 bits below the bound on `count`.
unfoldable pub write : ResponsePdu → Writer (Unit {0})
write (read_coils coils) = encode_counted 1 (packed_len (length coils)) (push_bits coils)
write (read_discrete_inputs inputs) =
    encode_counted 2 (packed_len (length inputs)) (push_bits inputs)
write (read_holding_registers registers) =
    encode_counted 3 (length registers * 2) (push_registers registers)
write (read_input_registers registers) =
    encode_counted 4 (length registers * 2) (push_registers registers)
write (write_single_coil address value) =
    encode_single 5 address (if value then coil_on else coil_off)
write (write_single_register address value) = encode_single 6 address value
write (write_multiple_coils address quantity) = encode_echo_quantity 15 address quantity
write (write_multiple_registers address quantity) = encode_echo_quantity 16 address quantity
write (mask_write_register address and_mask or_mask) =
    sized
      (do push 22; extend (be_bytes address); extend (be_bytes and_mask); extend (be_bytes or_mask))
write (read_write_multiple_registers registers) =
    encode_counted 23 (length registers * 2) (push_registers registers)
write (read_exception_status status) = sized (do push 7; push status)
write (diagnostics sub_function words) = encode_diagnostics 8 sub_function words
write (get_comm_event_counter status event_count) =
    sized (do push 11; extend (be_bytes status); extend (be_bytes event_count))
write (get_comm_event_log status event_count message_count events) = do
  let byte_count = event_log_fixed_bytes + length events
  lift (check_event_log_bytes (u32_saturated byte_count))
  sized (do
    push 12
    push (u8_saturated byte_count)
    extend (be_bytes status)
    extend (be_bytes event_count)
    extend (be_bytes message_count)
    extend events)
write (report_server_id body) = encode_counted 17 (length body) (extend body)
write (read_file_record records) = encode_body 20 (encode_read_responses_into records)
write (write_file_record records) = encode_body 21 (encode_write_records_into records)
write (read_fifo_queue values) = do
  count ← lift (quantity_of "FIFO count" (length values) 0 max_fifo_count)
  let byte_count = count * 2 + 2
  sized (do push 24; extend (be_bytes byte_count); extend (be_bytes count); push_registers values)
write (encapsulated_interface_transport response) = encode_body 43 (encode_response_into response)
write (custom code body) = encode_custom code body
write (exception response) = Exception.encode_into response

-- `ResponsePdu::encode_into`
unfoldable pub encode_into : ResponsePdu → Writer (Unit {0})
unfolding write guarded
encode_into pdu = guarded (write pdu)

-- `ResponsePdu::encode`
unfoldable pub encode : ResponsePdu → Result (List ℕ)
unfolding encode_into owned
encode pdu = owned (encode_into pdu)
