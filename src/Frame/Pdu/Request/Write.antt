-- ===== src/Frame/Pdu/Request/Write.antt =====
-- Encoding a request PDU (src/frame/pdu.rs).
use rust_modbus.Prelude.{ℕ, ◌*◌, List, if◌then◌else◌, length}
use rust_modbus.Error.{Result}
use rust_modbus.Buffer.{Writer, guarded, owned, lift, extend, push, ◌>>=◌, ◌>>◌}
use rust_modbus.Frame.Bytes.{be_bytes, u8_saturated}
use rust_modbus.Frame.File.Encode.{encode_read_requests_into, encode_write_records_into}
use rust_modbus.Frame.Mei.Encode.{encode_request_into}
use rust_modbus.Frame.Pdu.Bits.{push_bits, packed_len}
use rust_modbus.Frame.Pdu.Words.{push_registers}
use rust_modbus.Frame.Pdu.Limits.{
  check_range, coil_on, coil_off, max_read_bits, max_read_registers, max_write_bits,
  max_write_registers, max_rw_write_registers,
}
use rust_modbus.Frame.Pdu.Encode.{
  sized, quantity_of, encode_read, encode_single, encode_quantified, encode_diagnostics,
  encode_custom, encode_body, encode_bare,
}
use rust_modbus.Frame.Pdu.Request.{
  RequestPdu, read_coils, read_discrete_inputs, read_holding_registers, read_input_registers,
  write_single_coil, write_single_register, write_multiple_coils, write_multiple_registers,
  mask_write_register, read_write_multiple_registers, read_exception_status, diagnostics,
  get_comm_event_counter, get_comm_event_log, report_server_id, read_file_record, write_file_record,
  read_fifo_queue, encapsulated_interface_transport, custom,
}

-- `RequestPdu::write`. A length in memory is far below the point where doubling it saturates.
unfoldable pub write : RequestPdu → Writer (Unit {0})
write (read_coils address quantity) = encode_read 1 address quantity 1 max_read_bits
write (read_discrete_inputs address quantity) = encode_read 2 address quantity 1 max_read_bits
write (read_holding_registers address quantity) =
    encode_read 3 address quantity 1 max_read_registers
write (read_input_registers address quantity) = encode_read 4 address quantity 1 max_read_registers
write (write_single_coil address value) =
    encode_single 5 address (if value then coil_on else coil_off)
write (write_single_register address value) = encode_single 6 address value
write (write_multiple_coils address coils) = do
  quantity ← lift (quantity_of "quantity" (length coils) 1 max_write_bits)
  encode_quantified 15 address quantity (packed_len (length coils)) (push_bits coils)
write (write_multiple_registers address registers) = do
  quantity ← lift (quantity_of "quantity" (length registers) 1 max_write_registers)
  encode_quantified 16 address quantity (length registers * 2) (push_registers registers)
write (mask_write_register address and_mask or_mask) =
    sized
      (do push 22; extend (be_bytes address); extend (be_bytes and_mask); extend (be_bytes or_mask))
write (read_write_multiple_registers read_address read_quantity write_address registers) = do
  lift (check_range "read quantity" read_quantity 1 max_read_registers)
  write_quantity ← lift (quantity_of "write quantity" (length registers) 1 max_rw_write_registers)
  let data_len = length registers * 2
  sized (do
    push 23
    extend (be_bytes read_address)
    extend (be_bytes read_quantity)
    extend (be_bytes write_address)
    extend (be_bytes write_quantity)
    push (u8_saturated data_len)
    push_registers registers)
write read_exception_status = encode_bare 7
write (diagnostics sub_function words) = encode_diagnostics 8 sub_function words
write get_comm_event_counter = encode_bare 11
write get_comm_event_log = encode_bare 12
write report_server_id = encode_bare 17
write (read_file_record records) = encode_body 20 (encode_read_requests_into records)
write (write_file_record records) = encode_body 21 (encode_write_records_into records)
write (read_fifo_queue address) = sized (do push 24; extend (be_bytes address))
write (encapsulated_interface_transport request) = encode_body 43 (encode_request_into request)
write (custom code body) = encode_custom code body

-- `RequestPdu::encode_into`
unfoldable pub encode_into : RequestPdu → Writer (Unit {0})
unfolding write guarded
encode_into pdu = guarded (write pdu)

-- `RequestPdu::encode`
unfoldable pub encode : RequestPdu → Result (List ℕ)
unfolding encode_into owned
encode pdu = owned (encode_into pdu)
