-- ===== src/Frame/Pdu/Response/Typed.antt =====
-- The ranges of the fields of a response, and the padding of its bits (src/frame/pdu.rs).
use rust_modbus.Prelude.{ℕ, ◌≡◌, Bool, List, ◌++◌, length, All, ok}
use rust_modbus.Frame.Bytes.{IsU16}
use rust_modbus.Frame.Diagnostics
use rust_modbus.Frame.File.Items.{WriteIsTyped}
use rust_modbus.Frame.File.ReadResponses.{ResponseIsTyped}
use rust_modbus.Frame.Mei.Objects.{ResponseIsCanonical}
use rust_modbus.Frame.Pdu.Bits.Chunk.{padding}
use rust_modbus.Frame.Pdu.Bits.RoundTrip.{spare}
use rust_modbus.Frame.Pdu.Response.{
  ResponsePdu, read_coils, read_discrete_inputs, read_holding_registers, read_input_registers,
  write_single_coil, write_single_register, write_multiple_coils, write_multiple_registers,
  mask_write_register, read_write_multiple_registers, diagnostics, get_comm_event_counter,
  get_comm_event_log, read_file_record, write_file_record, read_fifo_queue,
  encapsulated_interface_transport,
}

-- What the wire can carry: the 16-bit fields in the ranges that the Rust types give them, and an
-- MEI body under the variant of its type. `Other` of src/frame/mei.rs may hold the type 13 or 14 of
-- another variant, which `encode` writes all the same: such a response is not canonical.
abbrev pub IsCanonical : ResponsePdu → Type 0
IsCanonical (read_holding_registers values) = All IsU16 values
IsCanonical (read_input_registers values) = All IsU16 values
IsCanonical (write_single_coil address value) = IsU16 address
IsCanonical (write_single_register address value) = IsU16 address × IsU16 value
IsCanonical (write_multiple_coils address quantity) = IsU16 address × IsU16 quantity
IsCanonical (write_multiple_registers address quantity) = IsU16 address × IsU16 quantity
IsCanonical (mask_write_register address and_mask or_mask) =
    IsU16 address × IsU16 and_mask × IsU16 or_mask
IsCanonical (read_write_multiple_registers values) = All IsU16 values
IsCanonical (diagnostics sub_function words) =
    ((raw : ℕ) → Diagnostics.encode sub_function ≡ ok raw → IsU16 raw) × All IsU16 words
IsCanonical (get_comm_event_counter status event_count) = IsU16 status × IsU16 event_count
IsCanonical (get_comm_event_log status event_count message_count events) =
    IsU16 status × IsU16 event_count × IsU16 message_count
IsCanonical (read_file_record records) = All ResponseIsTyped records
IsCanonical (write_file_record records) = All WriteIsTyped records
IsCanonical (read_fifo_queue values) = All IsU16 values
IsCanonical (encapsulated_interface_transport response) = ResponseIsCanonical response
IsCanonical _ = Unit {0}

abbrev pub padded_bits : List Bool → List Bool
padded_bits bits = bits ++ padding (spare (length bits))

-- The wire carries whole bytes of bits: the bits of a response come back with the zero bits that
-- fill the last byte.
unfoldable pub padded : ResponsePdu → ResponsePdu
padded (read_coils coils) = read_coils (padded_bits coils)
padded (read_discrete_inputs inputs) = read_discrete_inputs (padded_bits inputs)
padded pdu = pdu
