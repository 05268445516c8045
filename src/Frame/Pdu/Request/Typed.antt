-- ===== src/Frame/Pdu/Request/Typed.antt =====
-- The ranges of the fields of a request (src/frame/pdu.rs).
use rust_modbus.Prelude.{ℕ, ◌≡◌, All, ok}
use rust_modbus.Frame.Bytes.{IsU16}
use rust_modbus.Frame.Diagnostics
use rust_modbus.Frame.File.Items.{ReadIsTyped, WriteIsTyped}
use rust_modbus.Frame.Mei.RoundTrip.{MeiIsCanonical}
use rust_modbus.Frame.Pdu.Request.{
  RequestPdu, read_coils, read_discrete_inputs, read_holding_registers, read_input_registers,
  write_single_coil, write_single_register, write_multiple_coils, write_multiple_registers,
  mask_write_register, read_write_multiple_registers, diagnostics, read_file_record,
  write_file_record, read_fifo_queue, encapsulated_interface_transport,
}

-- What the wire can carry: the 16-bit fields in the ranges that the Rust types give them, and an
-- MEI body under the variant of its type. `Other` of src/frame/mei.rs may hold the type 13 or 14 of
-- another variant, which `encode` writes all the same: such a request is not canonical.
abbrev pub IsCanonical : RequestPdu → Type 0
IsCanonical (read_coils address quantity) = IsU16 address × IsU16 quantity
IsCanonical (read_discrete_inputs address quantity) = IsU16 address × IsU16 quantity
IsCanonical (read_holding_registers address quantity) = IsU16 address × IsU16 quantity
IsCanonical (read_input_registers address quantity) = IsU16 address × IsU16 quantity
IsCanonical (write_single_coil address value) = IsU16 address
IsCanonical (write_single_register address value) = IsU16 address × IsU16 value
IsCanonical (write_multiple_coils address coils) = IsU16 address
IsCanonical (write_multiple_registers address registers) = IsU16 address × All IsU16 registers
IsCanonical (mask_write_register address and_mask or_mask) =
    IsU16 address × IsU16 and_mask × IsU16 or_mask
IsCanonical (read_write_multiple_registers read_address read_quantity write_address registers) =
    IsU16 read_address × IsU16 read_quantity × IsU16 write_address × All IsU16 registers
IsCanonical (diagnostics sub_function words) =
    ((raw : ℕ) → Diagnostics.encode sub_function ≡ ok raw → IsU16 raw) × All IsU16 words
IsCanonical (read_file_record records) = All ReadIsTyped records
IsCanonical (write_file_record records) = All WriteIsTyped records
IsCanonical (read_fifo_queue address) = IsU16 address
IsCanonical (encapsulated_interface_transport request) = MeiIsCanonical request
IsCanonical _ = Unit {0}
