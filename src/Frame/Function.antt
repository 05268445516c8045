-- ===== src/Frame/Function.antt =====
-- The operations of a function code (src/frame/function.rs).
use rust_modbus.Prelude.{
  ℕ, Bool, false, ◌||◌, Option, none, some, List, [], ◌∷◌, leb, ◌==◌, if◌then◌else◌, ok, err,
}
use rust_modbus.Error.{Result, invalid_function_code, reserved_code}
use rust_modbus.Frame.Code.{
  FunctionCode, read_coils, read_discrete_inputs, read_holding_registers, read_input_registers,
  write_single_coil, write_single_register, read_exception_status, diagnostics,
  get_comm_event_counter, get_comm_event_log, write_multiple_coils, write_multiple_registers,
  report_server_id, read_file_record, write_file_record, mask_write_register,
  read_write_multiple_registers, read_fifo_queue, encapsulated_interface_transport, custom,
}
pub mod RoundTrip
pub mod Equality

-- Every named code, in wire order.
abbrev pub named : List (ℕ × FunctionCode)
named =
    (1, read_coils)
    ∷ (2, read_discrete_inputs)
    ∷ (3, read_holding_registers)
    ∷ (4, read_input_registers)
    ∷ (5, write_single_coil)
    ∷ (6, write_single_register)
    ∷ (7, read_exception_status)
    ∷ (8, diagnostics)
    ∷ (11, get_comm_event_counter)
    ∷ (12, get_comm_event_log)
    ∷ (15, write_multiple_coils)
    ∷ (16, write_multiple_registers)
    ∷ (17, report_server_id)
    ∷ (20, read_file_record)
    ∷ (21, write_file_record)
    ∷ (22, mask_write_register)
    ∷ (23, read_write_multiple_registers)
    ∷ (24, read_fifo_queue)
    ∷ (43, encapsulated_interface_transport)
    ∷ []

find : ℕ → List (ℕ × FunctionCode) → Option FunctionCode
find byte [] = none
find byte ((candidate, code) ∷ rest) = if candidate == byte then some code else find byte rest

map_or_custom : ℕ → Option FunctionCode → FunctionCode
map_or_custom byte none = custom byte
map_or_custom byte (some code) = code

is_named : ℕ → List (ℕ × FunctionCode) → Bool
is_named byte [] = false
is_named byte ((candidate, code) ∷ rest) = candidate == byte || is_named byte rest

unfoldable pub decode : ℕ → Result FunctionCode
unfolding find map_or_custom
decode byte =
    if byte == 0 || leb 0x80 byte
    then err (invalid_function_code byte)
    else ok (map_or_custom byte (find byte named))

encode_custom_code : ℕ → Result ℕ
unfolding is_named
encode_custom_code byte =
    if byte == 0 || leb 0x80 byte
    then err (invalid_function_code byte)
    else if is_named byte named
    then err (reserved_code byte)
    else ok byte

unfoldable pub encode : FunctionCode → Result ℕ
unfolding encode_custom_code
encode read_coils = ok 1
encode read_discrete_inputs = ok 2
encode read_holding_registers = ok 3
encode read_input_registers = ok 4
encode write_single_coil = ok 5
encode write_single_register = ok 6
encode read_exception_status = ok 7
encode diagnostics = ok 8
encode get_comm_event_counter = ok 11
encode get_comm_event_log = ok 12
encode write_multiple_coils = ok 15
encode write_multiple_registers = ok 16
encode report_server_id = ok 17
encode read_file_record = ok 20
encode write_file_record = ok 21
encode mask_write_register = ok 22
encode read_write_multiple_registers = ok 23
encode read_fifo_queue = ok 24
encode encapsulated_interface_transport = ok 43
encode (custom byte) = encode_custom_code byte
