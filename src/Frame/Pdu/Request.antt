-- ===== src/Frame/Pdu/Request.antt =====
-- A request PDU: decoding and encoding (src/frame/pdu.rs).
use rust_modbus.Prelude.{ℕ, Bool, List, and_then}
pub mod Write
pub mod Appends
pub mod DecodeBodies
pub mod EncodeBodies
pub mod Typed
pub mod Canonical
pub mod Decodes
pub mod Encodes
use rust_modbus.Error.{Result}
use rust_modbus.Parse.{lift, run}
use rust_modbus.Parse.Stream.{Winnow, Parser, ◌>>=◌, ◌>>◌, pure}
use rust_modbus.Frame.Code.{FunctionCode}
use rust_modbus.Frame.Function
use rust_modbus.Frame.Diagnostics.{DiagnosticSubFunction}
use rust_modbus.Frame.File
use rust_modbus.Frame.File.{FileRecordRead, FileRecordWrite}
use rust_modbus.Frame.Mei
use rust_modbus.Frame.Mei.{MeiRequest}
use rust_modbus.Frame.Pdu.Bits.{packed_bits, bit_width, register_width}
use rust_modbus.Frame.Pdu.Words.{registers_from_bytes}
use rust_modbus.Frame.Pdu.Limits.{
  check_range, check_size, max_read_bits, max_read_registers, max_write_bits, max_write_registers,
  max_rw_write_registers,
}
use rust_modbus.Frame.Pdu.Decode.{read_request, single_coil, quantified_bytes, diagnostic_body}

-- Addresses, quantities, register values and masks are their 16-bit numbers.
pub data RequestPdu : Type 0 where
  read_coils read_discrete_inputs : (address quantity : ℕ) → RequestPdu
  read_holding_registers read_input_registers : (address quantity : ℕ) → RequestPdu
  write_single_coil : (address : ℕ) (value : Bool) → RequestPdu
  write_single_register : (address value : ℕ) → RequestPdu
  write_multiple_coils : (address : ℕ) (coils : List Bool) → RequestPdu
  write_multiple_registers : (address : ℕ) (registers : List ℕ) → RequestPdu
  mask_write_register : (address and_mask or_mask : ℕ) → RequestPdu
  read_write_multiple_registers :
      (read_address read_quantity write_address : ℕ) (registers : List ℕ) → RequestPdu
  read_exception_status : RequestPdu
  diagnostics : (sub_function : DiagnosticSubFunction) (words : List ℕ) → RequestPdu
  get_comm_event_counter get_comm_event_log report_server_id : RequestPdu
  read_file_record : (records : List FileRecordRead) → RequestPdu
  write_file_record : (records : List FileRecordWrite) → RequestPdu
  read_fifo_queue : (address : ℕ) → RequestPdu
  encapsulated_interface_transport : MeiRequest → RequestPdu
  custom : (code : ℕ) (body : List ℕ) → RequestPdu

-- `RequestPdu::function`
unfoldable pub function : RequestPdu → FunctionCode
function (read_coils address quantity) = FunctionCode.read_coils
function (read_discrete_inputs address quantity) = FunctionCode.read_discrete_inputs
function (read_holding_registers address quantity) = FunctionCode.read_holding_registers
function (read_input_registers address quantity) = FunctionCode.read_input_registers
function (write_single_coil address value) = FunctionCode.write_single_coil
function (write_single_register address value) = FunctionCode.write_single_register
function (write_multiple_coils address coils) = FunctionCode.write_multiple_coils
function (write_multiple_registers address registers) = FunctionCode.write_multiple_registers
function (mask_write_register address and_mask or_mask) = FunctionCode.mask_write_register
function (read_write_multiple_registers read_address read_quantity write_address registers) =
    FunctionCode.read_write_multiple_registers
function read_exception_status = FunctionCode.read_exception_status
function (diagnostics sub_function words) = FunctionCode.diagnostics
function get_comm_event_counter = FunctionCode.get_comm_event_counter
function get_comm_event_log = FunctionCode.get_comm_event_log
function report_server_id = FunctionCode.report_server_id
function (read_file_record records) = FunctionCode.read_file_record
function (write_file_record records) = FunctionCode.write_file_record
function (read_fifo_queue address) = FunctionCode.read_fifo_queue
function (encapsulated_interface_transport request) = FunctionCode.encapsulated_interface_transport
function (custom code body) = FunctionCode.custom code

module _ (w : Winnow) where
  -- The arms of the match of `RequestPdu::decode`.
  unfoldable pub decode_body : FunctionCode → Parser RequestPdu
  unfolding lift check_range
  decode_body FunctionCode.read_coils = do
    (address, quantity) ← read_request w 1 max_read_bits
    pure (read_coils address quantity)
  decode_body FunctionCode.read_discrete_inputs = do
    (address, quantity) ← read_request w 1 max_read_bits
    pure (read_discrete_inputs address quantity)
  decode_body FunctionCode.read_holding_registers = do
    (address, quantity) ← read_request w 1 max_read_registers
    pure (read_holding_registers address quantity)
  decode_body FunctionCode.read_input_registers = do
    (address, quantity) ← read_request w 1 max_read_registers
    pure (read_input_registers address quantity)
  decode_body FunctionCode.write_single_coil = do
    (address, value) ← single_coil w
    pure (write_single_coil address value)
  decode_body FunctionCode.write_single_register = do
    address ← w.be_u16
    value ← w.be_u16
    pure (write_single_register address value)
  decode_body FunctionCode.write_multiple_coils = do
    address ← w.be_u16
    (quantity, bytes) ← quantified_bytes w "quantity" 1 max_write_bits bit_width
    coils ← lift (packed_bits bytes quantity)
    pure (write_multiple_coils address coils)
  decode_body FunctionCode.write_multiple_registers = do
    address ← w.be_u16
    (quantity, bytes) ← quantified_bytes w "quantity" 1 max_write_registers register_width
    pure (write_multiple_registers address (registers_from_bytes bytes))
  decode_body FunctionCode.mask_write_register = do
    address ← w.be_u16
    and_mask ← w.be_u16
    or_mask ← w.be_u16
    pure (mask_write_register address and_mask or_mask)
  decode_body FunctionCode.read_write_multiple_registers = do
    read_address ← w.be_u16
    read_quantity ← w.be_u16
    lift (check_range "read quantity" read_quantity 1 max_read_registers)
    write_address ← w.be_u16
    (quantity, bytes) ← quantified_bytes w "write quantity" 1 max_rw_write_registers register_width
    pure (
        read_write_multiple_registers read_address read_quantity write_address
          (registers_from_bytes bytes))
  decode_body FunctionCode.read_exception_status = pure read_exception_status
  decode_body FunctionCode.diagnostics = do
    (sub_function, words) ← diagnostic_body w
    pure (diagnostics sub_function words)
  decode_body FunctionCode.get_comm_event_counter = pure get_comm_event_counter
  decode_body FunctionCode.get_comm_event_log = pure get_comm_event_log
  decode_body FunctionCode.report_server_id = pure report_server_id
  decode_body FunctionCode.read_file_record = do
    records ← File.decode_read_requests w
    pure (read_file_record records)
  decode_body FunctionCode.write_file_record = do
    records ← File.decode_write_records w
    pure (write_file_record records)
  decode_body FunctionCode.read_fifo_queue = do address ← w.be_u16; pure (read_fifo_queue address)
  decode_body FunctionCode.encapsulated_interface_transport = do
    request ← Mei.decode_request w
    pure (encapsulated_interface_transport request)
  decode_body (FunctionCode.custom code) = do body ← w.rest; pure (custom code body)

  unfoldable pub decode_pdu : Parser RequestPdu
  unfolding decode_body
  decode_pdu = do byte ← w.be_u8; code ← lift (Function.decode byte); decode_body code

  -- `RequestPdu::decode`
  unfoldable pub decode : List ℕ → Result RequestPdu
  unfolding decode_pdu run check_size
  decode pdu = and_then (check_size pdu) (λ _. run w pdu decode_pdu)
