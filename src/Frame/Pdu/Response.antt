-- ===== src/Frame/Pdu/Response.antt =====
-- A response PDU: decoding and encoding (src/frame/pdu.rs).
use rust_modbus.Prelude.{
  ℕ, ◌-◌, bit_and, bit_or, Bool, false, not, List, [], ◌∷◌, ◌==◌, if◌then◌else◌, and_then, map_ok,
}
pub mod Write
pub mod Appends
pub mod Typed
pub mod Canonical
pub mod DecodeBodies
pub mod DecodeLogs
pub mod DecodeRegions
pub mod Decodes
pub mod EncodeBodies
pub mod EncodeLogs
pub mod Encodes
use rust_modbus.Error.{Result}
use rust_modbus.Parse.{lift, run}
use rust_modbus.Parse.Stream.{Winnow, Parser, ◌>>=◌, ◌>>◌, pure}
use rust_modbus.Frame.Code.{FunctionCode}
use rust_modbus.Frame.Function
use rust_modbus.Frame.Exception
use rust_modbus.Frame.Exception.{ExceptionResponse}
use rust_modbus.Frame.Diagnostics.{DiagnosticSubFunction}
use rust_modbus.Frame.File
use rust_modbus.Frame.File.{FileRecordReadResponse, FileRecordWrite}
use rust_modbus.Frame.Mei
use rust_modbus.Frame.Mei.{MeiResponse}
use rust_modbus.Frame.Pdu.Bits.{bits_from_bytes}
use rust_modbus.Frame.Pdu.Limits.{check_size, check_event_log_bytes, event_log_fixed_bytes}
use rust_modbus.Frame.Pdu.Decode.{
  counted_bytes, registers, single_coil, diagnostic_body, fifo_values,
}

pub data ResponsePdu : Type 0 where
  read_coils : (coils : List Bool) → ResponsePdu
  read_discrete_inputs : (inputs : List Bool) → ResponsePdu
  read_holding_registers read_input_registers : (values : List ℕ) → ResponsePdu
  write_single_coil : (address : ℕ) (value : Bool) → ResponsePdu
  write_single_register : (address value : ℕ) → ResponsePdu
  write_multiple_coils write_multiple_registers : (address quantity : ℕ) → ResponsePdu
  mask_write_register : (address and_mask or_mask : ℕ) → ResponsePdu
  read_write_multiple_registers : (values : List ℕ) → ResponsePdu
  read_exception_status : (status : ℕ) → ResponsePdu
  diagnostics : (sub_function : DiagnosticSubFunction) (words : List ℕ) → ResponsePdu
  get_comm_event_counter : (status event_count : ℕ) → ResponsePdu
  get_comm_event_log : (status event_count message_count : ℕ) (events : List ℕ) → ResponsePdu
  report_server_id : (body : List ℕ) → ResponsePdu
  read_file_record : (records : List FileRecordReadResponse) → ResponsePdu
  write_file_record : (records : List FileRecordWrite) → ResponsePdu
  read_fifo_queue : (values : List ℕ) → ResponsePdu
  encapsulated_interface_transport : MeiResponse → ResponsePdu
  custom : (code : ℕ) (body : List ℕ) → ResponsePdu
  exception : ExceptionResponse → ResponsePdu

-- `ResponsePdu::function`: for an exception, the function that it answers.
unfoldable pub function : ResponsePdu → FunctionCode
function (read_coils coils) = FunctionCode.read_coils
function (read_discrete_inputs inputs) = FunctionCode.read_discrete_inputs
function (read_holding_registers values) = FunctionCode.read_holding_registers
function (read_input_registers values) = FunctionCode.read_input_registers
function (write_single_coil address value) = FunctionCode.write_single_coil
function (write_single_register address value) = FunctionCode.write_single_register
function (write_multiple_coils address quantity) = FunctionCode.write_multiple_coils
function (write_multiple_registers address quantity) = FunctionCode.write_multiple_registers
function (mask_write_register address and_mask or_mask) = FunctionCode.mask_write_register
function (read_write_multiple_registers values) = FunctionCode.read_write_multiple_registers
function (read_exception_status status) = FunctionCode.read_exception_status
function (diagnostics sub_function words) = FunctionCode.diagnostics
function (get_comm_event_counter status event_count) = FunctionCode.get_comm_event_counter
function (get_comm_event_log status event_count message_count events) =
    FunctionCode.get_comm_event_log
function (report_server_id body) = FunctionCode.report_server_id
function (read_file_record records) = FunctionCode.read_file_record
function (write_file_record records) = FunctionCode.write_file_record
function (read_fifo_queue values) = FunctionCode.read_fifo_queue
function (encapsulated_interface_transport response) = FunctionCode.encapsulated_interface_transport
function (custom code body) = FunctionCode.custom code
function (exception response) = response.function

-- `pdu.first().is_some_and(|byte| byte & 0x80 != 0)`
abbrev pub is_exception : List ℕ → Bool
is_exception [] = false
is_exception (byte ∷ bytes) = not (bit_and byte 0x80 == 0)

module _ (w : Winnow) where
  unfoldable pub event_log : Parser ResponsePdu
  unfolding lift check_event_log_bytes
  event_log = do
    byte_count ← w.be_u8
    lift (check_event_log_bytes byte_count)
    status ← w.be_u16
    event_count ← w.be_u16
    message_count ← w.be_u16
    events ← w.take (byte_count - event_log_fixed_bytes)
    pure (get_comm_event_log status event_count message_count events)

  -- The arms of the match of `ResponsePdu::decode`.
  unfoldable pub decode_body : FunctionCode → Parser ResponsePdu
  unfolding lift event_log
  decode_body FunctionCode.read_coils = do
    bytes ← counted_bytes w
    pure (read_coils (bits_from_bytes bytes))
  decode_body FunctionCode.read_discrete_inputs = do
    bytes ← counted_bytes w
    pure (read_discrete_inputs (bits_from_bytes bytes))
  decode_body FunctionCode.read_holding_registers = do
    values ← registers w
    pure (read_holding_registers values)
  decode_body FunctionCode.read_input_registers = do
    values ← registers w
    pure (read_input_registers values)
  decode_body FunctionCode.write_single_coil = do
    (address, value) ← single_coil w
    pure (write_single_coil address value)
  decode_body FunctionCode.write_single_register = do
    address ← w.be_u16
    value ← w.be_u16
    pure (write_single_register address value)
  decode_body FunctionCode.write_multiple_coils = do
    address ← w.be_u16
    quantity ← w.be_u16
    pure (write_multiple_coils address quantity)
  decode_body FunctionCode.write_multiple_registers = do
    address ← w.be_u16
    quantity ← w.be_u16
    pure (write_multiple_registers address quantity)
  decode_body FunctionCode.mask_write_register = do
    address ← w.be_u16
    and_mask ← w.be_u16
    or_mask ← w.be_u16
    pure (mask_write_register address and_mask or_mask)
  decode_body FunctionCode.read_write_multiple_registers = do
    values ← registers w
    pure (read_write_multiple_registers values)
  decode_body FunctionCode.read_exception_status = do
    status ← w.be_u8
    pure (read_exception_status status)
  decode_body FunctionCode.diagnostics = do
    (sub_function, words) ← diagnostic_body w
    pure (diagnostics sub_function words)
  decode_body FunctionCode.get_comm_event_counter = do
    status ← w.be_u16
    event_count ← w.be_u16
    pure (get_comm_event_counter status event_count)
  decode_body FunctionCode.get_comm_event_log = event_log
  decode_body FunctionCode.report_server_id = do
    body ← counted_bytes w
    pure (report_server_id body)
  decode_body FunctionCode.read_file_record = do
    records ← File.decode_read_responses w
    pure (read_file_record records)
  decode_body FunctionCode.write_file_record = do
    records ← File.decode_write_records w
    pure (write_file_record records)
  decode_body FunctionCode.read_fifo_queue = do
    values ← fifo_values w
    pure (read_fifo_queue values)
  decode_body FunctionCode.encapsulated_interface_transport = do
    response ← Mei.decode_response w
    pure (encapsulated_interface_transport response)
  decode_body (FunctionCode.custom code) = do body ← w.rest; pure (custom code body)

  unfoldable pub decode_pdu : Parser ResponsePdu
  unfolding lift decode_body
  decode_pdu = do byte ← w.be_u8; code ← lift (Function.decode byte); decode_body code

  -- `ResponsePdu::decode`
  unfoldable pub decode : List ℕ → Result ResponsePdu
  unfolding decode_pdu run check_size
  decode pdu = and_then (check_size pdu) (λ _.
      if is_exception pdu
      then map_ok (λ response. exception response) (Exception.decode pdu)
      else run w pdu decode_pdu)

-- The negation of 16 bits is the difference to all ones.
unfoldable pub mask_write_result : (current and_mask or_mask : ℕ) → ℕ
mask_write_result current and_mask or_mask =
    bit_or (bit_and current and_mask) (bit_and or_mask (65535 - and_mask))
