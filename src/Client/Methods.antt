-- ===== src/Client/Methods.antt =====
-- The methods of `Client` that send one request each (src/client/mod.rs).
use rust_modbus.Prelude.{ℕ, Bool, List, take, ok, err}
pub mod Reads
use rust_modbus.Error.{Result, unexpected_function, ◌>>=◌}
use rust_modbus.Frame.Code.{FunctionCode}
use rust_modbus.Frame.Diagnostics.{DiagnosticSubFunction}
use rust_modbus.Frame.File.{FileRecordRead, FileRecordReadResponse, FileRecordWrite}
use rust_modbus.Frame.Framing.{AduBoundary}
use rust_modbus.Frame.Mei.{MeiRequest, MeiResponse}
use rust_modbus.Frame.Pdu.Request.{RequestPdu}
use rust_modbus.Frame.Pdu.Response.{ResponsePdu}
use rust_modbus.Frame.Pdu.Response as Response
use rust_modbus.Client.Framing.{ClientFraming}
use rust_modbus.Client.Call.{Client, Turn, Called, exchange, write}

pub record CommEventCounter : Type 0 where
  pub status : ℕ
  pub event_count : ℕ

pub record CommEventLog : Type 0 where
  pub status : ℕ
  pub event_count : ℕ
  pub message_count : ℕ
  pub events : List ℕ

abbrev pub truncate : ℕ → List Bool → List Bool
truncate quantity bits = take quantity bits

unfoldable pub mismatch : {A : Type 0} → FunctionCode → ResponsePdu → Result A
mismatch expected actual = err (unexpected_function expected (Response.function actual))

-- What each method takes from the response, `quantity` for the reads of bits, which cut the
-- padding.
unfoldable pub read_coils_of : ℕ → ResponsePdu → Result (List Bool)
unfolding mismatch
read_coils_of quantity (ResponsePdu.read_coils coils) = ok (truncate quantity coils)
read_coils_of quantity response = mismatch FunctionCode.read_coils response

unfoldable pub read_discrete_inputs_of : ℕ → ResponsePdu → Result (List Bool)
unfolding mismatch
read_discrete_inputs_of quantity (ResponsePdu.read_discrete_inputs inputs) =
    ok (truncate quantity inputs)
read_discrete_inputs_of quantity response = mismatch FunctionCode.read_discrete_inputs response

unfoldable pub read_holding_registers_of : ResponsePdu → Result (List ℕ)
unfolding mismatch
read_holding_registers_of (ResponsePdu.read_holding_registers values) = ok values
read_holding_registers_of response = mismatch FunctionCode.read_holding_registers response

unfoldable pub read_input_registers_of : ResponsePdu → Result (List ℕ)
unfolding mismatch
read_input_registers_of (ResponsePdu.read_input_registers values) = ok values
read_input_registers_of response = mismatch FunctionCode.read_input_registers response

unfoldable pub read_write_multiple_registers_of : ResponsePdu → Result (List ℕ)
unfolding mismatch
read_write_multiple_registers_of (ResponsePdu.read_write_multiple_registers values) = ok values
read_write_multiple_registers_of response =
    mismatch FunctionCode.read_write_multiple_registers response

unfoldable pub read_exception_status_of : ResponsePdu → Result ℕ
unfolding mismatch
read_exception_status_of (ResponsePdu.read_exception_status status) = ok status
read_exception_status_of response = mismatch FunctionCode.read_exception_status response

unfoldable pub diagnostics_of : ResponsePdu → Result (List ℕ)
unfolding mismatch
diagnostics_of (ResponsePdu.diagnostics sub_function words) = ok words
diagnostics_of response = mismatch FunctionCode.diagnostics response

unfoldable pub get_comm_event_counter_of : ResponsePdu → Result CommEventCounter
unfolding mismatch
get_comm_event_counter_of (ResponsePdu.get_comm_event_counter status event_count) =
    ok (record { status = status; event_count = event_count })
get_comm_event_counter_of response = mismatch FunctionCode.get_comm_event_counter response

unfoldable pub get_comm_event_log_of : ResponsePdu → Result CommEventLog
unfolding mismatch
get_comm_event_log_of (ResponsePdu.get_comm_event_log status event_count message_count events) =
    ok (record {
      status = status;
      event_count = event_count;
      message_count = message_count;
      events = events;
    })
get_comm_event_log_of response = mismatch FunctionCode.get_comm_event_log response

unfoldable pub report_server_id_of : ResponsePdu → Result (List ℕ)
unfolding mismatch
report_server_id_of (ResponsePdu.report_server_id body) = ok body
report_server_id_of response = mismatch FunctionCode.report_server_id response

unfoldable pub read_file_record_of : ResponsePdu → Result (List FileRecordReadResponse)
unfolding mismatch
read_file_record_of (ResponsePdu.read_file_record answers) = ok answers
read_file_record_of response = mismatch FunctionCode.read_file_record response

unfoldable pub read_fifo_queue_of : ResponsePdu → Result (List ℕ)
unfolding mismatch
read_fifo_queue_of (ResponsePdu.read_fifo_queue values) = ok values
read_fifo_queue_of response = mismatch FunctionCode.read_fifo_queue response

unfoldable pub encapsulated_interface_transport_of : ResponsePdu → Result MeiResponse
unfolding mismatch
encapsulated_interface_transport_of (ResponsePdu.encapsulated_interface_transport answer) =
    ok answer
encapsulated_interface_transport_of response =
    mismatch FunctionCode.encapsulated_interface_transport response

module _ {Header : Type 0} (framing : ClientFraming Header) (boundary : AduBoundary)
    (turn : Turn Header) (unit : ℕ) where
  -- A request whose response a method reads with `of`.
  unfoldable pub ask :
      {A : Type 0} → RequestPdu → (ResponsePdu → Result A) → Client → Called Header A
  unfolding exchange
  ask request of client =
      let exchanged = exchange framing boundary turn unit request client in
      record { result = exchanged.result >>= of; client = exchanged.client; sent = exchanged.sent }

  unfoldable pub read_coils : (address quantity : ℕ) → Client → Called Header (List Bool)
  unfolding ask read_coils_of
  read_coils address quantity client =
      ask (RequestPdu.read_coils address quantity) (read_coils_of quantity) client

  unfoldable pub read_discrete_inputs : (address quantity : ℕ) → Client → Called Header (List Bool)
  unfolding ask read_discrete_inputs_of
  read_discrete_inputs address quantity client =
      ask (RequestPdu.read_discrete_inputs address quantity) (read_discrete_inputs_of quantity)
        client

  unfoldable pub read_holding_registers : (address quantity : ℕ) → Client → Called Header (List ℕ)
  unfolding ask read_holding_registers_of
  read_holding_registers address quantity client =
      ask (RequestPdu.read_holding_registers address quantity) read_holding_registers_of client

  unfoldable pub read_input_registers : (address quantity : ℕ) → Client → Called Header (List ℕ)
  unfolding ask read_input_registers_of
  read_input_registers address quantity client =
      ask (RequestPdu.read_input_registers address quantity) read_input_registers_of client

  unfoldable pub read_write_multiple_registers :
      (read_address read_quantity write_address : ℕ) (registers : List ℕ)
      → Client
      → Called Header (List ℕ)
  unfolding ask read_write_multiple_registers_of
  read_write_multiple_registers read_address read_quantity write_address registers client =
      ask
        (RequestPdu.read_write_multiple_registers read_address read_quantity write_address
          registers)
        read_write_multiple_registers_of client

  unfoldable pub read_exception_status : Client → Called Header ℕ
  unfolding ask read_exception_status_of
  read_exception_status client =
      ask RequestPdu.read_exception_status read_exception_status_of client

  unfoldable pub diagnostics :
      (sub_function : DiagnosticSubFunction) (words : List ℕ) → Client → Called Header (List ℕ)
  unfolding ask diagnostics_of
  diagnostics sub_function words client =
      ask (RequestPdu.diagnostics sub_function words) diagnostics_of client

  unfoldable pub get_comm_event_counter : Client → Called Header CommEventCounter
  unfolding ask get_comm_event_counter_of
  get_comm_event_counter client =
      ask RequestPdu.get_comm_event_counter get_comm_event_counter_of client

  unfoldable pub get_comm_event_log : Client → Called Header CommEventLog
  unfolding ask get_comm_event_log_of
  get_comm_event_log client = ask RequestPdu.get_comm_event_log get_comm_event_log_of client

  unfoldable pub report_server_id : Client → Called Header (List ℕ)
  unfolding ask report_server_id_of
  report_server_id client = ask RequestPdu.report_server_id report_server_id_of client

  unfoldable pub read_file_record :
      (records : List FileRecordRead) → Client → Called Header (List FileRecordReadResponse)
  unfolding ask read_file_record_of
  read_file_record records client =
      ask (RequestPdu.read_file_record records) read_file_record_of client

  unfoldable pub read_fifo_queue : (address : ℕ) → Client → Called Header (List ℕ)
  unfolding ask read_fifo_queue_of
  read_fifo_queue address client =
      ask (RequestPdu.read_fifo_queue address) read_fifo_queue_of client

  unfoldable pub encapsulated_interface_transport :
      (mei : MeiRequest) → Client → Called Header MeiResponse
  unfolding ask encapsulated_interface_transport_of
  encapsulated_interface_transport mei client =
      ask (RequestPdu.encapsulated_interface_transport mei) encapsulated_interface_transport_of
        client

  unfoldable pub write_single_coil :
      (address : ℕ) (value : Bool) → Client → Called Header (Unit {0})
  unfolding write
  write_single_coil address value client =
      write framing boundary turn unit (RequestPdu.write_single_coil address value) client

  unfoldable pub write_single_register : (address value : ℕ) → Client → Called Header (Unit {0})
  unfolding write
  write_single_register address value client =
      write framing boundary turn unit (RequestPdu.write_single_register address value) client

  unfoldable pub write_multiple_coils :
      (address : ℕ) (coils : List Bool) → Client → Called Header (Unit {0})
  unfolding write
  write_multiple_coils address coils client =
      write framing boundary turn unit (RequestPdu.write_multiple_coils address coils) client

  unfoldable pub write_multiple_registers :
      (address : ℕ) (registers : List ℕ) → Client → Called Header (Unit {0})
  unfolding write
  write_multiple_registers address registers client =
      write framing boundary turn unit (RequestPdu.write_multiple_registers address registers)
        client

  unfoldable pub mask_write_register :
      (address and_mask or_mask : ℕ) → Client → Called Header (Unit {0})
  unfolding write
  mask_write_register address and_mask or_mask client =
      write framing boundary turn unit (RequestPdu.mask_write_register address and_mask or_mask)
        client

  unfoldable pub write_file_record :
      (records : List FileRecordWrite) → Client → Called Header (Unit {0})
  unfolding write
  write_file_record records client =
      write framing boundary turn unit (RequestPdu.write_file_record records) client
