-- ===== src/Client/Sync.antt =====
-- The blocking client (src/client/sync.rs). Whether the thread drives a runtime, and whether a
-- runtime can be built, is an argument; blocking on a call is the call.
use rust_modbus.Prelude.{ℕ, Bool, Option, List, [], if◌then◌else◌, ok, err, stuck}
use rust_modbus.Error.{Result, blocking_in_async_context, ◌>>=◌, ◌>>◌}
use rust_modbus.Frame.Diagnostics.{DiagnosticSubFunction}
use rust_modbus.Frame.File.{FileRecordRead, FileRecordReadResponse, FileRecordWrite}
use rust_modbus.Frame.Framing.{AduBoundary}
use rust_modbus.Frame.Mei.{MeiRequest, MeiResponse}
use rust_modbus.Frame.Pdu.Request.{RequestPdu}
use rust_modbus.Frame.Pdu.Response.{ResponsePdu}
use rust_modbus.Client.Framing.{ClientFraming}
use rust_modbus.Client.Methods.{CommEventCounter, CommEventLog}
use rust_modbus.Client.Methods
use rust_modbus.Client.Call
use rust_modbus.Client.Call.{
  Client, ClientState, Turn, Called, is_desynchronized, new_client, refused,
}
pub mod Calls

-- The runtime that a blocking client owns holds no state that a call reads.
pub record SyncClient : Type 0 where
  pub client : Client

unfoldable pub refuse_inside_a_runtime : Bool → Result (Unit {0})
refuse_inside_a_runtime inside = if inside then err blocking_in_async_context else ok tt

-- `connect` and `open`: how building the runtime ends, and then the transport.
unfoldable pub establish :
    (inside : Bool) → (runtime transport : Result (Unit {0})) → Result SyncClient
unfolding refuse_inside_a_runtime
establish inside runtime transport = do
  refuse_inside_a_runtime inside
  runtime
  transport
  ok (record { client = new_client })

abbrev pub state : SyncClient → ClientState
state sync = sync.client.state

abbrev pub sync_is_desynchronized : SyncClient → Bool
sync_is_desynchronized sync = is_desynchronized sync.client

module _ {Header : Type 0} (framing : ClientFraming Header) (boundary : AduBoundary)
    (turn : Turn Header) (unit : ℕ) (inside : Bool) where
  -- What each method does, around the call of the asynchronous client.
  unfoldable pub blocking : {A : Type 0} → (Client → Called Header A) → SyncClient → Called Header A
  unfolding refuse_inside_a_runtime
  blocking run sync = elim (refuse_inside_a_runtime inside) [
    | ok done ↦ run sync.client
    | err error ↦ refused framing boundary error sync.client []
    | stuck ↦ run sync.client
  ]

  unfoldable pub call : RequestPdu → SyncClient → Called Header (Option ResponsePdu)
  unfolding blocking
  call request = blocking (Call.call framing boundary turn unit request)

  unfoldable pub read_coils : (address quantity : ℕ) → SyncClient → Called Header (List Bool)
  unfolding blocking
  read_coils address quantity =
      blocking (Methods.read_coils framing boundary turn unit address quantity)

  unfoldable pub read_discrete_inputs :
      (address quantity : ℕ) → SyncClient → Called Header (List Bool)
  unfolding blocking
  read_discrete_inputs address quantity =
      blocking (Methods.read_discrete_inputs framing boundary turn unit address quantity)

  unfoldable pub read_holding_registers :
      (address quantity : ℕ) → SyncClient → Called Header (List ℕ)
  unfolding blocking
  read_holding_registers address quantity =
      blocking (Methods.read_holding_registers framing boundary turn unit address quantity)

  unfoldable pub read_input_registers : (address quantity : ℕ) → SyncClient → Called Header (List ℕ)
  unfolding blocking
  read_input_registers address quantity =
      blocking (Methods.read_input_registers framing boundary turn unit address quantity)

  unfoldable pub read_write_multiple_registers :
      (read_address read_quantity write_address : ℕ) (registers : List ℕ)
      → SyncClient
      → Called Header (List ℕ)
  unfolding blocking
  read_write_multiple_registers read_address read_quantity write_address registers = blocking (
      Methods.read_write_multiple_registers framing boundary turn unit read_address read_quantity
        write_address registers)

  unfoldable pub read_exception_status : SyncClient → Called Header ℕ
  unfolding blocking
  read_exception_status = blocking (Methods.read_exception_status framing boundary turn unit)

  unfoldable pub diagnostics :
      (sub_function : DiagnosticSubFunction) (words : List ℕ) → SyncClient → Called Header (List ℕ)
  unfolding blocking
  diagnostics sub_function words =
      blocking (Methods.diagnostics framing boundary turn unit sub_function words)

  unfoldable pub get_comm_event_counter : SyncClient → Called Header CommEventCounter
  unfolding blocking
  get_comm_event_counter = blocking (Methods.get_comm_event_counter framing boundary turn unit)

  unfoldable pub get_comm_event_log : SyncClient → Called Header CommEventLog
  unfolding blocking
  get_comm_event_log = blocking (Methods.get_comm_event_log framing boundary turn unit)

  unfoldable pub report_server_id : SyncClient → Called Header (List ℕ)
  unfolding blocking
  report_server_id = blocking (Methods.report_server_id framing boundary turn unit)

  unfoldable pub read_file_record :
      (records : List FileRecordRead) → SyncClient → Called Header (List FileRecordReadResponse)
  unfolding blocking
  read_file_record records = blocking (Methods.read_file_record framing boundary turn unit records)

  unfoldable pub read_fifo_queue : (address : ℕ) → SyncClient → Called Header (List ℕ)
  unfolding blocking
  read_fifo_queue address = blocking (Methods.read_fifo_queue framing boundary turn unit address)

  unfoldable pub encapsulated_interface_transport :
      (mei : MeiRequest) → SyncClient → Called Header MeiResponse
  unfolding blocking
  encapsulated_interface_transport mei =
      blocking (Methods.encapsulated_interface_transport framing boundary turn unit mei)

  unfoldable pub write_single_coil :
      (address : ℕ) (value : Bool) → SyncClient → Called Header (Unit {0})
  unfolding blocking
  write_single_coil address value =
      blocking (Methods.write_single_coil framing boundary turn unit address value)

  unfoldable pub write_single_register : (address value : ℕ) → SyncClient → Called Header (Unit {0})
  unfolding blocking
  write_single_register address value =
      blocking (Methods.write_single_register framing boundary turn unit address value)

  unfoldable pub write_multiple_coils :
      (address : ℕ) (coils : List Bool) → SyncClient → Called Header (Unit {0})
  unfolding blocking
  write_multiple_coils address coils =
      blocking (Methods.write_multiple_coils framing boundary turn unit address coils)

  unfoldable pub write_multiple_registers :
      (address : ℕ) (registers : List ℕ) → SyncClient → Called Header (Unit {0})
  unfolding blocking
  write_multiple_registers address registers =
      blocking (Methods.write_multiple_registers framing boundary turn unit address registers)

  unfoldable pub mask_write_register :
      (address and_mask or_mask : ℕ) → SyncClient → Called Header (Unit {0})
  unfolding blocking
  mask_write_register address and_mask or_mask =
      blocking (Methods.mask_write_register framing boundary turn unit address and_mask or_mask)

  unfoldable pub write_file_record :
      (records : List FileRecordWrite) → SyncClient → Called Header (Unit {0})
  unfolding blocking
  write_file_record records =
      blocking (Methods.write_file_record framing boundary turn unit records)
