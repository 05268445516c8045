-- ===== src/Frame/Code.antt =====
-- The function codes and the exception codes (src/frame/function.rs, src/frame/exception.rs).
-- They stand apart from their operations since `Error` carries both.
use rust_modbus.Prelude.{ℕ}

pub data FunctionCode : Type 0 where
  read_coils read_discrete_inputs read_holding_registers read_input_registers : FunctionCode
  write_single_coil write_single_register read_exception_status diagnostics : FunctionCode
  get_comm_event_counter get_comm_event_log : FunctionCode
  write_multiple_coils write_multiple_registers report_server_id : FunctionCode
  read_file_record write_file_record mask_write_register : FunctionCode
  read_write_multiple_registers read_fifo_queue : FunctionCode
  encapsulated_interface_transport : FunctionCode
  custom : ℕ → FunctionCode

pub data ExceptionCode : Type 0 where
  illegal_function illegal_data_address illegal_data_value : ExceptionCode
  server_device_failure acknowledge server_device_busy : ExceptionCode
  memory_parity_error gateway_path_unavailable : ExceptionCode
  gateway_target_device_failed_to_respond : ExceptionCode
  other : ℕ → ExceptionCode
