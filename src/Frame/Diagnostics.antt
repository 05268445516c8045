-- ===== src/Frame/Diagnostics.antt =====
-- Diagnostics sub-functions (src/frame/diagnostics.rs).
use rust_modbus.Prelude.{ℕ, Bool, false, ◌||◌, List, [], ◌∷◌, ◌==◌, if◌then◌else◌, ok, err}
pub mod RoundTrip
use rust_modbus.Error.{Result, reserved_code}
use rust_modbus.Frame.Bytes.{u8_saturated}

pub data DiagnosticSubFunction : Type 0 where
  return_query_data restart_communications_option : DiagnosticSubFunction
  return_diagnostic_register change_ascii_input_delimiter : DiagnosticSubFunction
  force_listen_only_mode clear_counters_and_diagnostic_register : DiagnosticSubFunction
  return_bus_message_count return_bus_communication_error_count : DiagnosticSubFunction
  return_bus_exception_error_count return_server_message_count : DiagnosticSubFunction
  return_server_no_response_count return_server_nak_count : DiagnosticSubFunction
  return_server_busy_count return_bus_character_overrun_count : DiagnosticSubFunction
  clear_overrun_counter_and_flag : DiagnosticSubFunction
  other : ℕ → DiagnosticSubFunction

abbrev pub named : List (ℕ × DiagnosticSubFunction)
named =
    (0, return_query_data)
    ∷ (1, restart_communications_option)
    ∷ (2, return_diagnostic_register)
    ∷ (3, change_ascii_input_delimiter)
    ∷ (4, force_listen_only_mode)
    ∷ (10, clear_counters_and_diagnostic_register)
    ∷ (11, return_bus_message_count)
    ∷ (12, return_bus_communication_error_count)
    ∷ (13, return_bus_exception_error_count)
    ∷ (14, return_server_message_count)
    ∷ (15, return_server_no_response_count)
    ∷ (16, return_server_nak_count)
    ∷ (17, return_server_busy_count)
    ∷ (18, return_bus_character_overrun_count)
    ∷ (20, clear_overrun_counter_and_flag)
    ∷ []

find_or_other : ℕ → List (ℕ × DiagnosticSubFunction) → DiagnosticSubFunction
find_or_other raw [] = other raw
find_or_other raw ((code, sub_function) ∷ rest) =
    if code == raw then sub_function else find_or_other raw rest

is_named : ℕ → List (ℕ × DiagnosticSubFunction) → Bool
is_named raw [] = false
is_named raw ((code, sub_function) ∷ rest) = code == raw || is_named raw rest

unfoldable pub decode : ℕ → DiagnosticSubFunction
unfolding find_or_other
decode raw = find_or_other raw named

unfoldable pub encode : DiagnosticSubFunction → Result ℕ
unfolding is_named
encode return_query_data = ok 0
encode restart_communications_option = ok 1
encode return_diagnostic_register = ok 2
encode change_ascii_input_delimiter = ok 3
encode force_listen_only_mode = ok 4
encode clear_counters_and_diagnostic_register = ok 10
encode return_bus_message_count = ok 11
encode return_bus_communication_error_count = ok 12
encode return_bus_exception_error_count = ok 13
encode return_server_message_count = ok 14
encode return_server_no_response_count = ok 15
encode return_server_nak_count = ok 16
encode return_server_busy_count = ok 17
encode return_bus_character_overrun_count = ok 18
encode clear_overrun_counter_and_flag = ok 20
encode (other raw) = if is_named raw named then err (reserved_code (u8_saturated raw)) else ok raw
