-- ===== src/Frame/Pdu/Limits.antt =====
-- The bounds of a PDU and of its fields (src/frame/pdu.rs, the bound check of src/frame/file.rs).
use rust_modbus.Prelude.{ℕ, ◌+◌, String, ◌||◌, List, ltb, if◌then◌else◌, length, ok, err}
use rust_modbus.Error.{Result, out_of_range, pdu_too_large}

abbrev pub max_pdu_len : ℕ
max_pdu_len = 253

abbrev pub coil_on : ℕ
coil_on = 0xff00

abbrev pub coil_off : ℕ
coil_off = 0

abbrev pub max_read_bits : ℕ
max_read_bits = 2000

abbrev pub max_read_registers : ℕ
max_read_registers = 125

abbrev pub max_write_bits : ℕ
max_write_bits = 1968

abbrev pub max_write_registers : ℕ
max_write_registers = 123

abbrev pub max_rw_write_registers : ℕ
max_rw_write_registers = 121

abbrev pub max_fifo_count : ℕ
max_fifo_count = 31

abbrev pub event_log_fixed_bytes : ℕ
event_log_fixed_bytes = 6

abbrev pub max_event_bytes : ℕ
max_event_bytes = 64

unfoldable pub check_range : String → ℕ → ℕ → ℕ → Result (Unit {0})
check_range field value lo hi =
    if ltb value lo || ltb hi value then err (out_of_range field value lo hi) else ok tt

-- `check_bounds` of file.rs, over `u32`
unfoldable pub check_bounds : String → ℕ → ℕ → ℕ → Result (Unit {0})
check_bounds field value lo hi =
    if ltb value lo || ltb hi value then err (out_of_range field value lo hi) else ok tt

unfoldable pub check_size : List ℕ → Result (Unit {0})
check_size pdu =
    if ltb max_pdu_len (length pdu) then err (pdu_too_large (length pdu) max_pdu_len) else ok tt

unfoldable pub check_event_log_bytes : ℕ → Result (Unit {0})
check_event_log_bytes byte_count =
    let max = event_log_fixed_bytes + max_event_bytes in
    if ltb byte_count event_log_fixed_bytes || ltb max byte_count
    then err (out_of_range "byte count" byte_count event_log_fixed_bytes max)
    else ok tt
