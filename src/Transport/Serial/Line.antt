-- ===== src/Transport/Serial/Line.antt =====
-- The settings of a serial line (src/transport/serial.rs).
use rust_modbus.Prelude.{ℕ}

pub data DataBits : Type 0 where
  five six seven eight : DataBits

pub data Parity : Type 0 where
  none odd even : Parity

pub data StopBits : Type 0 where
  one two : StopBits

pub data FlowControl : Type 0 where
  none software hardware : FlowControl

unfoldable pub data_bit_count : DataBits → ℕ
data_bit_count five = 5
data_bit_count six = 6
data_bit_count seven = 7
data_bit_count eight = 8

unfoldable pub parity_bit_count : Parity → ℕ
parity_bit_count Parity.none = 0
parity_bit_count odd = 1
parity_bit_count even = 1

unfoldable pub stop_bit_count : StopBits → ℕ
stop_bit_count one = 1
stop_bit_count two = 2
