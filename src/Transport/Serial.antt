-- ===== src/Transport/Serial.antt =====
-- Serial port configuration and the timing it implies (src/transport/serial.rs, and
-- `TransportConfig` of src/transport/mod.rs). A `Duration` is its nanoseconds.
use rust_modbus.Prelude.{ℕ, ◌+◌, ◌*◌, ◌/◌, Option, none, ltb, ◌==◌, if◌then◌else◌, ok, err}
pub mod Line
pub mod Interval
pub mod Rs485
pub mod Open
use rust_modbus.Transport.Serial.Line
use rust_modbus.Transport.Serial.Line.{
  DataBits, eight, Parity, StopBits, one, FlowControl, data_bit_count, parity_bit_count,
  stop_bit_count,
}
use rust_modbus.Error.{Result, configuration, ◌>>=◌}

abbrev pub fixed_interval_above_baud : ℕ
fixed_interval_above_baud = 19200

abbrev pub fixed_interval : ℕ
fixed_interval = 1750000

pub data RtsPolarity : Type 0 where
  high low : RtsPolarity

pub record Rs485Config : Type 0 where
  pub rts_on_send : RtsPolarity
  pub delay_before_send : ℕ
  pub delay_after_send : ℕ

pub record SerialConfig : Type 0 where
  pub baud_rate : ℕ
  pub data_bits : DataBits
  pub parity : Parity
  pub stop_bits : StopBits
  pub flow_control : FlowControl
  pub rs485 : Option Rs485Config

-- `SerialConfig::default`
abbrev pub default : SerialConfig
default = record {
  baud_rate = 19200;
  data_bits = eight;
  parity = Line.even;
  stop_bits = one;
  flow_control = Line.none;
  rs485 = none;
}

unfoldable pub bits_per_character : SerialConfig → ℕ
unfolding data_bit_count parity_bit_count stop_bit_count
bits_per_character config =
    1
    + data_bit_count config.data_bits
    + parity_bit_count config.parity
    + stop_bit_count config.stop_bits

-- `saturating_mul` on 64 bits
abbrev pub saturating_mul : ℕ → ℕ → ℕ
saturating_mul a b = if ltb (a * b) 18446744073709551616 then a * b else 18446744073709551615

-- 3.5 character times, with the half carried by the denominator.
unfoldable pub inter_frame_interval : SerialConfig → Result ℕ
unfolding bits_per_character
inter_frame_interval config =
    if config.baud_rate == 0
    then err (configuration "baud_rate")
    else if ltb fixed_interval_above_baud config.baud_rate
    then ok fixed_interval
    else ok
        (saturating_mul (bits_per_character config) 7000000000 / saturating_mul config.baud_rate 2)

pub record TransportConfig : Type 0 where
  pub inter_frame_interval : ℕ
  pub ascii_inter_character_timeout : ℕ

-- `TransportConfig::default`
abbrev pub default_transport : TransportConfig
default_transport = record {
  inter_frame_interval = 2005208;
  ascii_inter_character_timeout = 1000000000;
}

-- `TransportConfig::from_serial`
unfoldable pub from_serial : SerialConfig → Result TransportConfig
unfolding inter_frame_interval
from_serial config = do
  interval ← inter_frame_interval config
  ok (record {
    inter_frame_interval = interval;
    ascii_inter_character_timeout = default_transport.ascii_inter_character_timeout;
  })
