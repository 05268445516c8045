-- ===== src/Frame/Tcp/Header.antt =====
-- The MBAP header and the bounds on it (src/frame/tcp.rs).
use rust_modbus.Prelude.{ℕ, ◌&&◌, leb, if◌then◌else◌, length, ok, err}
use rust_modbus.Error.{Result, out_of_range}

pub record MbapHeader : Type 0 where
  pub transaction_id : ℕ
  pub unit_id : ℕ

abbrev pub max_adu_len : ℕ
max_adu_len = 260

abbrev pub header_len : ℕ
header_len = 7

abbrev pub length_overhead : ℕ
length_overhead = 1

abbrev pub length_prefix_len : ℕ
length_prefix_len = 6

unfoldable pub check_length : ℕ → Result (Unit {0})
check_length length =
    if leb 1 length && leb length 254 then ok tt else err (out_of_range "MBAP length" length 1 254)
