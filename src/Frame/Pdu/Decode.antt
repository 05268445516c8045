-- ===== src/Frame/Pdu/Decode.antt =====
-- The decoding steps that the function codes share (src/frame/pdu.rs).
use rust_modbus.Prelude.{
  ℕ, ◌+◌, ◌*◌, ◌%◌, String, Bool, true, false, List, leb, ◌==◌, if◌then◌else◌, length, ok, err,
}
use rust_modbus.Error.{Result, byte_count_mismatch, illegal_value}
use rust_modbus.Parse.{lift, ensure}
use rust_modbus.Parse.Stream.{Winnow, Parser, ◌>>=◌, ◌>>◌, pure}
use rust_modbus.Frame.Bytes.{u16_saturated}
use rust_modbus.Frame.Diagnostics
use rust_modbus.Frame.Diagnostics.{DiagnosticSubFunction}
use rust_modbus.Frame.Pdu.Limits.{check_range, coil_on, coil_off, max_fifo_count}
use rust_modbus.Frame.Pdu.Words.{words_from_bytes, registers_from_bytes}

-- `input.len()`
abbrev pub available : Parser ℕ
available input = ok (length input, input)

-- The match on the raw value of a coil.
unfoldable pub coil_value : ℕ → Result Bool
coil_value raw =
    if raw == coil_on
    then ok true
    else if raw == coil_off
    then ok false
    else err (illegal_value "coil value" raw)

module _ (w : Winnow) where
  unfoldable pub quantified_bytes : String → ℕ → ℕ → (ℕ → ℕ) → Parser (ℕ × List ℕ)
  unfolding lift ensure check_range
  quantified_bytes field lo hi width = do
    quantity ← w.be_u16
    lift (check_range field quantity lo hi)
    count ← w.be_u8
    let expected = width quantity
    ensure (count == expected) (byte_count_mismatch expected count)
    left ← available
    ensure (leb expected left) (byte_count_mismatch expected left)
    bytes ← w.take expected
    pure (quantity, bytes)

  unfoldable pub counted_bytes : Parser (List ℕ)
  unfolding ensure
  counted_bytes = do
    expected ← w.be_u8
    left ← available
    ensure (left == expected) (byte_count_mismatch expected left)
    w.take expected

  unfoldable pub read_request : ℕ → ℕ → Parser (ℕ × ℕ)
  unfolding lift check_range
  read_request lo hi = do
    address ← w.be_u16
    quantity ← w.be_u16
    lift (check_range "quantity" quantity lo hi)
    pure (address, quantity)

  unfoldable pub single_coil : Parser (ℕ × Bool)
  unfolding lift coil_value
  single_coil = do
    address ← w.be_u16
    raw ← w.be_u16
    value ← lift (coil_value raw)
    pure (address, value)

  unfoldable pub registers : Parser (List ℕ)
  unfolding ensure counted_bytes
  registers = do
    bytes ← counted_bytes
    ensure (length bytes % 2 == 0) (illegal_value "byte count" (u16_saturated (length bytes)))
    pure (registers_from_bytes bytes)

  unfoldable pub diagnostic_body : Parser (DiagnosticSubFunction × List ℕ)
  unfolding ensure
  diagnostic_body = do
    raw ← w.be_u16
    bytes ← w.rest
    ensure (length bytes % 2 == 0)
        (illegal_value "diagnostic data length" (u16_saturated (length bytes)))
    pure (Diagnostics.decode raw, words_from_bytes bytes)

  -- `count * 2 + 2` is computed in 16 bits; the check before it bounds `count`.
  unfoldable pub fifo_values : Parser (List ℕ)
  unfolding lift ensure check_range
  fifo_values = do
    byte_count ← w.be_u16
    count ← w.be_u16
    lift (check_range "FIFO count" count 0 max_fifo_count)
    let expected = count * 2 + 2
    ensure (byte_count == expected) (byte_count_mismatch expected byte_count)
    bytes ← w.take (count * 2)
    pure (registers_from_bytes bytes)
