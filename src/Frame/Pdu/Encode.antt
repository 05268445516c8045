-- ===== src/Frame/Pdu/Encode.antt =====
-- The encoding steps that the function codes share (src/frame/pdu.rs).
use rust_modbus.Prelude.{
  ℕ, ◌+◌, ◌-◌, ◌≤◌, ◌<◌, String, ◌≡◌, List, arith, ltb, if◌then◌else◌, length, ok, err, and_then,
}
pub mod Sized
pub mod Bounded
use rust_modbus.Error.{Result, pdu_too_large}
use rust_modbus.Buffer.{Writer, len, lift, extend, push, ◌>>=◌, ◌>>◌}
use rust_modbus.Frame.Bytes.{be_bytes}
use rust_modbus.Frame.Code.{custom}
use rust_modbus.Frame.Function
use rust_modbus.Frame.Diagnostics
use rust_modbus.Frame.Diagnostics.{DiagnosticSubFunction}
use rust_modbus.Frame.Pdu.Limits.{max_pdu_len, check_range}
use rust_modbus.Frame.Pdu.Words.{push_words}

-- `finish(out, at)`
unfoldable pub finish : ℕ → Writer (Unit {0})
finish start out =
    let len = length out - start in
    if ltb max_pdu_len len then (err (pdu_too_large len max_pdu_len), out) else (ok tt, out)

-- `let at = out.len(); … finish(out, at)` around the bytes that one PDU writes.
unfoldable pub sized : Writer (Unit {0}) → Writer (Unit {0})
unfolding finish ◌>>=◌
sized write = do start ← len; write; finish start

-- `u16::try_from(len).unwrap_or(u16::MAX)`, checked against the range of the field.
unfoldable pub quantity_of : String → ℕ → ℕ → ℕ → Result ℕ
unfolding check_range
quantity_of field count lo hi =
    let quantity = if ltb count 65536 then count else 65535 in
    and_then (check_range field quantity lo hi) (λ _. ok quantity)

-- `u8::try_from(data_len)`, with the error that the encoders give it.
unfoldable pub byte_count : ℕ → ℕ → Result ℕ
byte_count data_len overhead =
    if ltb data_len 256 then ok data_len else err (pdu_too_large (data_len + overhead) max_pdu_len)

unfoldable pub encode_read : ℕ → ℕ → ℕ → ℕ → ℕ → Writer (Unit {0})
unfolding sized check_range
encode_read code address quantity lo hi = do
  lift (check_range "quantity" quantity lo hi)
  sized (do push code; extend (be_bytes address); extend (be_bytes quantity))

unfoldable pub encode_single : ℕ → ℕ → ℕ → Writer (Unit {0})
unfolding sized
encode_single code address value =
    sized (do push code; extend (be_bytes address); extend (be_bytes value))

unfoldable pub encode_quantified : ℕ → ℕ → ℕ → ℕ → Writer (Unit {0}) → Writer (Unit {0})
unfolding sized byte_count
encode_quantified code address quantity data_len write_data = do
  count ← lift (byte_count data_len 6)
  sized
      (do push code; extend (be_bytes address); extend (be_bytes quantity); push count; write_data)

unfoldable pub encode_echo_quantity : ℕ → ℕ → ℕ → Writer (Unit {0})
unfolding sized
encode_echo_quantity code address quantity =
    sized (do push code; extend (be_bytes address); extend (be_bytes quantity))

unfoldable pub encode_diagnostics : ℕ → DiagnosticSubFunction → List ℕ → Writer (Unit {0})
unfolding sized
encode_diagnostics code sub_function words = sized (do
  push code
  raw ← lift (Diagnostics.encode sub_function)
  extend (be_bytes raw)
  push_words words)

unfoldable pub encode_custom : ℕ → List ℕ → Writer (Unit {0})
unfolding sized
encode_custom code body =
    sized (do byte ← lift (Function.encode (custom code)); push byte; extend body)

unfoldable pub encode_body : ℕ → Writer (Unit {0}) → Writer (Unit {0})
unfolding sized
encode_body code write = sized (do push code; write)

unfoldable pub encode_bare : ℕ → Writer (Unit {0})
unfolding sized
encode_bare code = sized (push code)

unfoldable pub encode_counted : ℕ → ℕ → Writer (Unit {0}) → Writer (Unit {0})
unfolding sized byte_count
encode_counted code data_len write_data = do
  count ← lift (byte_count data_len 2)
  sized (do push code; push count; write_data)

pub quantity_of-in_range :
    (field : String) (n lo hi : ℕ) → lo ≤ n → n ≤ hi → hi < 65536 → quantity_of field n lo hi ≡ ok n
unfolding quantity_of
quantity_of-in_range field n lo hi l u b = ground arith
