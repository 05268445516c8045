-- ===== src/Frame/Exception.antt =====
-- Exception codes and exception responses (src/frame/exception.rs).
use rust_modbus.Prelude.{
  ℕ, bit_and, bit_or, Bool, false, ◌||◌, List, [], ◌∷◌, ◌==◌, if◌then◌else◌, length, ok, err,
  and_then, map_ok,
}
pub mod RoundTrip
use rust_modbus.Error.{Result, invalid_function_code, invalid_length, reserved_code}
use rust_modbus.Buffer.{Writer, push, ◌>>=◌, ◌>>◌, lift}
use rust_modbus.Frame.Code.{
  FunctionCode, ExceptionCode, illegal_function, illegal_data_address, illegal_data_value,
  server_device_failure, acknowledge, server_device_busy, memory_parity_error,
  gateway_path_unavailable, gateway_target_device_failed_to_respond, other,
}
use rust_modbus.Frame.Function

abbrev pub named : List (ℕ × ExceptionCode)
named =
    (1, illegal_function)
    ∷ (2, illegal_data_address)
    ∷ (3, illegal_data_value)
    ∷ (4, server_device_failure)
    ∷ (5, acknowledge)
    ∷ (6, server_device_busy)
    ∷ (8, memory_parity_error)
    ∷ (10, gateway_path_unavailable)
    ∷ (11, gateway_target_device_failed_to_respond)
    ∷ []

find_or_other : ℕ → List (ℕ × ExceptionCode) → ExceptionCode
find_or_other byte [] = other byte
find_or_other byte ((candidate, code) ∷ rest) =
    if candidate == byte then code else find_or_other byte rest

is_named : ℕ → List (ℕ × ExceptionCode) → Bool
is_named byte [] = false
is_named byte ((candidate, code) ∷ rest) = candidate == byte || is_named byte rest

unfoldable pub decode_code : ℕ → ExceptionCode
unfolding find_or_other
decode_code byte = find_or_other byte named

unfoldable pub encode_code : ExceptionCode → Result ℕ
unfolding is_named
encode_code illegal_function = ok 1
encode_code illegal_data_address = ok 2
encode_code illegal_data_value = ok 3
encode_code server_device_failure = ok 4
encode_code acknowledge = ok 5
encode_code server_device_busy = ok 6
encode_code memory_parity_error = ok 8
encode_code gateway_path_unavailable = ok 10
encode_code gateway_target_device_failed_to_respond = ok 11
encode_code (other byte) = if is_named byte named then err (reserved_code byte) else ok byte

pub record ExceptionResponse : Type 0 where
  pub function : FunctionCode
  pub exception : ExceptionCode

-- `raw & !EXCEPTION_FLAG` keeps the low seven bits.
unfoldable pub decode : List ℕ → Result ExceptionResponse
unfolding decode_code
decode (raw ∷ code ∷ []) =
    if bit_and raw 0x80 == 0
    then err (invalid_function_code raw)
    else and_then (Function.decode (bit_and raw 0x7f))
        (λ f. ok (record { function = f; exception = decode_code code }))
decode pdu = err (invalid_length 2 (length pdu))

-- Both fields are encoded before a byte is written.
unfoldable pub encode_into : ExceptionResponse → Writer (Unit {0})
unfolding encode_code ◌>>=◌
encode_into response = do
  f ← lift (Function.encode response.function)
  e ← lift (encode_code response.exception)
  push (bit_or f 0x80)
  push e

unfoldable pub encode : ExceptionResponse → Result (List ℕ)
unfolding encode_into
encode response = let (r, out) = encode_into response [] in map_ok (λ _. out) r
