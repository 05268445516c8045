-- ===== src/Frame/Function/RoundTrip.antt =====
-- Decoding and encoding a function code (src/frame/function.rs).
use rust_modbus.Prelude.{
  ℕ, ◌<◌, ◌≡◌, refl, Bool, true, false, not, ◌&&◌, ◌||◌, arith, leb, ◌==◌, holds_below,
  holds_below-at, ok, err, stuck,
}
use rust_modbus.Frame.Bytes.{IsByte}
use rust_modbus.Frame.Code.{FunctionCode, custom, read_coils}
use rust_modbus.Frame.Function.{decode, encode}

-- On one byte, `encode` undoes a `decode` that succeeds, and a byte is refused only if it is 0 or
-- has the high bit set.
decode_then_encode : ℕ → Bool
unfolding decode encode
decode_then_encode b = elim (decode b) [
  | ok code ↦ elim (encode code) [ ok b' ↦ b' == b && not (b == 0 || leb 128 b) | _ ↦ false ]
  | err e ↦ b == 0 || leb 128 b
  | stuck ↦ false
]

decode_table : holds_below 256 decode_then_encode ≡ true
unfolding holds_below decode_then_encode
decode_table = refl

-- A byte that `decode` accepts is what its function code encodes to, and lies between 1 and 127.
pub encode-decode :
    (b : ℕ) {code : FunctionCode}
    → IsByte b
    → decode b ≡ ok code
    → (encode code ≡ ok b) × (0 < b) × (b < 128)
unfolding decode_then_encode
encode-decode b {code} hb h =
    ground (arith, holds_below-at 256 decode_then_encode b decode_table hb)

-- The byte that a function code encodes to decodes to the same function code; a custom code that
-- `encode` refuses, because it is reserved or out of range, has no such byte.
pub decode-encode : (code : FunctionCode) {b : ℕ} → encode code ≡ ok b → decode b ≡ ok code
unfolding decode encode
decode-encode (custom byte) h = ground arith
decode-encode read_coils h = ground arith
decode-encode _ h = ground arith
