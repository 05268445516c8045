-- ===== src/Frame/Exception/RoundTrip.antt =====
-- The mapping between a byte and an exception code is one to one, and an exception response is the
-- function code with the high bit set and the exception code.
use rust_modbus.Prelude.{
  ℕ, ◌+◌, ◌*◌, ◌/◌, ◌%◌, bit_and, bit_or, ◌≡◌, refl, Bool, true, false, ◌&&◌, arith, ◌==◌,
  holds_below, holds_below-at, ok,
}
use rust_modbus.Frame.Bytes.{IsByte}
use rust_modbus.Frame.Code.{ExceptionCode, other, illegal_function}
use rust_modbus.Frame.Exception.{decode_code, encode_code}

same_byte : ℕ → Bool
unfolding decode_code encode_code
same_byte b = elim (encode_code (decode_code b)) [ ok b' ↦ b' == b | _ ↦ false ]

code_table : holds_below 256 same_byte ≡ true
unfolding holds_below same_byte
code_table = refl

pub encode_code-decode_code : (b : ℕ) → IsByte b → encode_code (decode_code b) ≡ ok b
unfolding same_byte
encode_code-decode_code b hb = ground (arith, holds_below-at 256 same_byte b code_table hb)

pub decode_code-encode_code :
    (code : ExceptionCode) {b : ℕ} → encode_code code ≡ ok b → decode_code b ≡ code
unfolding decode_code encode_code
decode_code-encode_code (other byte) h = ground arith
decode_code-encode_code illegal_function h = ground arith
decode_code-encode_code _ h = ground arith

-- The bit masks on one byte as arithmetic.
flag_table :
    holds_below 256 (λ b.
      (bit_and b 0x80 == b / 128 * 128)
      && (bit_and b 0x7f == b % 128)
      && (bit_or (b % 128) 0x80 == b % 128 + 128))
    ≡ true
unfolding holds_below
flag_table = refl

pub flag_bits :
    (b : ℕ)
    → IsByte b
    → (bit_and b 0x80 ≡ b / 128 * 128)
      × (bit_and b 0x7f ≡ b % 128)
      × (bit_or (b % 128) 0x80 ≡ b % 128 + 128)
flag_bits b hb = ground (arith, holds_below-at 256 _ b flag_table hb)
