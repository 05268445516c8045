-- ===== src/Frame/Ascii/Hex.antt =====
-- Hexadecimal characters and the LRC (src/frame/ascii.rs).
use rust_modbus.Prelude.{
  ℕ, ◌+◌, ◌-◌, ◌*◌, ◌/◌, ◌%◌, bit_and, bit_or, ◌&&◌, List, [], ◌∷◌, leb, if◌then◌else◌, ok, err,
  and_then, map_ok,
}
pub mod RoundTrip
use rust_modbus.Error.{Result, invalid_character}
use rust_modbus.Buffer.{Writer, push, ◌>>=◌, ◌>>◌}

unfoldable add_byte : ℕ → List ℕ → ℕ
add_byte sum [] = sum
add_byte sum (byte ∷ bytes) = add_byte ((sum + byte) % 256) bytes

-- The two's complement of the 8-bit sum.
unfoldable pub lrc : List ℕ → ℕ
unfolding add_byte
lrc bytes = (256 - add_byte 0 bytes) % 256

unfoldable pub nibble : ℕ → Result ℕ
nibble character =
    if leb 48 character && leb character 57
    then ok (character - 48)
    else if leb 65 character && leb character 70
    then ok (character - 65 + 10)
    else if leb 97 character && leb character 102
    then ok (character - 97 + 10)
    else err (invalid_character character)

-- A last character without a partner is in no chunk of two.
unfoldable pub decode_hex : List ℕ → Result (List ℕ)
unfolding nibble
decode_hex (high ∷ low ∷ chars) =
    let rest = decode_hex chars in
    and_then (nibble high)
      (λ h. and_then (nibble low) (λ l. map_ok (λ bytes. bit_or (h * 16 % 256) l ∷ bytes) rest))
decode_hex chars = ok []

unfoldable pub hex_digit : ℕ → ℕ
hex_digit nibble = if leb nibble 9 then 48 + nibble else 65 + nibble - 10

unfoldable pub encode_hex : ℕ → Writer (Unit {0})
unfolding hex_digit
encode_hex byte = do push (hex_digit (byte / 16)); push (hex_digit (bit_and byte 15))
