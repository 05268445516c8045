-- ===== src/Frame/Ascii/Hex/RoundTrip.antt =====
-- Reading hexadecimal characters back, and sums with the LRC (src/frame/ascii.rs).
use rust_modbus.Prelude.{
  ℕ, ◌+◌, ◌-◌, ◌*◌, ◌/◌, ◌%◌, bit_and, bit_or, ◌≡◌, refl, sym, ap, ◌∙◌, inl, inr, Bool, true, false,
  List, [], ◌∷◌, ◌++◌, append-nil, append_assoc, arith, ◌==◌, length, All, holds_below,
  holds_below-at, ok, err, stuck, and_then, map_ok, Outcome-cases,
}
use rust_modbus.Error.{Result}
use rust_modbus.Buffer.{Buffer, for_each, ◌>>=◌}
use rust_modbus.Frame.Bytes.{IsByte}
use rust_modbus.Frame.Ascii.Hex.{add_byte, lrc, hex_digit, encode_hex, decode_hex, nibble}

unfoldable pub hex_chars : List ℕ → List ℕ
unfolding hex_digit
hex_chars [] = []
hex_chars (byte ∷ bytes) = hex_digit (byte / 16) ∷ hex_digit (bit_and byte 15) ∷ hex_chars bytes

pub encode_hex-bytes :
    (bytes : List ℕ) (out : Buffer)
    → for_each encode_hex bytes out ≡ (ok tt, out ++ hex_chars bytes)
unfolding for_each encode_hex hex_chars ◌>>=◌
encode_hex-bytes [] out = ap (λ (o : Buffer). (ok tt, o)) (sym (append-nil out))
encode_hex-bytes (byte ∷ bytes) out = rw (encode_hex-bytes bytes) (simp append_assoc)

pub length-hex_chars : (bytes : List ℕ) → length (hex_chars bytes) ≡ 2 * length bytes
unfolding hex_chars
length-hex_chars [] = omega arith
length-hex_chars (byte ∷ bytes) = omega (arith, length-hex_chars bytes)

pub hex_chars-append : (xs ys : List ℕ) → hex_chars (xs ++ ys) ≡ hex_chars xs ++ hex_chars ys
unfolding hex_chars
hex_chars-append [] ys = refl
hex_chars-append (x ∷ xs) ys =
    ap (λ l. hex_digit (x / 16) ∷ hex_digit (bit_and x 15) ∷ l) (hex_chars-append xs ys)

same_byte : ℕ → Bool
unfolding decode_hex hex_chars
same_byte b = elim (decode_hex (hex_chars (b ∷ []))) [ ok (c ∷ []) ↦ c == b | _ ↦ false ]

byte_table : holds_below 256 same_byte ≡ true
unfolding holds_below same_byte
byte_table = refl

same_byte-eq : (b : ℕ) → IsByte b → decode_hex (hex_chars (b ∷ [])) ≡ ok (b ∷ [])
unfolding same_byte
same_byte-eq b h =
    let t = holds_below-at 256 same_byte b byte_table h in
    elim (Outcome-cases (decode_hex (hex_chars (b ∷ [])))) [
      | inl (c ∷ [], e) ↦ ground (arith, t)
      | inl ([], e) ↦ absurd (ground (arith, t))
      | inl (c ∷ d ∷ l, e) ↦ absurd (ground (arith, t))
      | inr (inl (x, e)) ↦ absurd (ground (arith, t))
      | inr (inr e) ↦ absurd (ground (arith, t))
    ]

pair_step :
    (a b : Result ℕ) (r : Result (List ℕ))
    → and_then a (λ (h : ℕ).
      and_then b (λ (l : ℕ). map_ok (λ (bytes : List ℕ). bit_or (h * 16 % 256) l ∷ bytes) r))
      ≡ and_then
          (and_then a (λ (h : ℕ). and_then b (λ (l : ℕ). ok (bit_or (h * 16 % 256) l ∷ []))))
          (λ (c : List ℕ). map_ok (λ (d : List ℕ). c ++ d) r)
pair_step (ok a) (ok b) r = refl
pair_step (ok a) (err e) r = refl
pair_step (ok a) stuck r = refl
pair_step (err e) b r = refl
pair_step stuck b r = refl

-- A first pair of characters decodes apart from those behind it.
pair_first :
    (high low : ℕ) (chars : List ℕ)
    → decode_hex (high ∷ low ∷ chars)
      ≡ and_then
          (decode_hex (high ∷ low ∷ []))
          (λ (b : List ℕ). map_ok (λ (bytes : List ℕ). b ++ bytes) (decode_hex chars))
unfolding decode_hex
pair_first high low chars = pair_step (nibble high) (nibble low) (decode_hex chars)

-- Hexadecimal decoding gives back the bytes that were written.
pub decode_hex-hex_chars :
    (bytes : List ℕ) → All IsByte bytes → decode_hex (hex_chars bytes) ≡ ok bytes
unfolding decode_hex hex_chars
decode_hex-hex_chars [] h = refl
decode_hex-hex_chars (b ∷ bytes) (hb, hs) =
    pair_first (hex_digit (b / 16)) (hex_digit (bit_and b 15)) (hex_chars bytes)
    ∙ rw (same_byte-eq b hb, decode_hex-hex_chars bytes hs) refl

-- The sum of the bytes and their LRC is 0 in 8 bits.
add_byte-append :
    (bytes : List ℕ) (sum c : ℕ) → add_byte sum (bytes ++ c ∷ []) ≡ (add_byte sum bytes + c) % 256
unfolding add_byte
add_byte-append [] sum c = refl
add_byte-append (b ∷ bytes) sum c = add_byte-append bytes ((sum + b) % 256) c

add_byte-IsByte : (bytes : List ℕ) (sum : ℕ) → IsByte sum → IsByte (add_byte sum bytes)
unfolding add_byte
add_byte-IsByte [] sum h = h
add_byte-IsByte (b ∷ bytes) sum h = add_byte-IsByte bytes ((sum + b) % 256) (omega arith)

pub lrc-IsByte : (bytes : List ℕ) → IsByte (lrc bytes)
unfolding lrc
lrc-IsByte bytes = omega arith

-- A sequence that ends in its own LRC has the LRC 0.
pub lrc-append : (bytes : List ℕ) → lrc (bytes ++ lrc bytes ∷ []) ≡ 0
unfolding lrc
lrc-append bytes = omega (
  arith,
  add_byte-append bytes 0 ((256 - add_byte 0 bytes) % 256),
  add_byte-IsByte bytes 0 (omega arith),
)
