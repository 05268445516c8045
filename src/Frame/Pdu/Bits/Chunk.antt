-- ===== src/Frame/Pdu/Bits/Chunk.antt =====
-- One chunk of up to eight bits against one byte, by evaluation over all of them.
use rust_modbus.Prelude.{
  ℕ, zero, suc, ◌-◌, ◌<◌, ◌≡◌, refl, Bool, true, false, not, ◌&&◌, ◌||◌, List, [], ◌∷◌, ◌++◌, arith,
  ltb, ◌==◌, ltb→lt, &&-left, &&-right, length, take, drop, holds_below, holds_below-at, all_bits,
  all_bits_sound,
}
use rust_modbus.Frame.Bytes.{IsByte}
use rust_modbus.Frame.Pdu.Bits.{byte_bits, chunk_byte, any_set}

abbrev pub bit_eq : Bool → Bool → Bool
bit_eq true b = b
bit_eq false b = not b

same_bits : List Bool → List Bool → Bool
same_bits [] [] = true
same_bits [] (y ∷ ys) = false
same_bits (x ∷ xs) [] = false
same_bits (x ∷ xs) (y ∷ ys) = bit_eq x y && same_bits xs ys

same_bits_sound : (xs ys : List Bool) → same_bits xs ys ≡ true → xs ≡ ys
unfolding same_bits
same_bits_sound [] [] h = refl
same_bits_sound [] (y ∷ ys) h = cc
same_bits_sound (x ∷ xs) [] h = cc
same_bits_sound (x ∷ xs) (y ∷ ys) h = ground (arith, same_bits_sound xs ys)

-- The zero bits that fill a chunk up to a byte.
abbrev pub padding : ℕ → List Bool
padding zero = []
padding (suc n) = false ∷ padding n

packs : List Bool → Bool
unfolding same_bits
packs l =
    same_bits (byte_bits (chunk_byte l)) (l ++ padding (8 - length l)) && ltb (chunk_byte l) 256

packs_table : holds_below 9 (λ n. all_bits n packs) ≡ true
unfolding holds_below all_bits packs byte_bits chunk_byte
packs_table = refl

-- Packing a chunk and unpacking the byte gives the chunk, padded by zero bits.
pub byte_bits-chunk_byte :
    (l : List Bool)
    → length l < 9
    → (byte_bits (chunk_byte l) ≡ l ++ padding (8 - length l)) × IsByte (chunk_byte l)
unfolding packs
byte_bits-chunk_byte l h =
    let checked : packs l ≡ true =
      all_bits_sound l packs (holds_below-at 9 (λ n. all_bits n packs) (length l) packs_table h) in
    (same_bits_sound _ _ (&&-left _ _ checked), ltb→lt _ _ (&&-right _ _ checked))

-- One byte, and a count of its bits that leaves out only zeros.
unpacks : ℕ → ℕ → Bool
unpacks k byte = any_set (drop k (byte_bits byte)) || (chunk_byte (take k (byte_bits byte)) == byte)

unpacks_table : holds_below 9 (λ k. holds_below 256 (unpacks k)) ≡ true
unfolding holds_below unpacks byte_bits chunk_byte any_set
unpacks_table = refl

-- Unpacking a byte and packing its first `k` bits gives the byte if the other bits are zero.
pub chunk_byte-byte_bits :
    (k byte : ℕ)
    → k < 9
    → IsByte byte
    → any_set (drop k (byte_bits byte)) ≡ false
    → chunk_byte (take k (byte_bits byte)) ≡ byte
unfolding unpacks
chunk_byte-byte_bits k byte hk hb h = ground (
  arith,
  holds_below-at 256 (unpacks k) byte
      (holds_below-at 9 (λ j. holds_below 256 (unpacks j)) k unpacks_table hk) hb,
)
