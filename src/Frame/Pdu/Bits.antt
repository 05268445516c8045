-- ===== src/Frame/Pdu/Bits.antt =====
-- Bits packed into bytes, least significant first (src/frame/pdu.rs).
use rust_modbus.Prelude.{
  ℕ, ◌+◌, ◌*◌, ◌/◌, ◌^◌, bit_and, bit_or, Bool, false, not, ◌&&◌, ◌||◌, List, [], ◌∷◌, ◌++◌, leb,
  ◌==◌, if◌then◌else◌, length, take, drop, ok, err,
}
pub mod Chunk
pub mod RoundTrip
use rust_modbus.Error.{Result, illegal_value}
use rust_modbus.Buffer.{Writer, push, lift, ◌>>=◌, ◌>>◌}

-- `(0..8).map(|bit| byte & (1 << bit) != 0)`
unfoldable pub byte_bits : ℕ → List Bool
byte_bits byte =
    not (bit_and byte 1 == 0)
    ∷ not (bit_and byte 2 == 0)
    ∷ not (bit_and byte 4 == 0)
    ∷ not (bit_and byte 8 == 0)
    ∷ not (bit_and byte 16 == 0)
    ∷ not (bit_and byte 32 == 0)
    ∷ not (bit_and byte 64 == 0)
    ∷ not (bit_and byte 128 == 0)
    ∷ []

unfoldable pub bits_from_bytes : List ℕ → List Bool
bits_from_bytes [] = []
bits_from_bytes (byte ∷ bytes) = byte_bits byte ++ bits_from_bytes bytes

unfoldable pub any_set : List Bool → Bool
any_set [] = false
any_set (bit ∷ bits) = bit || any_set bits

last_or_zero : List ℕ → ℕ
last_or_zero [] = 0
last_or_zero (x ∷ []) = x
last_or_zero (x ∷ y ∷ rest) = last_or_zero (y ∷ rest)

-- `bits.get(quantity..)` is `None`, and there is no padding, where `quantity` passes the length.
unfoldable pub packed_bits : List ℕ → ℕ → Result (List Bool)
unfolding last_or_zero
packed_bits bytes quantity =
    let bits = bits_from_bytes bytes in
    if leb quantity (length bits) && any_set (drop quantity bits)
    then err (illegal_value "coil padding" (last_or_zero bytes))
    else ok (take quantity bits)

-- The fold over one chunk: `byte | (1 << index)` for each bit that is set.
unfoldable pub chunk_fold : ℕ → ℕ → List Bool → ℕ
chunk_fold index byte [] = byte
chunk_fold index byte (bit ∷ bits) =
    chunk_fold (index + 1) (if bit then bit_or byte (2 ^ index) else byte) bits

unfoldable pub chunk_byte : List Bool → ℕ
unfolding chunk_fold
chunk_byte = chunk_fold 0 0

-- `bits.chunks(8)`
unfoldable pub chunks : List Bool → List (List Bool)
chunks (a ∷ b ∷ c ∷ d ∷ e ∷ f ∷ g ∷ h ∷ rest) = (a ∷ b ∷ c ∷ d ∷ e ∷ f ∷ g ∷ h ∷ []) ∷ chunks rest
chunks [] = []
chunks short = short ∷ []

push_chunks : List (List Bool) → Writer (Unit {0})
push_chunks [] = lift (ok tt)
push_chunks (chunk ∷ rest) = do push (chunk_byte chunk); push_chunks rest

unfoldable pub push_bits : List Bool → Writer (Unit {0})
unfolding push_chunks
push_bits bits = push_chunks (chunks bits)

-- `count.div_ceil(8)`
unfoldable pub packed_len : ℕ → ℕ
packed_len count = (count + 7) / 8

unfoldable pub bit_width : ℕ → ℕ
bit_width quantity = (quantity + 7) / 8

unfoldable pub register_width : ℕ → ℕ
register_width quantity = quantity * 2
