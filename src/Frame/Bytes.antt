-- ===== src/Frame/Bytes.antt =====
-- Machine words as native numbers, and their big-endian bytes (`to_be_bytes`, `from_be_bytes`).
use rust_modbus.Prelude.{ℕ, ◌/◌, ◌%◌, ◌<◌, ◌≡◌, List, [], ◌∷◌, arith, ltb, if◌then◌else◌, All}

abbrev pub IsByte : ℕ → Type 0
IsByte b = b < 256

abbrev pub IsU16 : ℕ → Type 0
IsU16 v = v < 65536

-- `v.to_be_bytes()` of a `u16`
abbrev pub be_bytes : ℕ → List ℕ
be_bytes v = (v / 256 % 256) ∷ (v % 256) ∷ []

-- `u8::try_from(n).unwrap_or(u8::MAX)`, and so for the wider types
abbrev pub u8_saturated : ℕ → ℕ
u8_saturated n = if ltb n 256 then n else 255

abbrev pub u16_saturated : ℕ → ℕ
u16_saturated n = if ltb n 65536 then n else 65535

abbrev pub u32_max : ℕ
u32_max = 4294967295

abbrev pub u32_saturated : ℕ → ℕ
u32_saturated n = if ltb n 4294967296 then n else u32_max

pub be_bytes-IsByte : (v : ℕ) → All IsByte (be_bytes v)
be_bytes-IsByte v = omega arith

pub u8_saturated-small : (n : ℕ) → n < 256 → u8_saturated n ≡ n
u8_saturated-small n h = ground arith

pub u32_saturated-small : (n : ℕ) → n < 256 → u32_saturated n ≡ n
u32_saturated-small n h = ground arith
