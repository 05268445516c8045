-- ===== src/Transport/Serial/Interval.antt =====
-- The inter-frame interval of a serial line (src/transport/serial.rs).
use rust_modbus.Prelude.{
  ℕ, ◌+◌, ◌*◌, ◌/◌, ◌≤◌, ◌<◌, ◌≡◌, refl, List, [], ◌∷◌, ◌++◌, arith, length, length-append, ok,
}
use rust_modbus.Transport.Serial.Line.{
  DataBits, five, six, seven, eight, Parity, odd, even, StopBits, one, two, data_bit_count,
  parity_bit_count, stop_bit_count,
}
use rust_modbus.Transport.Serial.{SerialConfig, bits_per_character, inter_frame_interval}

data_bit_count-range : (d : DataBits) → (5 ≤ data_bit_count d) × (data_bit_count d ≤ 8)
unfolding data_bit_count
data_bit_count-range five = omega arith
data_bit_count-range six = omega arith
data_bit_count-range seven = omega arith
data_bit_count-range eight = omega arith

parity_bit_count-range : (p : Parity) → parity_bit_count p ≤ 1
unfolding parity_bit_count
parity_bit_count-range Parity.none = omega arith
parity_bit_count-range odd = omega arith
parity_bit_count-range even = omega arith

stop_bit_count-range : (b : StopBits) → (1 ≤ stop_bit_count b) × (stop_bit_count b ≤ 2)
unfolding stop_bit_count
stop_bit_count-range one = omega arith
stop_bit_count-range two = omega arith

pub bits_per_character-range :
    (config : SerialConfig) → (7 ≤ bits_per_character config) × (bits_per_character config ≤ 12)
unfolding bits_per_character
bits_per_character-range config = omega (
  arith,
  data_bit_count-range config.data_bits,
  parity_bit_count-range config.parity,
  stop_bit_count-range config.stop_bits,
)

quotient-le : (a b : ℕ) → 0 < b → a / b * b ≤ a
quotient-le a b h = omega arith

quotient-lt : (a b : ℕ) → 0 < b → a < (a / b + 1) * b
quotient-lt a b h = omega arith

interval :
    (config : SerialConfig)
    → 1 ≤ config.baud_rate
    → config.baud_rate ≤ 19200
    → let bits : ℕ = bits_per_character config in
      (nanos : ℕ) × (inter_frame_interval config ≡ ok nanos)
      × (nanos * (config.baud_rate * 2) ≤ bits * 7000000000)
      × (bits * 7000000000 < (nanos + 1) * (config.baud_rate * 2))
unfolding inter_frame_interval
interval config lo hi =
    let bits : ℕ = bits_per_character config in
    let time : ℕ = bits * 7000000000 in
    let rate : ℕ = config.baud_rate * 2 in
    let size = bits_per_character-range config in
    let positive : 0 < rate = omega arith in
    (
      time / rate,
      ground (arith, size),
      omega (arith, quotient-le time rate positive),
      omega (arith, quotient-lt time rate positive),
    )

-- What the wire carries for one character, bit by bit: a start bit, the data, a parity bit if the
-- line has parity, and the stop bits.
pub data WireBit : Type 0 where
  start data_bit check stop_bit : WireBit

unfoldable pub data_part : DataBits → List WireBit
data_part five = data_bit ∷ data_bit ∷ data_bit ∷ data_bit ∷ data_bit ∷ []
data_part six = data_bit ∷ data_bit ∷ data_bit ∷ data_bit ∷ data_bit ∷ data_bit ∷ []
data_part seven = data_bit ∷ data_bit ∷ data_bit ∷ data_bit ∷ data_bit ∷ data_bit ∷ data_bit ∷ []
data_part eight =
    data_bit ∷ data_bit ∷ data_bit ∷ data_bit ∷ data_bit ∷ data_bit ∷ data_bit ∷ data_bit ∷ []

unfoldable pub parity_part : Parity → List WireBit
parity_part Parity.none = []
parity_part odd = check ∷ []
parity_part even = check ∷ []

unfoldable pub stop_part : StopBits → List WireBit
stop_part one = stop_bit ∷ []
stop_part two = stop_bit ∷ stop_bit ∷ []

abbrev pub character : SerialConfig → List WireBit
character config =
    start ∷ data_part config.data_bits ++ (parity_part config.parity ++ stop_part config.stop_bits)

length-data_part : (d : DataBits) → length (data_part d) ≡ data_bit_count d
unfolding data_part data_bit_count
length-data_part five = refl
length-data_part six = refl
length-data_part seven = refl
length-data_part eight = refl

length-parity_part : (p : Parity) → length (parity_part p) ≡ parity_bit_count p
unfolding parity_part parity_bit_count
length-parity_part Parity.none = refl
length-parity_part odd = refl
length-parity_part even = refl

length-stop_part : (b : StopBits) → length (stop_part b) ≡ stop_bit_count b
unfolding stop_part stop_bit_count
length-stop_part one = refl
length-stop_part two = refl

length-character : (config : SerialConfig) → length (character config) ≡ bits_per_character config
unfolding bits_per_character
length-character config = omega (
  arith,
  length-append (data_part config.data_bits)
      (parity_part config.parity ++ stop_part config.stop_bits),
  length-append (parity_part config.parity) (stop_part config.stop_bits),
  length-data_part config.data_bits,
  length-parity_part config.parity,
  length-stop_part config.stop_bits,
)

-- From 1 to 19200 baud the interval is the time of 3.5 characters, rounded down to a nanosecond and
-- with no saturation, where a character takes a start bit, 5 to 8 data bits, a parity bit if the
-- line has parity, and 1 or 2 stop bits, as its configuration says.
pub inter_frame_interval-exact :
    (config : SerialConfig)
    → 1 ≤ config.baud_rate
    → config.baud_rate ≤ 19200
    → let bits : ℕ = length (character config) in
      (nanos : ℕ) × (inter_frame_interval config ≡ ok nanos)
      × (nanos * (config.baud_rate * 2) ≤ bits * 7000000000)
      × (bits * 7000000000 < (nanos + 1) * (config.baud_rate * 2))
inter_frame_interval-exact config lo hi = rw (length-character config) (interval config lo hi)
