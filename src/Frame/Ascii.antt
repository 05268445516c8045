-- ===== src/Frame/Ascii.antt =====
-- ASCII framing (src/frame/ascii.rs).
use rust_modbus.Prelude.{
  ℕ, ◌+◌, ◌-◌, ◌%◌, Bool, false, ◌&&◌, Option, none, some, List, [], ◌∷◌, leb, ◌==◌, length, take,
  drop, ok, err, and_then,
}
pub mod Hex
pub mod Wrap
pub mod Adu
pub mod Instance
use rust_modbus.Error.{Result, truncated, adu_too_large, framing, checksum, ensure, ◌>>◌}
use rust_modbus.Buffer
use rust_modbus.Frame.Ascii.Hex.{lrc, decode_hex}

abbrev pub start : ℕ
start = 58

abbrev pub terminator : List ℕ
terminator = 13 ∷ 10 ∷ []

abbrev pub overhead : ℕ
overhead = 7

abbrev pub max_adu_len : ℕ
max_adu_len = 513

-- `split_last`
unfoldable pub split_last : List ℕ → Option (List ℕ × ℕ)
split_last [] = none
split_last (x ∷ xs) = elim (split_last xs) [
  | none ↦ some ([], x)
  | some (init, last) ↦ some (x ∷ init, last)
]

abbrev is_terminator : List ℕ → Bool
is_terminator (carriage_return ∷ line_feed ∷ []) = carriage_return == 13 && line_feed == 10
is_terminator _ = false

-- The checksum and the address of the decoded bytes.
unfoldable pub split_decoded : ℕ → List ℕ → Result (ℕ × List ℕ)
split_decoded supplied decoded = elim (split_last decoded) [
  | none ↦ err (framing "hexadecimal character count")
  | some ([], actual) ↦
      ensure (lrc [] == actual) (checksum (lrc []) actual)
      >> err (truncated (overhead + 2) supplied)
  | some (address ∷ pdu, actual) ↦
      ensure (lrc (address ∷ pdu) == actual) (checksum (lrc (address ∷ pdu)) actual)
      >> ok (address, pdu)
]

unfoldable pub split_body : ℕ → List ℕ → List ℕ → Result (ℕ × List ℕ)
split_body supplied body end =
    ensure (is_terminator end) (framing "terminator")
    >> ensure (length body % 2 == 0) (framing "hexadecimal character count")
    >> and_then (decode_hex body) (split_decoded supplied)

unfoldable pub split_start : List ℕ → Result (ℕ × List ℕ)
split_start [] = err (framing "start character")
split_start (first ∷ rest) =
    ensure (first == start) (framing "start character")
    >> split_body (length rest + 1) (take (length rest - 2) rest) (drop (length rest - 2) rest)

unfoldable pub split : List ℕ → Result (ℕ × List ℕ)
split bytes =
    ensure (leb (length bytes) max_adu_len) (adu_too_large (length bytes) max_adu_len)
    >> ensure (leb (overhead + 2) (length bytes)) (truncated (overhead + 2) (length bytes))
    >> split_start bytes
