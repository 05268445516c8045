-- ===== src/Frame/Rtu/Split.antt =====
-- Reading and writing an RTU ADU (src/frame/rtu.rs). The CRC-16 of the crate `crc` is a parameter.
use rust_modbus.Prelude.{ℕ, ◌+◌, ◌-◌, ◌*◌, List, [], ◌∷◌, leb, ◌==◌, length, take, drop, ok, stuck}
use rust_modbus.Error.{Result, truncated, adu_too_large, checksum, ensure, ◌>>◌}

abbrev pub max_adu_len : ℕ
max_adu_len = 256

abbrev pub overhead : ℕ
overhead = 3

module _ (crc16 : List ℕ → ℕ) where
  unfoldable pub split_body : List ℕ → List ℕ → Result (ℕ × List ℕ)
  unfolding ensure
  split_body (address ∷ pdu) (low ∷ high ∷ []) =
      let expected = crc16 (address ∷ pdu) in
      let actual = low + high * 256 in
      ensure (expected == actual) (checksum expected actual) >> ok (address, pdu)
  split_body body crc = stuck

  unfoldable pub split : List ℕ → Result (ℕ × List ℕ)
  unfolding split_body
  split bytes =
      ensure (leb (length bytes) max_adu_len) (adu_too_large (length bytes) max_adu_len)
      >> ensure (leb (overhead + 1) (length bytes)) (truncated (overhead + 1) (length bytes))
      >> split_body (take (length bytes - 2) bytes) (drop (length bytes - 2) bytes)
