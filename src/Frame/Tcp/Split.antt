-- ===== src/Frame/Tcp/Split.antt =====
-- Reading an MBAP header (src/frame/tcp.rs).
use rust_modbus.Prelude.{ℕ, ◌+◌, ◌*◌, List, [], ◌∷◌, leb, ◌==◌, length, take, drop, ok, err, stuck}
use rust_modbus.Error.{
  Result, truncated, adu_too_large, protocol_identifier, invalid_length, ensure, ◌>>◌,
}
use rust_modbus.Frame.Tcp.Header.{
  MbapHeader, max_adu_len, header_len, length_overhead, length_prefix_len, check_length,
}

-- The whole ADU's length, from the bytes before the unit identifier.
unfoldable pub adu_len : List ℕ → Result ℕ
unfolding check_length
adu_len (a ∷ b ∷ c ∷ d ∷ high ∷ low ∷ rest) = do
  let length = high * 256 + low
  check_length length
  ok (length_prefix_len + length)
adu_len prefix = err (truncated length_prefix_len (length prefix))

split_header : List ℕ → List ℕ → Result (MbapHeader × List ℕ)
unfolding check_length ensure
split_header (a ∷ b ∷ c ∷ d ∷ e ∷ f ∷ unit_id ∷ []) pdu = do
  ensure (c * 256 + d == 0) (protocol_identifier (c * 256 + d))
  let expected = e * 256 + f
  check_length expected
  let supplied = length pdu + length_overhead
  ensure (expected == supplied) (invalid_length expected supplied)
  ok (record { transaction_id = a * 256 + b; unit_id = unit_id }, pdu)
split_header head pdu = stuck

unfoldable pub split : List ℕ → Result (MbapHeader × List ℕ)
unfolding split_header ensure
split bytes = do
  ensure (leb (length bytes) max_adu_len) (adu_too_large (length bytes) max_adu_len)
  ensure (leb (header_len + 1) (length bytes)) (truncated (header_len + 1) (length bytes))
  split_header (take header_len bytes) (drop header_len bytes)
