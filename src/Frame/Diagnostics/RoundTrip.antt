-- ===== src/Frame/Diagnostics/RoundTrip.antt =====
-- Decoding and encoding a sub-function (src/frame/diagnostics.rs).
use rust_modbus.Prelude.{
  ℕ, ◌<◌, ◌≡◌, refl, inl, inr, Bool, true, false, arith, ltb, ◌==◌, ltb→lt, Bool-cases, holds_below,
  holds_below-at, ok,
}
use rust_modbus.Frame.Diagnostics.{DiagnosticSubFunction, return_query_data, other, decode, encode}

same_code : ℕ → Bool
unfolding decode encode
same_code raw = elim (encode (decode raw)) [ ok raw' ↦ raw' == raw | _ ↦ false ]

code_table : holds_below 21 same_code ≡ true
unfolding holds_below same_code
code_table = refl

above_table : (raw : ℕ) → 20 < raw → encode (decode raw) ≡ ok raw
unfolding decode encode
above_table raw h = ground arith

pub encode-decode : (raw : ℕ) → encode (decode raw) ≡ ok raw
unfolding same_code
encode-decode raw = elim (Bool-cases (ltb raw 21)) [
  | inl e ↦ ground (arith, holds_below-at 21 same_code raw code_table (ltb→lt raw 21 e))
  | inr e ↦ above_table raw (ground arith)
]

pub decode-encode :
    (code : DiagnosticSubFunction) {raw : ℕ} → encode code ≡ ok raw → decode raw ≡ code
unfolding decode encode
decode-encode (other raw) h = ground arith
decode-encode return_query_data h = ground arith
decode-encode _ h = ground arith
