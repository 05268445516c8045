-- ===== src/Frame/Ascii/Wrap.antt =====
-- Writing an ASCII ADU (src/frame/ascii.rs).
use rust_modbus.Prelude.{ℕ, List, [], ◌∷◌}
use rust_modbus.Buffer.{Writer, continue, extend, push, for_each, ◌>>◌}
use rust_modbus.Frame.Ascii.Hex.{lrc, encode_hex}

-- The characters of the bytes that the checksum covers.
unfoldable pub write_covered : List ℕ → Writer (Unit {0})
write_covered covered = do
  push 58
  for_each encode_hex covered
  encode_hex (lrc covered)
  extend (13 ∷ 10 ∷ [])

-- The binary form is built in a buffer of its own, so a PDU that fails leaves `out` untouched.
unfoldable pub wrap_into : ℕ → Writer (Unit {0}) → Writer (Unit {0})
wrap_into address encode_pdu out =
    let (r, covered) = encode_pdu (address ∷ []) in
    continue r (λ (done : Unit {0}). write_covered covered) out
