-- ===== src/Frame/Rtu/Wrap.antt =====
-- Writing an RTU ADU (src/frame/rtu.rs).
use rust_modbus.Prelude.{ℕ, ◌/◌, ◌%◌, List, [], ◌∷◌, drop, ok}
use rust_modbus.Buffer.{Writer, guarded, len, extend, push, ◌>>=◌, ◌>>◌}

-- `out.get(at..)`
abbrev contents_from : ℕ → Writer (List ℕ)
contents_from start out = (ok (drop start out), out)

unfoldable pub wrap_into : (List ℕ → ℕ) → ℕ → Writer (Unit {0}) → Writer (Unit {0})
unfolding guarded
wrap_into crc16 address encode_pdu = guarded (do
  start ← len
  push address
  encode_pdu
  covered ← contents_from start
  let crc = crc16 covered
  extend (crc % 256 ∷ crc / 256 % 256 ∷ []))
