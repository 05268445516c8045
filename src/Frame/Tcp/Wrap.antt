-- ===== src/Frame/Tcp/Wrap.antt =====
-- Writing an MBAP header around a PDU (src/frame/tcp.rs).
use rust_modbus.Prelude.{◌+◌, ◌-◌, ◌/◌, ◌%◌}
use rust_modbus.Buffer.{Writer, guarded, len, lift, extend, push, patch, ◌>>=◌, ◌>>◌}
use rust_modbus.Frame.Bytes.{be_bytes, u16_saturated}
use rust_modbus.Frame.Tcp.Header.{MbapHeader, length_overhead, check_length}

-- The length field goes down as a placeholder and is patched when the PDU is there.
unfoldable pub wrap_into : MbapHeader → Writer (Unit {0}) → Writer (Unit {0})
unfolding guarded check_length patch
wrap_into header encode_pdu = guarded (do
  start ← len
  extend (be_bytes header.transaction_id)
  extend (be_bytes 0)
  extend (be_bytes 0)
  push header.unit_id
  pdu_start ← len
  encode_pdu
  end ← len
  let length = u16_saturated (end - pdu_start + length_overhead)
  lift (check_length length)
  patch (start + 4) (length / 256 % 256)
  patch (start + 5) (length % 256))
