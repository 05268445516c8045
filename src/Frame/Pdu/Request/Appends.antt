-- ===== src/Frame/Pdu/Request/Appends.antt =====
-- What `encode_into` does to a buffer that holds something already.
use rust_modbus.Prelude.{◌≡◌}
use rust_modbus.Buffer.{Buffer}
use rust_modbus.Buffer.Relative.{IsRelative, appended, guarded_lem}
use rust_modbus.Frame.File.Encode.Relative.{
  encode_read_requests_into-IsRelative, encode_write_records_into-IsRelative,
}
use rust_modbus.Frame.Mei.Encode.{encode_request_into-IsRelative}
use rust_modbus.Frame.Pdu.Bits.RoundTrip.{push_bits-IsRelative}
use rust_modbus.Frame.Pdu.Words.{push_registers-IsRelative, push_words-IsRelative}
use rust_modbus.Frame.Pdu.Encode.{
  encode_read, encode_single, encode_quantified, encode_diagnostics, encode_custom, encode_body,
  encode_bare,
}
use rust_modbus.Frame.Pdu.Encode.Sized.{writer_rules}
use rust_modbus.Frame.Pdu.Request.{RequestPdu, read_coils}
use rust_modbus.Frame.Pdu.Request.Write.{write, encode_into, encode}

ruleset request_rules = (
  writer_rules, push_bits-IsRelative, push_registers-IsRelative, push_words-IsRelative,
  encode_read_requests_into-IsRelative, encode_write_records_into-IsRelative,
  encode_request_into-IsRelative,
)

write-IsRelative : (pdu : RequestPdu) → IsRelative (write pdu)
unfolding write encode_read encode_single encode_quantified encode_diagnostics encode_custom
    encode_body encode_bare
write-IsRelative (read_coils address quantity) = search request_rules depth 14
write-IsRelative _ = search request_rules depth 14

-- `encode_into` appends what `encode` returns behind what the buffer holds, and a request that
-- `encode` refuses is refused with the same error and leaves the buffer as it was.
pub encode_into-appended :
    (pdu : RequestPdu) (out : Buffer) → encode_into pdu out ≡ appended out (encode pdu)
unfolding encode encode_into
encode_into-appended pdu out = guarded_lem (write pdu) out (write-IsRelative pdu)
