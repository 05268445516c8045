-- ===== src/Frame/Pdu/Response/Appends.antt =====
-- What `encode_into` of a response does to a buffer that holds something already.
use rust_modbus.Prelude.{ℕ, ◌≤◌, ◌≡◌, List, arith, length, ok}
use rust_modbus.Buffer.{Buffer, ◌>>=◌}
use rust_modbus.Buffer.Relative.{IsRelative, appended, guarded_lem, relative_rules}
use rust_modbus.Frame.Exception
use rust_modbus.Frame.Exception.{ExceptionResponse}
use rust_modbus.Frame.File.Encode.Relative.{
  encode_read_responses_into-IsRelative, encode_write_records_into-IsRelative,
}
use rust_modbus.Frame.Mei.Encode.{encode_response_into-IsRelative}
use rust_modbus.Frame.Pdu.Bits.RoundTrip.{push_bits-IsRelative}
use rust_modbus.Frame.Pdu.Words.{push_registers-IsRelative, push_words-IsRelative}
use rust_modbus.Frame.Pdu.Encode.{
  encode_single, encode_echo_quantity, encode_diagnostics, encode_custom, encode_body,
  encode_counted,
}
use rust_modbus.Frame.Pdu.Encode.Sized.{writer_rules}
use rust_modbus.Frame.Pdu.Encode.Bounded.{IsBounded, bounded_rules, owned-bounded}
use rust_modbus.Frame.Pdu.Response.{ResponsePdu, read_coils, exception}
use rust_modbus.Frame.Pdu.Response.Write.{write, encode_into, encode}

exception-IsRelative : (response : ExceptionResponse) → IsRelative (Exception.encode_into response)
unfolding Exception.encode_into
exception-IsRelative response = search relative_rules

ruleset response_rules = (
  writer_rules, push_bits-IsRelative, push_registers-IsRelative, push_words-IsRelative,
  encode_read_responses_into-IsRelative, encode_write_records_into-IsRelative,
  encode_response_into-IsRelative, exception-IsRelative,
)

write-IsRelative : (pdu : ResponsePdu) → IsRelative (write pdu)
unfolding write encode_single encode_echo_quantity encode_diagnostics encode_custom encode_body
    encode_counted
write-IsRelative (read_coils coils) = search response_rules depth 14
write-IsRelative _ = search response_rules depth 14

-- `encode_into` appends what `encode` returns behind what the buffer holds, and a response that
-- `encode` refuses is refused with the same error and leaves the buffer as it was.
pub response_encode_into-appended :
    (pdu : ResponsePdu) (out : Buffer) → encode_into pdu out ≡ appended out (encode pdu)
unfolding encode encode_into
response_encode_into-appended pdu out = guarded_lem (write pdu) out (write-IsRelative pdu)

exception-IsBounded : (response : ExceptionResponse) → IsBounded (Exception.encode_into response)
unfolding Exception.encode_into ◌>>=◌
exception-IsBounded response = record { within = λ h. ground arith }

write-IsBounded : (pdu : ResponsePdu) → IsBounded (write pdu)
unfolding write encode_single encode_echo_quantity encode_diagnostics encode_custom encode_body
    encode_counted
write-IsBounded (read_coils coils) = search bounded_rules depth 8
write-IsBounded (exception response) = exception-IsBounded response
write-IsBounded _ = search bounded_rules depth 8

pub encode-bounded : (pdu : ResponsePdu) (bs : List ℕ) → encode pdu ≡ ok bs → length bs ≤ 253
unfolding encode encode_into
encode-bounded pdu bs h = owned-bounded (write pdu) bs (write-IsBounded pdu) h
