-- ===== src/Frame/Mei/Encode.antt =====
-- Encoding Encapsulated Interface Transport bodies (src/frame/mei.rs).
use rust_modbus.Prelude.{ℕ, String, List, ltb, if◌then◌else◌, length, ok, err}
use rust_modbus.Error.{Result, out_of_range}
use rust_modbus.Buffer.{Writer, for_each, lift, extend, push, ◌>>=◌, ◌>>◌}
use rust_modbus.Buffer.Relative.{IsRelative, for_each-IsRelative, relative_rules}
use rust_modbus.Frame.Bytes.{u32_saturated}
use rust_modbus.Frame.Mei.{
  MeiRequest, MeiResponse, DeviceIdObject, DeviceIdentification, encode_id_code, mei_canopen,
  mei_read_device_id, more_follows_yes, more_follows_no,
}

unfoldable pub opaque_body_into : ℕ → List ℕ → Writer (Unit {0})
opaque_body_into mei_type body = do push mei_type; extend body

-- `encode_request_into` cannot fail.
unfoldable pub encode_request_into : MeiRequest → Writer (Unit {0})
unfolding opaque_body_into
encode_request_into (MeiRequest.can_open body) = opaque_body_into mei_canopen body
encode_request_into (MeiRequest.read_device_identification code object_id) = do
  push mei_read_device_id
  push (encode_id_code code)
  push object_id
encode_request_into (MeiRequest.other mei_type body) = opaque_body_into mei_type body

-- `u8::try_from`, for the counts of objects and of their bytes
unfoldable pub u8_field : String → ℕ → Result ℕ
u8_field field n = if ltb n 256 then ok n else err (out_of_range field (u32_saturated n) 0 255)

unfoldable pub encode_object : DeviceIdObject → Writer (Unit {0})
unfolding u8_field
encode_object object = do
  length_byte ← lift (u8_field "object length" (length object.value))
  push object.id
  push length_byte
  extend object.value

unfoldable pub encode_device_identification : DeviceIdentification → Writer (Unit {0})
unfolding for_each encode_object u8_field
encode_device_identification d = do
  count ← lift (u8_field "object count" (length d.objects))
  push mei_read_device_id
  push (encode_id_code d.read_device_id_code)
  push d.conformity_level
  push (if d.more_follows then more_follows_yes else more_follows_no)
  push d.next_object_id
  push count
  for_each encode_object d.objects

unfoldable pub encode_response_into : MeiResponse → Writer (Unit {0})
unfolding opaque_body_into encode_device_identification
encode_response_into (MeiResponse.can_open body) = opaque_body_into mei_canopen body
encode_response_into (MeiResponse.read_device_identification d) = encode_device_identification d
encode_response_into (MeiResponse.other mei_type body) = opaque_body_into mei_type body

pub encode_request_into-IsRelative :
    (request : MeiRequest) → IsRelative (encode_request_into request)
unfolding encode_request_into
encode_request_into-IsRelative (MeiRequest.can_open body) = search relative_rules
encode_request_into-IsRelative (MeiRequest.read_device_identification code object_id) =
    search relative_rules
encode_request_into-IsRelative (MeiRequest.other mei_type body) = search relative_rules

pub encode_object-IsRelative : (object : DeviceIdObject) → IsRelative (encode_object object)
unfolding encode_object
encode_object-IsRelative object = search relative_rules

encode_objects-IsRelative :
    (objects : List DeviceIdObject) → IsRelative (for_each encode_object objects)
encode_objects-IsRelative = for_each-IsRelative encode_object encode_object-IsRelative

pub encode_response_into-IsRelative :
    (response : MeiResponse) → IsRelative (encode_response_into response)
unfolding encode_response_into
encode_response_into-IsRelative (MeiResponse.can_open body) = search relative_rules
encode_response_into-IsRelative (MeiResponse.read_device_identification d) =
    search (relative_rules, encode_objects-IsRelative) depth 10
encode_response_into-IsRelative (MeiResponse.other mei_type body) = search relative_rules
