-- ===== src/Frame/Mei.antt =====
-- Encapsulated Interface Transport bodies (src/frame/mei.rs).
use rust_modbus.Prelude.{ℕ, Bool, true, false, List, ◌==◌, if◌then◌else◌, length, ok, err}
use rust_modbus.Error.{Result, out_of_range, illegal_value, byte_count_mismatch}
use rust_modbus.Parse.{lift, ensure, run_all}
use rust_modbus.Parse.Stream.{Winnow, Parser, ◌>>=◌, ◌>>◌, pure, branch}
pub mod Encode
pub mod RoundTrip
pub mod Objects

abbrev pub mei_canopen : ℕ
mei_canopen = 13

abbrev pub mei_read_device_id : ℕ
mei_read_device_id = 14

abbrev pub more_follows_no : ℕ
more_follows_no = 0

abbrev pub more_follows_yes : ℕ
more_follows_yes = 0xff

pub data ReadDeviceIdCode : Type 0 where
  basic regular extended individual : ReadDeviceIdCode

pub record DeviceIdObject : Type 0 where
  pub id : ℕ
  pub value : List ℕ

pub record DeviceIdentification : Type 0 where
  pub read_device_id_code : ReadDeviceIdCode
  pub conformity_level : ℕ
  pub more_follows : Bool
  pub next_object_id : ℕ
  pub objects : List DeviceIdObject

pub data MeiRequest : Type 0 where
  can_open : (body : List ℕ) → MeiRequest
  read_device_identification : (code : ReadDeviceIdCode) (object_id : ℕ) → MeiRequest
  other : (mei_type : ℕ) (body : List ℕ) → MeiRequest

pub data MeiResponse : Type 0 where
  can_open : (body : List ℕ) → MeiResponse
  read_device_identification : DeviceIdentification → MeiResponse
  other : (mei_type : ℕ) (body : List ℕ) → MeiResponse

-- `ReadDeviceIdCode::decode`
unfoldable pub decode_id_code : ℕ → Result ReadDeviceIdCode
decode_id_code raw =
    if raw == 1
    then ok basic
    else if raw == 2
    then ok regular
    else if raw == 3
    then ok extended
    else if raw == 4
    then ok individual
    else err (out_of_range "read device id code" raw 1 4)

-- `ReadDeviceIdCode::encode`
unfoldable pub encode_id_code : ReadDeviceIdCode → ℕ
encode_id_code basic = 1
encode_id_code regular = 2
encode_id_code extended = 3
encode_id_code individual = 4

unfoldable pub decode_more_follows : ℕ → Result Bool
decode_more_follows raw =
    if raw == more_follows_no
    then ok false
    else if raw == more_follows_yes
    then ok true
    else err (illegal_value "more follows" raw)

module _ (w : Winnow) where
  unfoldable pub decode_request : Parser MeiRequest
  unfolding lift
  decode_request = do
    mei_type ← w.be_u8
    branch (mei_type == mei_canopen) (do body ← w.rest; pure (MeiRequest.can_open body))
        (branch (mei_type == mei_read_device_id)
          (do
            raw ← w.be_u8
            code ← lift (decode_id_code raw)
            object_id ← w.be_u8
            pure (MeiRequest.read_device_identification code object_id))
          (do body ← w.rest; pure (MeiRequest.other mei_type body)))

  unfoldable pub parse_object : Parser DeviceIdObject
  parse_object = do
    id ← w.be_u8
    length_byte ← w.be_u8
    value ← w.take length_byte
    pure (record { id = id; value = value })

  unfoldable pub decode_device_identification : Parser MeiResponse
  unfolding lift ensure
  decode_device_identification = do
    raw ← w.be_u8
    code ← lift (decode_id_code raw)
    conformity_level ← w.be_u8
    more_raw ← w.be_u8
    more_follows ← lift (decode_more_follows more_raw)
    next_object_id ← w.be_u8
    object_count ← w.be_u8
    body ← w.rest
    objects ← lift (run_all w body parse_object)
    ensure (length objects == object_count) (byte_count_mismatch object_count (length objects))
    pure (
        MeiResponse.read_device_identification (record {
          read_device_id_code = code;
          conformity_level = conformity_level;
          more_follows = more_follows;
          next_object_id = next_object_id;
          objects = objects;
        }))

  unfoldable pub decode_response : Parser MeiResponse
  unfolding decode_device_identification
  decode_response = do
    mei_type ← w.be_u8
    branch (mei_type == mei_canopen) (do body ← w.rest; pure (MeiResponse.can_open body))
        (branch (mei_type == mei_read_device_id) decode_device_identification
          (do body ← w.rest; pure (MeiResponse.other mei_type body)))
