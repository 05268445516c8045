-- ===== src/Frame/Mei/Objects.antt =====
-- A device identification: the bytes of its objects, and decoding what it encodes to.
use rust_modbus.Prelude.{
  ℕ, ◌<◌, ◌≡◌, refl, ◌≢◌, inl, inr, List, [], ◌∷◌, ◌++◌, arith, if◌then◌else◌, length, All,
  length-append, take-append-drop, length-take, take-length-append, drop-length-append, ok,
  Outcome-cases,
}
use rust_modbus.Buffer.{◌>>=◌, for_each}
use rust_modbus.Parse.{run_all}
use rust_modbus.Parse.Region.{
  IsItem, all_bytes, run_all-all_bytes, run_all-items, for_each-writes, for_each-checks,
}
use rust_modbus.Parse.Reference.{reference}
use rust_modbus.Parse.Stream.{Input}
use rust_modbus.Frame.Bytes.{IsByte}
use rust_modbus.Frame.Mei.{
  ReadDeviceIdCode, basic, regular, extended, individual, DeviceIdObject, DeviceIdentification,
  MeiResponse, parse_object, decode_response, decode_device_identification, decode_id_code,
  encode_id_code, decode_more_follows,
}
use rust_modbus.Frame.Mei.Encode.{encode_object, encode_object-IsRelative, encode_response_into}

abbrev object_bytes : DeviceIdObject → List ℕ
object_bytes object = object.id ∷ length object.value ∷ object.value

abbrev ObjectFits : DeviceIdObject → Type 0
ObjectFits object = length object.value < 256

abbrev AnyObject : DeviceIdObject → Type 0
AnyObject object = Unit {0}

object_writes :
    (object : DeviceIdObject)
    → ObjectFits object
    → encode_object object [] ≡ (ok tt, object_bytes object)
unfolding encode_object ◌>>=◌
object_writes object h = ground arith

object_checks : (object : DeviceIdObject) → (encode_object object []).0 ≡ ok tt → ObjectFits object
unfolding encode_object ◌>>=◌
object_checks object h = ground arith

object_parses :
    (object : DeviceIdObject) (s : Input)
    → ObjectFits object
    → AnyObject object
    → parse_object reference (object_bytes object ++ s) ≡ ok (object, s)
unfolding parse_object reference
object_parses object s h t = ground (
  arith,
  length-append {0} object.value s,
  take-length-append object.value s,
  drop-length-append object.value s,
)

object_parsed :
    (s : Input) (object : DeviceIdObject) (s' : Input)
    → All IsByte s
    → parse_object reference s ≡ ok (object, s')
    → (s ≡ object_bytes object ++ s') × ObjectFits object × AnyObject object
unfolding parse_object reference
object_parsed (i ∷ n ∷ s) object s' hb h = ground (arith, length-take n s, take-append-drop n s)
object_parsed _ object s' hb h = absurd (ground arith)

object_item : IsItem (parse_object reference) encode_object object_bytes ObjectFits AnyObject
object_item = record {
  relative = encode_object-IsRelative;
  writes = object_writes;
  checks = object_checks;
  parses = object_parses;
  parsed = object_parsed;
  takes = λ object. omega arith;
}

-- An unnamed MEI type does not hold the number of a named one; the fields are bytes.
abbrev pub ResponseIsCanonical : MeiResponse → Type 0
ResponseIsCanonical (MeiResponse.can_open body) = Unit {0}
ResponseIsCanonical (MeiResponse.read_device_identification d) = Unit {0}
ResponseIsCanonical (MeiResponse.other mei_type body) = (mei_type ≢ 13) × (mei_type ≢ 14)

-- What the encoder checks of the lengths.
abbrev pub MeiFits : MeiResponse → Type 0
MeiFits (MeiResponse.read_device_identification d) =
    (length d.objects < 256) × All ObjectFits d.objects
MeiFits _ = Unit {0}

-- The bytes of a response body.
unfoldable pub response_bytes : MeiResponse → List ℕ
response_bytes (MeiResponse.can_open body) = 13 ∷ body
response_bytes (MeiResponse.read_device_identification d) =
    14
    ∷ encode_id_code d.read_device_id_code
    ∷ d.conformity_level
    ∷ (if d.more_follows then 255 else 0)
    ∷ d.next_object_id
    ∷ length d.objects
    ∷ all_bytes object_bytes d.objects
response_bytes (MeiResponse.other mei_type body) = mei_type ∷ body

front : DeviceIdentification → List ℕ
front d =
    14
    ∷ encode_id_code d.read_device_id_code
    ∷ d.conformity_level
    ∷ (if d.more_follows then 255 else 0)
    ∷ d.next_object_id
    ∷ length d.objects
    ∷ []

objects_written :
    (d : DeviceIdentification)
    → (encode_response_into (MeiResponse.read_device_identification d) []).0 ≡ ok tt
    → (length d.objects < 256) × ((for_each encode_object d.objects (front d)).0 ≡ ok tt)
unfolding encode_response_into front ◌>>=◌
objects_written d h = ground arith

pub encode_response_into-fits :
    (response : MeiResponse) → (encode_response_into response []).0 ≡ ok tt → MeiFits response
encode_response_into-fits (MeiResponse.can_open body) h = tt
encode_response_into-fits (MeiResponse.read_device_identification d) h =
    let (count, written) = objects_written d h in
    (count, for_each-checks object_item d.objects (front d) written)
encode_response_into-fits (MeiResponse.other mei_type body) h = tt

pub encode_response_into-bytes :
    (response : MeiResponse)
    → MeiFits response
    → encode_response_into response [] ≡ (ok tt, response_bytes response)
unfolding encode_response_into response_bytes front ◌>>=◌
encode_response_into-bytes (MeiResponse.can_open body) h = refl
encode_response_into-bytes (MeiResponse.read_device_identification d) (n, h) =
    ground (arith, for_each-writes object_item d.objects (front d) h)
encode_response_into-bytes (MeiResponse.other mei_type body) h = refl

decode_id_code-encode_id_code :
    (code : ReadDeviceIdCode) → decode_id_code (encode_id_code code) ≡ ok code
unfolding decode_id_code encode_id_code
decode_id_code-encode_id_code basic = refl
decode_id_code-encode_id_code regular = refl
decode_id_code-encode_id_code extended = refl
decode_id_code-encode_id_code individual = refl

objects_unit : (objects : List DeviceIdObject) → All AnyObject objects
objects_unit [] = tt
objects_unit (object ∷ objects) = (tt, objects_unit objects)

pub decode_response-bytes :
    (response : MeiResponse)
    → ResponseIsCanonical response
    → MeiFits response
    → decode_response reference (response_bytes response) ≡ ok (response, [])
unfolding decode_response response_bytes decode_more_follows reference
decode_response-bytes (MeiResponse.can_open body) t h = refl
decode_response-bytes (MeiResponse.read_device_identification d) t (n, h) = ground (
  arith,
  decode_id_code-encode_id_code d.read_device_id_code,
  run_all-all_bytes object_item d.objects h (objects_unit d.objects),
)
decode_response-bytes (MeiResponse.other mei_type body) t h = ground arith

encode_id_code-decode_id_code :
    (raw : ℕ) (code : ReadDeviceIdCode) → decode_id_code raw ≡ ok code → encode_id_code code ≡ raw
unfolding decode_id_code encode_id_code
encode_id_code-decode_id_code raw code h = ground arith

decoded_objects :
    (s rest : Input) (response : MeiResponse)
    → All IsByte s
    → decode_device_identification reference s ≡ ok (response, rest)
    → (14 ∷ s ≡ response_bytes response) × MeiFits response
unfolding decode_device_identification decode_more_follows response_bytes reference
decoded_objects (c ∷ l ∷ m ∷ n ∷ k ∷ s) rest response hb h =
    elim (Outcome-cases (decode_id_code c)) [
      | inl (code, e) ↦ elim (Outcome-cases (run_all reference s (parse_object reference))) [
        | inl (objects, f) ↦
            ground
              (arith, encode_id_code-decode_id_code c code e, run_all-items object_item s objects)
        | inr (inl (x, f)) ↦ absurd (ground arith)
        | inr (inr f) ↦ absurd (ground arith)
      ]
      | inr (inl (x, e)) ↦ absurd (ground arith)
      | inr (inr e) ↦ absurd (ground arith)
    ]
decoded_objects s rest response hb h = absurd (ground arith)

pub bytes-decode_response :
    (s : Input) (response : MeiResponse)
    → All IsByte s
    → decode_response reference s ≡ ok (response, [])
    → (s ≡ response_bytes response) × MeiFits response
unfolding decode_response response_bytes reference
bytes-decode_response [] response hb h = absurd (cc)
bytes-decode_response (t ∷ s) response hb h = ground (arith, decoded_objects s [] response hb.1)
