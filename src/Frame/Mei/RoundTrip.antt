-- ===== src/Frame/Mei/RoundTrip.antt =====
-- Decoding and encoding an Encapsulated Interface Transport body.
use rust_modbus.Prelude.{ℕ, ◌≡◌, refl, ◌≢◌, List, [], ◌∷◌, ◌++◌, append_assoc, arith, ok}
use rust_modbus.Buffer.{◌>>=◌}
use rust_modbus.Parse.Stream.{Input}
use rust_modbus.Parse.Reference.{reference}
use rust_modbus.Frame.Mei.{MeiRequest, decode_id_code, encode_id_code, decode_request}
use rust_modbus.Frame.Mei.Encode.{encode_request_into}

-- An unnamed MEI type does not hold the number of a named one.
abbrev pub MeiIsCanonical : MeiRequest → Type 0
MeiIsCanonical (MeiRequest.can_open body) = Unit {0}
MeiIsCanonical (MeiRequest.read_device_identification code object_id) = Unit {0}
MeiIsCanonical (MeiRequest.other mei_type body) = (mei_type ≢ 13) × (mei_type ≢ 14)

-- The bytes of a request body.
unfoldable pub request_bytes : MeiRequest → List ℕ
request_bytes (MeiRequest.can_open body) = 13 ∷ body
request_bytes (MeiRequest.read_device_identification code object_id) =
    14 ∷ encode_id_code code ∷ object_id ∷ []
request_bytes (MeiRequest.other mei_type body) = mei_type ∷ body

pub encode_request_into-bytes :
    (request : MeiRequest) (out : List ℕ)
    → encode_request_into request out ≡ (ok tt, out ++ request_bytes request)
unfolding encode_request_into request_bytes ◌>>=◌
encode_request_into-bytes (MeiRequest.can_open body) out = rw append_assoc
encode_request_into-bytes (MeiRequest.read_device_identification code object_id) out =
    simp append_assoc
encode_request_into-bytes (MeiRequest.other mei_type body) out = rw append_assoc

pub decode_request-bytes :
    (request : MeiRequest)
    → MeiIsCanonical request
    → decode_request reference (request_bytes request) ≡ ok (request, [])
unfolding decode_request request_bytes reference decode_id_code encode_id_code
decode_request-bytes (MeiRequest.can_open body) h = refl
decode_request-bytes (MeiRequest.read_device_identification code object_id) h = ground arith
decode_request-bytes (MeiRequest.other mei_type body) h = ground arith

pub bytes-decode_request :
    (s : Input) (request : MeiRequest)
    → decode_request reference s ≡ ok (request, [])
    → s ≡ request_bytes request
unfolding decode_request request_bytes reference decode_id_code encode_id_code
bytes-decode_request [] request h = cc
bytes-decode_request (x ∷ []) request h = ground arith
bytes-decode_request (x ∷ a ∷ []) request h = ground arith
bytes-decode_request (x ∷ a ∷ b ∷ s) request h = ground arith
