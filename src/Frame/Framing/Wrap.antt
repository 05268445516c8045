-- ===== src/Frame/Framing/Wrap.antt =====
-- What the framings' `wrap_into` share: a writer that appends the bytes of a PDU or fails.
use rust_modbus.Prelude.{ℕ, ◌≤◌, ◌≡◌, refl, List, [], ◌∷◌, arith, length, ok, err, stuck, map_ok}
use rust_modbus.Buffer.{extend}
use rust_modbus.Error.{Result}
use rust_modbus.Buffer.{Buffer, Writer, owned}
use rust_modbus.Buffer.Relative.{appended}
use rust_modbus.Parse.Reference.{reference, reference-IsWinnow}
use rust_modbus.Frame.Pdu.Request.{RequestPdu, decode}
use rust_modbus.Frame.Pdu.Response
use rust_modbus.Frame.Pdu.Response.{ResponsePdu}
use rust_modbus.Frame.Pdu.Response.Typed
use rust_modbus.Frame.Pdu.Response.Write
use rust_modbus.Frame.Pdu.Response.Appends.{encode-bounded}
use rust_modbus.Frame.Pdu.Response.Decodes.{response_decode-encode}
use rust_modbus.Frame.Pdu.Request.Typed.{IsCanonical}
use rust_modbus.Frame.Pdu.Request.Write.{encode}
use rust_modbus.Frame.Pdu.Request.Decodes.{request_decode-encode}

-- The writer appends the bytes of `r`, or fails with its error and appends nothing.
abbrev pub Appends : Writer (Unit {0}) → Result (List ℕ) → Type 0
Appends write r = (out : Buffer) → write out ≡ appended out r

pub owned_appended : (r : Result (List ℕ)) → map_ok (λ _. (appended [] r).1) (appended [] r).0 ≡ r
owned_appended (ok bs) = refl
owned_appended (err e) = refl
owned_appended stuck = refl

pub owned-Appends :
    (write : Writer (Unit {0})) (r : Result (List ℕ)) → Appends write r → owned write ≡ r
unfolding owned
owned-Appends write r h = rw (h []) (owned_appended r)

decode-size :
    (pdu : RequestPdu) (bs : List ℕ)
    → decode reference bs ≡ ok pdu
    → (1 ≤ length bs) × (length bs ≤ 253)
unfolding decode reference
decode-size pdu [] h = absurd (ground arith)
decode-size pdu (b ∷ bs) h = ground arith

-- For a canonical request, the bytes that `encode` returns are at least 1 and at most 253.
pub encode-size :
    (pdu : RequestPdu) (bs : List ℕ)
    → IsCanonical pdu
    → encode pdu ≡ ok bs
    → (1 ≤ length bs) × (length bs ≤ 253)
encode-size pdu bs t h =
    decode-size pdu bs (request_decode-encode reference pdu bs reference-IsWinnow t h)

decode-response_size :
    (pdu : ResponsePdu) (bs : List ℕ) → Response.decode reference bs ≡ ok pdu → 1 ≤ length bs
unfolding Response.decode reference
decode-response_size pdu [] h = absurd (ground arith)
decode-response_size pdu (b ∷ bs) h = omega arith

-- The same of a response.
pub encode-response_size :
    (pdu : ResponsePdu) (bs : List ℕ)
    → Response.Typed.IsCanonical pdu
    → Response.Write.encode pdu ≡ ok bs
    → (1 ≤ length bs) × (length bs ≤ 253)
encode-response_size pdu bs t h = (
  decode-response_size _ bs (response_decode-encode reference pdu bs reference-IsWinnow t h),
  encode-bounded pdu bs h,
)

pub extended : (bytes : List ℕ) → Appends (extend bytes) (ok bytes)
unfolding extend
extended bytes out = refl
