-- ===== src/Frame/Tcp/Adu.antt =====
-- The bytes of a TCP ADU (src/frame/tcp.rs).
use rust_modbus.Prelude.{
  ℕ, ◌+◌, ◌-◌, ◌/◌, ◌%◌, ◌≤◌, ◌≡◌, refl, List, [], ◌∷◌, ◌++◌, append_assoc, arith, length,
  length-append, take-length-append, ok, err, stuck, map_ok, set, set-append,
}
use rust_modbus.Error.{Error, Result}
use rust_modbus.Buffer.{Buffer, Writer, ◌>>=◌}
use rust_modbus.Frame.Bytes.{be_bytes, IsU16, IsByte}
use rust_modbus.Frame.Framing.Wrap.{Appends}
use rust_modbus.Frame.Tcp.Header.{MbapHeader}
use rust_modbus.Frame.Tcp.Split.{adu_len, split}
use rust_modbus.Frame.Tcp.Wrap.{wrap_into}

-- The bytes of an ADU.
abbrev pub adu : MbapHeader → List ℕ → List ℕ
adu header pdu =
    header.transaction_id / 256 % 256
    ∷ header.transaction_id % 256
    ∷ 0
    ∷ 0
    ∷ (length pdu + 1) / 256 % 256
    ∷ (length pdu + 1) % 256
    ∷ header.unit_id
    ∷ pdu

abbrev pub HeaderIsTyped : MbapHeader → Type 0
HeaderIsTyped header = IsU16 header.transaction_id × IsByte header.unit_id

pub split-adu :
    (header : MbapHeader) (pdu : List ℕ)
    → HeaderIsTyped header
    → 1 ≤ length pdu
    → length pdu ≤ 253
    → split (adu header pdu) ≡ ok (header, pdu)
unfolding split
split-adu header pdu t l u = ground arith

pub adu_len-adu :
    (header : MbapHeader) (pdu more : List ℕ)
    → length pdu ≤ 253
    → adu_len (adu header pdu ++ more) ≡ ok (length (adu header pdu))
unfolding adu_len
adu_len-adu header pdu more u = ground arith

abbrev head : MbapHeader → List ℕ
head header =
    header.transaction_id / 256 % 256
    ∷ header.transaction_id % 256
    ∷ 0
    ∷ 0
    ∷ 0
    ∷ 0
    ∷ header.unit_id
    ∷ []

-- The buffer that the PDU is written to.
abbrev placed : MbapHeader → Buffer → Buffer
placed header out =
    (((out ++ be_bytes header.transaction_id) ++ be_bytes 0) ++ be_bytes 0) ++ header.unit_id ∷ []

placed_lem : (header : MbapHeader) (out : Buffer) → placed header out ≡ out ++ head header
placed_lem header out = simp append_assoc

patched :
    (out : Buffer) (header : MbapHeader) (pdu : List ℕ) (a b : ℕ)
    → set (set ((out ++ head header) ++ pdu) (length out + 4) a) (length out + 5) b
      ≡ out ++ set (set (head header ++ pdu) 4 a) 5 b
patched out header pdu a b =
    rw (append_assoc out (head header) pdu, set-append out (head header ++ pdu) 4 a)
      (set-append out (set (head header ++ pdu) 4 a) 5 b)

measured :
    (out : Buffer) (header : MbapHeader) (pdu : List ℕ)
    → (length ((out ++ head header) ++ pdu) - length (out ++ head header)) ≡ length pdu
measured out header pdu = rw (length-append (out ++ head header) pdu) (omega arith)

wrap_into-appended :
    (header : MbapHeader) (write : Writer (Unit {0})) (pdu : List ℕ)
    → Appends write (ok pdu)
    → length pdu ≤ 253
    → Appends (wrap_into header write) (ok (adu header pdu))
unfolding wrap_into ◌>>=◌
wrap_into-appended header write pdu h u out = ground (
  arith,
  placed_lem header out,
  h (out ++ head header),
  measured out header pdu,
  patched out header pdu ((length pdu + 1) / 256 % 256) ((length pdu + 1) % 256),
)

wrap_into-err :
    (header : MbapHeader) (write : Writer (Unit {0})) (e : Error)
    → Appends write (err e)
    → Appends (wrap_into header write) (err e)
unfolding wrap_into ◌>>=◌
wrap_into-err header write e h out =
    ground
      (arith, placed_lem header out, h (out ++ head header), take-length-append out (head header))

wrap_into-stuck :
    (header : MbapHeader) (write : Writer (Unit {0}))
    → Appends write stuck
    → Appends (wrap_into header write) stuck
unfolding wrap_into ◌>>=◌
wrap_into-stuck header write h out =
    ground
      (arith, placed_lem header out, h (out ++ head header), take-length-append out (head header))

pub wrap_into-Appends :
    (header : MbapHeader) (write : Writer (Unit {0})) (r : Result (List ℕ))
    → ((pdu : List ℕ) → r ≡ ok pdu → length pdu ≤ 253)
    → Appends write r
    → Appends (wrap_into header write) (map_ok (adu header) r)
wrap_into-Appends header write (ok pdu) u h = wrap_into-appended header write pdu h (u pdu refl)
wrap_into-Appends header write (err e) u h = wrap_into-err header write e h
wrap_into-Appends header write stuck u h = wrap_into-stuck header write h
