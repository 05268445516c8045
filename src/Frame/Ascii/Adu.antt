-- ===== src/Frame/Ascii/Adu.antt =====
-- The characters of an ASCII ADU (src/frame/ascii.rs).
use rust_modbus.Prelude.{
  ℕ, ◌+◌, ◌-◌, ◌*◌, ◌%◌, ◌≤◌, ◌≡◌, refl, true, some, List, [], ◌∷◌, ◌++◌, append_assoc, arith, leb,
  ◌==◌, length, All, length-append, take-length-append, drop-length-append, All-append, ok, err,
  stuck, map_ok,
}
use rust_modbus.Buffer.{owned, extend}
use rust_modbus.Frame.Framing.Wrap.{owned-Appends, extended}
use rust_modbus.Error.{Result, ensure}
use rust_modbus.Buffer.{Buffer, Writer, ◌>>=◌}
use rust_modbus.Frame.Bytes.{IsByte}
use rust_modbus.Frame.Framing.Wrap.{Appends}
use rust_modbus.Frame.Ascii.{split, split_last, split_start, split_body, split_decoded}
use rust_modbus.Frame.Ascii.Hex.{lrc, encode_hex}
use rust_modbus.Frame.Ascii.Hex.RoundTrip.{
  hex_chars, encode_hex-bytes, length-hex_chars, hex_chars-append, decode_hex-hex_chars, lrc-IsByte,
}
use rust_modbus.Frame.Ascii.Wrap.{wrap_into, write_covered}

-- The bytes of an ADU.
abbrev pub body : ℕ → List ℕ → List ℕ
body address pdu = hex_chars ((address ∷ pdu) ++ lrc (address ∷ pdu) ∷ [])

abbrev pub adu : ℕ → List ℕ → List ℕ
adu address pdu = 58 ∷ (body address pdu ++ 13 ∷ 10 ∷ [])

pub length-adu : (address : ℕ) (pdu : List ℕ) → length (adu address pdu) ≡ 2 * length pdu + 7
length-adu address pdu =
    let covered = (address ∷ pdu) ++ lrc (address ∷ pdu) ∷ [] in
    omega (
      arith,
      length-append (body address pdu) (13 ∷ 10 ∷ []),
      length-hex_chars covered,
      length-append (address ∷ pdu) (lrc (address ∷ pdu) ∷ []),
    )

split_last-append : (xs : List ℕ) (x : ℕ) → split_last (xs ++ x ∷ []) ≡ some (xs, x)
unfolding split_last
split_last-append [] x = refl
split_last-append (y ∷ xs) x = rw (split_last-append xs x) refl

decoded-adu :
    (address : ℕ) (pdu : List ℕ) (n : ℕ)
    → split_decoded n ((address ∷ pdu) ++ lrc (address ∷ pdu) ∷ []) ≡ ok (address, pdu)
unfolding split_decoded ensure split_last
decoded-adu address pdu n =
    rw (split_last-append (address ∷ pdu) (lrc (address ∷ pdu))) (ground arith)

body-adu :
    (address : ℕ) (pdu : List ℕ) (n : ℕ)
    → IsByte address
    → All IsByte pdu
    → split_body n (body address pdu) (13 ∷ 10 ∷ []) ≡ ok (address, pdu)
unfolding split_body ensure
body-adu address pdu n ha hp =
    let covered = (address ∷ pdu) ++ lrc (address ∷ pdu) ∷ [] in
    let bytes =
      All-append IsByte (address ∷ pdu) (lrc (address ∷ pdu) ∷ []) (ha, hp)
        (lrc-IsByte (address ∷ pdu), tt) in
    let even : (length (hex_chars covered) % 2 == 0) ≡ true =
      rw (length-hex_chars covered) (ground arith) in
    rw (even, decode_hex-hex_chars covered bytes) (decoded-adu address pdu n)

start-adu :
    (address : ℕ) (pdu : List ℕ)
    → IsByte address
    → All IsByte pdu
    → split_start (adu address pdu) ≡ ok (address, pdu)
unfolding split_start ensure
start-adu address pdu ha hp =
    let b = body address pdu in
    let size : length (b ++ 13 ∷ 10 ∷ []) - 2 ≡ length b =
      omega (arith, length-append b (13 ∷ 10 ∷ [])) in
    rw (size, take-length-append b (13 ∷ 10 ∷ []), drop-length-append b (13 ∷ 10 ∷ []))
      (body-adu address pdu _ ha hp)

-- What `wrap_into` writes for a PDU of 1 to 253 bytes is what `split` reads.
pub split-adu :
    (address : ℕ) (pdu : List ℕ)
    → IsByte address
    → All IsByte pdu
    → 1 ≤ length pdu
    → length pdu ≤ 253
    → split (adu address pdu) ≡ ok (address, pdu)
unfolding split ensure
split-adu address pdu ha hp l u =
    let fits : leb (length (adu address pdu)) 513 ≡ true =
      rw (length-adu address pdu) (ground arith) in
    let enough : leb 9 (length (adu address pdu)) ≡ true =
      rw (length-adu address pdu) (ground arith) in
    rw (fits, enough) (start-adu address pdu ha hp)

covered-bytes :
    (covered : List ℕ) (out : Buffer)
    → write_covered covered out
      ≡ (ok tt, out ++ (58 ∷ (hex_chars (covered ++ lrc covered ∷ []) ++ 13 ∷ 10 ∷ [])))
unfolding write_covered encode_hex hex_chars ◌>>=◌
covered-bytes covered out =
    rw (encode_hex-bytes covered (out ++ 58 ∷ []), hex_chars-append covered (lrc covered ∷ []))
      (simp append_assoc)

pub wrap_into-Appends :
    (address : ℕ) (write : Writer (Unit {0})) (r : Result (List ℕ))
    → Appends write r
    → Appends (wrap_into address write) (map_ok (adu address) r)
unfolding wrap_into
wrap_into-Appends address write (ok pdu) h out =
    rw (h (address ∷ [])) (covered-bytes (address ∷ pdu) out)
wrap_into-Appends address write (err e) h out = rw (h (address ∷ [])) refl
wrap_into-Appends address write stuck h out = rw (h (address ∷ [])) refl

-- What `wrap_into` writes for a PDU of 1 to 253 bytes is at most 513 characters, from which `split`
-- reads the address and the PDU.
pub split-wrap_into :
    (address : ℕ) (pdu : List ℕ)
    → IsByte address
    → All IsByte pdu
    → 1 ≤ length pdu
    → length pdu ≤ 253
    → (bs : List ℕ) × (owned (wrap_into address (extend pdu)) ≡ ok bs)
      × (length bs ≤ 513)
      × (split bs ≡ ok (address, pdu))
split-wrap_into address pdu ha hp l u = (
  adu address pdu,
  owned-Appends _ _ (wrap_into-Appends address (extend pdu) (ok pdu) (extended pdu)),
  omega (arith, length-adu address pdu),
  split-adu address pdu ha hp l u,
)
