-- ===== src/Frame/Rtu/Adu.antt =====
-- The bytes of an RTU ADU (src/frame/rtu.rs).
use rust_modbus.Prelude.{
  ℕ, ◌+◌, ◌-◌, ◌/◌, ◌%◌, ◌≤◌, ◌≡◌, sym, ◌∙◌, List, [], ◌∷◌, ◌++◌, append_assoc, arith, length, take,
  drop, All, length-append, take-append-drop, take-length-append, drop-length-append, All-drop, ok,
  err, stuck, map_ok,
}
use rust_modbus.Error.{Result}
use rust_modbus.Buffer.{Writer, ◌>>=◌}
use rust_modbus.Frame.Bytes.{IsU16, IsByte}
use rust_modbus.Frame.Framing.Wrap.{Appends}
use rust_modbus.Frame.Rtu.Split.{split_body, split}
use rust_modbus.Frame.Rtu.Wrap.{wrap_into}

module _ (crc16 : List ℕ → ℕ) where
  abbrev pub trailer : List ℕ → List ℕ
  trailer covered = crc16 covered % 256 ∷ crc16 covered / 256 % 256 ∷ []

  -- The bytes of an ADU.
  abbrev pub adu : ℕ → List ℕ → List ℕ
  adu address pdu = address ∷ pdu ++ trailer (address ∷ pdu)

  pub length-adu : (address : ℕ) (pdu : List ℕ) → length (adu address pdu) ≡ length pdu + 3
  length-adu address pdu = omega (arith, length-append pdu (trailer (address ∷ pdu)))

  pub split-adu :
      (address : ℕ) (pdu : List ℕ)
      → ((bytes : List ℕ) → IsU16 (crc16 bytes))
      → 1 ≤ length pdu
      → length pdu ≤ 253
      → split crc16 (adu address pdu) ≡ ok (address, pdu)
  unfolding split
  split-adu address pdu law l u =
      let body = address ∷ pdu in
      let size : length (adu address pdu) - 2 ≡ length body =
        omega (arith, length-adu address pdu) in
      ground (
        arith,
        length-adu address pdu,
        law body,
        size,
        take-length-append body (trailer body),
        drop-length-append body (trailer body),
      )

  appended-wrap :
      (address : ℕ) (write : Writer (Unit {0})) (pdu : List ℕ)
      → Appends write (ok pdu)
      → Appends (wrap_into crc16 address write) (ok (adu address pdu))
  unfolding wrap_into ◌>>=◌
  appended-wrap address write pdu h out = ground (
    arith,
    h (out ++ address ∷ []),
    append_assoc out (address ∷ []) pdu,
    drop-length-append out (address ∷ pdu),
    append_assoc out (address ∷ pdu) (trailer (address ∷ pdu)),
  )

  pub wrap_into-Appends :
      (address : ℕ) (write : Writer (Unit {0})) (r : Result (List ℕ))
      → Appends write r
      → Appends (wrap_into crc16 address write) (map_ok (adu address) r)
  unfolding wrap_into ◌>>=◌
  wrap_into-Appends address write (ok pdu) h out = appended-wrap address write pdu h out
  wrap_into-Appends address write (err e) h out =
      ground (arith, h (out ++ address ∷ []), take-length-append out (address ∷ []))
  wrap_into-Appends address write stuck h out =
      ground (arith, h (out ++ address ∷ []), take-length-append out (address ∷ []))

  body-adu :
      (body crc : List ℕ) (address : ℕ) (pdu : List ℕ)
      → All IsByte crc
      → split_body crc16 body crc ≡ ok (address, pdu)
      → body ++ crc ≡ adu address pdu
  unfolding split_body
  body-adu (a ∷ p) (lo ∷ hi ∷ []) address pdu hb h = ground arith
  body-adu body crc address pdu hb h = absurd (ground arith)

  split-body :
      (bytes : List ℕ) (address : ℕ) (pdu : List ℕ)
      → split crc16 bytes ≡ ok (address, pdu)
      → split_body crc16 (take (length bytes - 2) bytes) (drop (length bytes - 2) bytes)
        ≡ ok (address, pdu)
  unfolding split
  split-body bytes address pdu h = ground arith

  -- A sequence of bytes that `split` accepts is the address, the PDU and the checksum over both,
  -- low byte first.
  pub adu-split :
      (bytes : List ℕ) (address : ℕ) (pdu : List ℕ)
      → All IsByte bytes
      → split crc16 bytes ≡ ok (address, pdu)
      → bytes ≡ adu address pdu
  adu-split bytes address pdu hb h =
      sym (take-append-drop (length bytes - 2) bytes)
      ∙ body-adu _ _ address pdu (All-drop IsByte (length bytes - 2) bytes hb)
          (split-body bytes address pdu h)
