-- ===== src/Transport/Udp/Datagrams.antt =====
-- Requests and responses over datagrams (src/transport/udp.rs).
use rust_modbus.Prelude.{
  ℕ, ◌≤◌, ◌≡◌, refl, sym, ap₂, ◌∙◌, subst, inl, inr, true, List, [], ◌∷◌, map, arith, leb,
  Bool-cases, length, drop, All, length-append, length-drop, take-length-append, ok, err, stuck,
  and_then,
}
use rust_modbus.Error.{Result}
use rust_modbus.Buffer.Relative.{appended}
use rust_modbus.Frame.Framing.{Framing, IsFraming, encode_request}
use rust_modbus.Frame.Pdu.Request.{RequestPdu}
use rust_modbus.Frame.Pdu.Request.Typed.{IsCanonical}
use rust_modbus.Transport.Udp.{
  UdpTransportReader, UdpTransportWriter, recv, send_datagram, send_request, recv_request,
}

-- A datagram that fits is decoded as it came, whatever the buffer held, and the buffer keeps its
-- size.
recv-decodes :
    {A : Type 0} (decode : List ℕ → Result A) (incoming bytes : List ℕ)
    → length bytes ≤ length incoming
    → (recv decode incoming (ok bytes)).0 ≡ decode bytes
unfolding recv
recv-decodes decode incoming bytes h =
    let fits : leb (length bytes) (length incoming) ≡ true = ground arith in
    rw (fits, take-length-append bytes (drop (length bytes) incoming)) refl

recv-length :
    {A : Type 0} (decode : List ℕ → Result A) (incoming : List ℕ) (datagram : Result (List ℕ))
    → length (recv decode incoming datagram).1 ≡ length incoming
unfolding recv
recv-length decode incoming (err error) = refl
recv-length decode incoming stuck = refl
recv-length decode incoming (ok bytes) = elim (Bool-cases (leb (length bytes) (length incoming))) [
  | inl e ↦
      let fits : length bytes ≤ length incoming = ground arith in
      rw (e, recv)
        (rw
          (length-append bytes (drop (length bytes) incoming), length-drop (length bytes) incoming)
          (omega arith))
  | inr e ↦ rw (e, recv) refl
]

module _ (f : Framing) where
  -- As many calls of `recv_request`, one after another, with what the socket gives them.
  unfoldable pub recv_requests :
      List (Result (List ℕ)) → UdpTransportReader → List (Result (f.Header × RequestPdu))
  unfolding recv_request
  recv_requests [] reader = []
  recv_requests (datagram ∷ datagrams) reader =
      let (result, reader') = recv_request f datagram reader in
      result ∷ recv_requests datagrams reader'

  -- What each call makes of its own datagram alone.
  unfoldable pub alone : Result (List ℕ) → Result (f.Header × RequestPdu)
  alone datagram = and_then datagram f.decode_request

  -- The datagrams fit a buffer of this size.
  unfoldable pub Fits : ℕ → Result (List ℕ) → Type 0
  Fits n (ok bytes) = length bytes ≤ n
  Fits n (err error) = Unit {0}
  Fits n stuck = Unit {0}

  recv_request-alone :
      (datagram : Result (List ℕ)) (reader : UdpTransportReader)
      → Fits (length reader.incoming) datagram
      → (recv_request f datagram reader).0 ≡ alone datagram
  unfolding recv_request recv Fits alone
  recv_request-alone (ok bytes) reader h = recv-decodes f.decode_request reader.incoming bytes h
  recv_request-alone (err error) reader h = refl
  recv_request-alone stuck reader h = refl

  -- Every datagram that fits the buffer is received as what it decodes to, or as the failure of
  -- the socket or of its own decoding, whatever came before it: no failure and no earlier datagram
  -- makes a difference to a later one.
  pub recv_requests-alone :
      (datagrams : List (Result (List ℕ))) (reader : UdpTransportReader)
      → All (Fits (length reader.incoming)) datagrams
      → recv_requests datagrams reader ≡ map alone datagrams
  unfolding recv_requests
  recv_requests-alone [] reader h = refl
  recv_requests-alone (datagram ∷ datagrams) reader (h, hs) =
      let after : UdpTransportReader = (recv_request f datagram reader).1 in
      let size : length reader.incoming ≡ length after.incoming =
        sym (recv-length f.decode_request reader.incoming datagram) in
      ap₂ (λ r rs. r ∷ rs) (recv_request-alone datagram reader h)
        (recv_requests-alone datagrams after (subst (λ (n : ℕ). All (Fits n) datagrams) size hs))

  -- Under a framing that keeps its laws, a request that encodes, its fields in the ranges of their
  -- Rust types, without an MEI body `Other` under the type 13 or 14 of another variant, and under a
  -- header that the laws admit, goes out as one datagram of at most the framing's length, and the
  -- other end, with a buffer of that length whatever it holds, receives that datagram as the same
  -- header and request.
  pub send_request-received :
      {IsHeader : f.Header → Type 0} (header : f.Header) (pdu : RequestPdu) (bs : List ℕ)
      (writer : UdpTransportWriter) (reader : UdpTransportReader)
      → IsFraming f IsHeader
      → IsHeader header
      → IsCanonical pdu
      → encode_request f header pdu ≡ ok bs
      → length reader.incoming ≡ f.max_adu_len
      → (send_request f header pdu (ok tt) writer ≡ (ok tt, record { outgoing = [] }, bs ∷ []))
        × (length bs ≤ f.max_adu_len)
        × ((recv_request f (ok bs) reader).0 ≡ ok (header, pdu))
  unfolding send_request send_datagram recv_request
  send_request-received header pdu bs writer reader law hh ht e size =
      let short : length bs ≤ f.max_adu_len = law.bounded header pdu bs ht e in
      let fits : length bs ≤ length reader.incoming = omega arith in
      let wrote = law.appends header pdu [] ht in
      (
        rw wrote (rw (e, appended) refl),
        short,
        recv-decodes f.decode_request reader.incoming bs fits ∙ law.reads header pdu bs hh ht e,
      )
