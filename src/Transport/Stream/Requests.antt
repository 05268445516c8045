-- ===== src/Transport/Stream/Requests.antt =====
-- Requests sent over TCP, one after another, and received at the other end of the stream
-- (src/transport/mod.rs, src/frame/tcp.rs).
use rust_modbus.Prelude.{
  ℕ, zero, suc, ◌≤◌, ◌≡◌, refl, sym, ap, ap₂, ◌∙◌, subst, false, Option, some, List, [], ◌∷◌, ◌++◌,
  map, append-nil, append_assoc, arith, length, take, All, ok,
}
use rust_modbus.Error.{Result}
use rust_modbus.Parse.Stream.{Winnow, IsWinnow}
use rust_modbus.Frame.Framing.{encode_request}
use rust_modbus.Frame.Pdu.Request.{RequestPdu}
use rust_modbus.Frame.Pdu.Request.Typed.{IsCanonical}
use rust_modbus.Frame.Tcp.{tcp, decode_request, tcp_decode-encode, tcp-adu_len-encode}
use rust_modbus.Frame.Tcp.Adu.{HeaderIsTyped}
use rust_modbus.Frame.Tcp.Header.{MbapHeader}
use rust_modbus.Frame.Tcp.Split.{adu_len}
use rust_modbus.Transport.Reader.{recv_adu, read_adu}
use rust_modbus.Transport.Reader.Fill.{Read, read_prefixed}
use rust_modbus.Transport.Reader.Chunks.{AreFlowing, content, Leaves, read_prefixed-chunks}
use rust_modbus.Transport.Stream.{FrameTransport, recv_request}

-- The first six bytes tell the length.
adu_len-take : (bytes : List ℕ) → 6 ≤ length bytes → adu_len (take 6 bytes) ≡ adu_len bytes
unfolding adu_len
adu_len-take (a ∷ b ∷ c ∷ d ∷ e ∷ f ∷ rest) h = refl
adu_len-take [] h = absurd (omega arith)
adu_len-take _ h = absurd (omega arith)

adu_len-long : (bytes : List ℕ) (n : ℕ) → adu_len bytes ≡ ok n → 6 ≤ length bytes
unfolding adu_len
adu_len-long (a ∷ b ∷ c ∷ d ∷ e ∷ f ∷ rest) n h = omega arith
adu_len-long [] n h = cc
adu_len-long _ n h = cc

-- A request, and the ADU that it was sent in.
pub record Message : Type 0 where
  pub header : MbapHeader
  pub pdu : RequestPdu
  pub adu : List ℕ

module _ (w : Winnow) where
  unfoldable pub IsEncoded : Message → Type 0
  IsEncoded message =
      HeaderIsTyped message.header
      × IsCanonical message.pdu
      × (encode_request (tcp w) message.header message.pdu ≡ ok message.adu)

  -- The bytes of the messages, back to back.
  unfoldable pub wire : List Message → List ℕ
  wire [] = []
  wire (message ∷ messages) = message.adu ++ wire messages

  -- As many calls of `recv_request`, one after another.
  unfoldable pub recv_requests :
      ℕ
      → FrameTransport
      → List Read
      → List (Option (Result (MbapHeader × RequestPdu))) × FrameTransport × List Read
  unfolding recv_request
  recv_requests zero transport reads = ([], transport, reads)
  recv_requests (suc n) transport reads =
      let (received, transport', left) = recv_request (tcp w) transport reads in
      let (rest, last, reads') = recv_requests n transport' left in (received ∷ rest, last, reads')

  -- A transport that is not in the middle of a receive, and these bytes buffered or to come.
  unfoldable pub Holds : List ℕ → FrameTransport → List Read → Type 0
  Holds bytes transport reads =
      (transport.reader.receiving ≡ false)
      × (transport.reader.buffer ++ content reads ≡ bytes)
      × AreFlowing reads

  -- What `recv_adu` makes of a reading that returned the ADU.
  received :
      (header : MbapHeader) (pdu : RequestPdu) (adu more : List ℕ) (transport : FrameTransport)
      (reads : List Read)
      → transport.reader.receiving ≡ false
      → decode_request w adu ≡ ok (header, pdu)
      → Leaves adu more (read_prefixed 260 6 adu_len transport.reader.buffer reads)
      → let after : Option (Result (MbapHeader × RequestPdu)) × FrameTransport × List Read =
          recv_request (tcp w) transport reads in
        (after.0 ≡ some (ok (header, pdu))) × Holds more after.1 after.2
  unfolding recv_request recv_adu read_adu Leaves Holds
  received header pdu adu more transport reads idle d (e, left, flow) =
      rw (idle, recv_adu, e) (ap some d, (refl, left, flow))

  recv_request-next :
      (message : Message) (more : List ℕ) (transport : FrameTransport) (reads : List Read)
      → IsWinnow w
      → IsEncoded message
      → Holds (message.adu ++ more) transport reads
      → let after : Option (Result (MbapHeader × RequestPdu)) × FrameTransport × List Read =
          recv_request (tcp w) transport reads in
        (after.0 ≡ some (ok (message.header, message.pdu))) × Holds more after.1 after.2
  unfolding IsEncoded Holds encode_request
  recv_request-next message more transport reads law (h, t, e) (idle, all, flow) =
      let adu = message.adu in
      let (short, len) = tcp-adu_len-encode message.header message.pdu adu [] t e in
      let told : adu_len adu ≡ ok (length adu) = ap adu_len (sym (append-nil adu)) ∙ len in
      let long : 6 ≤ length adu = adu_len-long adu (length adu) told in
      received message.header message.pdu adu more transport reads idle
        (tcp_decode-encode w message.header message.pdu adu law h t e)
        (read_prefixed-chunks 260 6 adu_len adu more transport.reader.buffer reads flow all long
          short (adu_len-take adu long ∙ told))

  -- Requests that were sent back to back over TCP, their fields in the ranges of their Rust types
  -- and without an MEI body `Other` under the type 13 or 14 of another variant, are received one
  -- for one, in order and under their headers, however the stream is cut into reads, under any
  -- `winnow` with the documented behaviour; and what follows them stays.
  pub recv_requests-wire :
      (messages : List Message) (more : List ℕ) (transport : FrameTransport) (reads : List Read)
      → IsWinnow w
      → All IsEncoded messages
      → Holds (wire messages ++ more) transport reads
      → let after : List (Option (Result (MbapHeader × RequestPdu))) × FrameTransport × List Read =
          recv_requests (length messages) transport reads in
        (after.0 ≡ map (λ message. some (ok (message.header, message.pdu))) messages)
        × Holds more after.1 after.2
  unfolding wire recv_requests
  recv_requests-wire [] more transport reads law h holds = (refl, holds)
  recv_requests-wire (message ∷ messages) more transport reads law (h, hs) holds =
      let behind = wire messages ++ more in
      let all : (message.adu ++ wire messages) ++ more ≡ message.adu ++ behind =
        append_assoc message.adu (wire messages) more in
      let first = recv_request (tcp w) transport reads in
      let (e, next) =
        recv_request-next message behind transport reads law h
          (subst (λ (bs : List ℕ). Holds bs transport reads) all holds) in
      let (es, last) = recv_requests-wire messages more first.1 first.2 law hs next in
      (ap₂ (λ r rs. r ∷ rs) e es, last)
