-- ===== src/Transport/Stream/Halves.antt =====
-- The halves of a transport and the raw reader (`split`, `FrameTransportReader`,
-- `FrameTransportWriter` and `AduReader` of src/transport/mod.rs).
use rust_modbus.Prelude.{ℕ, ◌≡◌, refl, sym, ap, Option, List, [], ◌∷◌, ok, err, stuck}
use rust_modbus.Error.{Result}
use rust_modbus.Buffer.{Buffer}
use rust_modbus.Frame.Framing.{Framing, Direction, request, response}
use rust_modbus.Frame.Pdu.Request.{RequestPdu}
use rust_modbus.Frame.Pdu.Response.{ResponsePdu}
use rust_modbus.Transport.Reader.{Reader, new_reader, recv_adu}
use rust_modbus.Transport.Reader.Fill.{Read}
use rust_modbus.Transport.Stream.{FrameTransport, decoded, send}
use rust_modbus.Transport.Stream

pub record AduReader : Type 0 where
  pub reader : Reader
  pub direction : Direction

-- `AduReader::with_config`
abbrev pub new_adu_reader : Direction → AduReader
new_adu_reader direction = record { reader = new_reader; direction = direction }

pub record FrameTransportReader : Type 0 where
  pub reader : Reader

pub record FrameTransportWriter : Type 0 where
  pub outgoing : Buffer

unfoldable pub split : FrameTransport → FrameTransportReader × FrameTransportWriter
split transport = (record { reader = transport.reader }, record { outgoing = transport.outgoing })

-- `shared::send` over the buffer of the write half.
unfoldable pub send_half :
    Result (Unit {0}) × Buffer
    → Result (Unit {0})
    → Result (Unit {0}) × FrameTransportWriter × List ℕ
send_half (ok done, outgoing) (ok flushed) = (ok tt, record { outgoing = [] }, outgoing)
send_half (ok done, outgoing) (err error) = (err error, record { outgoing = outgoing }, outgoing)
send_half (ok done, outgoing) stuck = (stuck, record { outgoing = outgoing }, outgoing)
send_half (err error, outgoing) written = (err error, record { outgoing = outgoing }, [])
send_half (stuck, outgoing) written = (stuck, record { outgoing = outgoing }, [])

module _ (f : Framing) where
  -- `AduReader::recv_adu`
  unfoldable pub recv_raw : AduReader → List Read → Option (Result (List ℕ)) × AduReader × List Read
  unfolding recv_adu
  recv_raw raw reads =
      let (adu, reader, left) = recv_adu f.max_adu_len f.boundary raw.direction raw.reader reads in
      (adu, record raw { reader = reader }, left)

  unfoldable pub recv_request :
      FrameTransportReader
      → List Read
      → Option (Result (f.Header × RequestPdu)) × FrameTransportReader × List Read
  unfolding recv_adu
  recv_request half reads =
      let (adu, reader, left) = recv_adu f.max_adu_len f.boundary request half.reader reads in
      (decoded f.decode_request adu, record { reader = reader }, left)

  unfoldable pub recv_response :
      FrameTransportReader
      → List Read
      → Option (Result (f.Header × ResponsePdu)) × FrameTransportReader × List Read
  unfolding recv_adu
  recv_response half reads =
      let (adu, reader, left) = recv_adu f.max_adu_len f.boundary response half.reader reads in
      (decoded f.decode_response adu, record { reader = reader }, left)

  unfoldable pub send_request :
      f.Header
      → RequestPdu
      → Result (Unit {0})
      → FrameTransportWriter
      → Result (Unit {0}) × FrameTransportWriter × List ℕ
  unfolding send_half
  send_request header pdu written half = send_half (f.encode_request_into header pdu []) written

  unfoldable pub send_response :
      f.Header
      → ResponsePdu
      → Result (Unit {0})
      → FrameTransportWriter
      → Result (Unit {0}) × FrameTransportWriter × List ℕ
  unfolding send_half
  send_response header pdu written half = send_half (f.encode_response_into header pdu []) written

  -- The uses of a transport, in any order, and what each comes to.
  pub data Use : Type 0 where
    sends_request : f.Header → RequestPdu → (written : Result (Unit {0})) → Use
    sends_response : f.Header → ResponsePdu → (written : Result (Unit {0})) → Use
    receives_request receives_response : Use

  pub data Came : Type 0 where
    sent : Result (Unit {0}) → (bytes : List ℕ) → Came
    request_came : Option (Result (f.Header × RequestPdu)) → Came
    response_came : Option (Result (f.Header × ResponsePdu)) → Came

  -- One use of a whole transport.
  unfoldable pub use_whole : Use → FrameTransport → List Read → Came × FrameTransport × List Read
  unfolding Stream.recv_request Stream.recv_response Stream.send_request Stream.send_response
  use_whole (sends_request header pdu written) transport reads =
      let (result, transport', bytes) = Stream.send_request f header pdu written transport in
      (sent result bytes, transport', reads)
  use_whole (sends_response header pdu written) transport reads =
      let (result, transport', bytes) = Stream.send_response f header pdu written transport in
      (sent result bytes, transport', reads)
  use_whole receives_request transport reads =
      let (came, transport', left) = Stream.recv_request f transport reads in
      (request_came came, transport', left)
  use_whole receives_response transport reads =
      let (came, transport', left) = Stream.recv_response f transport reads in
      (response_came came, transport', left)

  -- The same use of the halves: a send of the one, a receive of the other.
  unfoldable pub use_halves :
      Use
      → FrameTransportReader × FrameTransportWriter
      → List Read
      → Came × (FrameTransportReader × FrameTransportWriter) × List Read
  unfolding recv_request recv_response send_request send_response
  use_halves (sends_request header pdu written) (reader, writer) reads =
      let (result, writer', bytes) = send_request header pdu written writer in
      (sent result bytes, (reader, writer'), reads)
  use_halves (sends_response header pdu written) (reader, writer) reads =
      let (result, writer', bytes) = send_response header pdu written writer in
      (sent result bytes, (reader, writer'), reads)
  use_halves receives_request (reader, writer) reads =
      let (came, reader', left) = recv_request reader reads in
      (request_came came, (reader', writer), left)
  use_halves receives_response (reader, writer) reads =
      let (came, reader', left) = recv_response reader reads in
      (response_came came, (reader', writer), left)

  unfoldable pub uses_whole :
      List Use → FrameTransport → List Read → List Came × FrameTransport × List Read
  unfolding use_whole
  uses_whole [] transport reads = ([], transport, reads)
  uses_whole (u ∷ uses) transport reads =
      let (came, transport', left) = use_whole u transport reads in
      let (rest, last, left') = uses_whole uses transport' left in (came ∷ rest, last, left')

  unfoldable pub uses_halves :
      List Use
      → FrameTransportReader × FrameTransportWriter
      → List Read
      → List Came × (FrameTransportReader × FrameTransportWriter) × List Read
  unfolding use_halves
  uses_halves [] halves reads = ([], halves, reads)
  uses_halves (u ∷ uses) halves reads =
      let (came, halves', left) = use_halves u halves reads in
      let (rest, last, left') = uses_halves uses halves' left in (came ∷ rest, last, left')

-- What a use comes to, with the transport after it taken apart.
abbrev pub taken_apart :
    {A : Type 0}
    → A × FrameTransport × List Read
    → A × (FrameTransportReader × FrameTransportWriter) × List Read
taken_apart (came, transport, reads) = (came, split transport, reads)

-- What a send comes to, with both halves after it.
abbrev of_whole :
    Result (Unit {0}) × FrameTransport × List ℕ
    → Result (Unit {0}) × (FrameTransportReader × FrameTransportWriter) × List ℕ
of_whole (result, transport, bytes) = (result, split transport, bytes)

abbrev of_half :
    FrameTransportReader
    → Result (Unit {0}) × FrameTransportWriter × List ℕ
    → Result (Unit {0}) × (FrameTransportReader × FrameTransportWriter) × List ℕ
of_half reader (result, writer, bytes) = (result, (reader, writer), bytes)

send_half-send :
    (encoded : Result (Unit {0}) × Buffer) (written : Result (Unit {0}))
    (transport : FrameTransport)
    → of_whole (send encoded written transport)
      ≡ of_half (split transport).0 (send_half encoded written)
unfolding send send_half split
send_half-send (ok done, outgoing) (ok flushed) transport = refl
send_half-send (ok done, outgoing) (err error) transport = refl
send_half-send (ok done, outgoing) stuck transport = refl
send_half-send (err error, outgoing) written transport = refl
send_half-send (stuck, outgoing) written transport = refl

module _ (f : Framing) where
  use-taken_apart :
      (u : Use f) (transport : FrameTransport) (reads : List Read)
      → taken_apart (use_whole f u transport reads) ≡ use_halves f u (split transport) reads
  unfolding use_whole use_halves Stream.recv_request Stream.recv_response Stream.send_request
      Stream.send_response recv_request recv_response send_request send_response split
  use-taken_apart (sends_request header pdu written) transport reads =
      ap (λ r. (sent r.0 r.2, r.1, reads))
        (send_half-send (f.encode_request_into header pdu []) written transport)
  use-taken_apart (sends_response header pdu written) transport reads =
      ap (λ r. (sent r.0 r.2, r.1, reads))
        (send_half-send (f.encode_response_into header pdu []) written transport)
  use-taken_apart receives_request transport reads = refl
  use-taken_apart receives_response transport reads = refl

  -- Sends and receives, in any order, come to the same over the two halves of a transport as over
  -- the whole of it: every result and every byte sent, what is left of the stream, and the state
  -- that the halves are in, which is that of the whole taken apart.
  pub uses_halves-split :
      (uses : List (Use f)) (transport : FrameTransport) (reads : List Read)
      → uses_halves f uses (split transport) reads ≡ taken_apart (uses_whole f uses transport reads)
  unfolding uses_whole uses_halves
  uses_halves-split [] transport reads = refl
  uses_halves-split (u ∷ uses) transport reads =
      let (came, transport', left) = use_whole f u transport reads in
      rw (sym (use-taken_apart u transport reads))
        (rw (uses_halves-split uses transport' left) refl)
