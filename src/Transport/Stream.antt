-- ===== src/Transport/Stream.antt =====
-- Framed ADUs over a byte stream (`FrameTransport`, its two halves and `AduReader` of
-- src/transport/mod.rs).
use rust_modbus.Prelude.{ℕ, Option, none, some, List, [], ok, err, stuck}
pub mod Requests
pub mod Halves
use rust_modbus.Error.{Result, ◌>>=◌}
use rust_modbus.Buffer.{Buffer}
use rust_modbus.Frame.Framing.{Framing, request, response}
use rust_modbus.Frame.Pdu.Request.{RequestPdu}
use rust_modbus.Frame.Pdu.Response.{ResponsePdu}
use rust_modbus.Transport.Reader.{Reader, new_reader, recv_adu}
use rust_modbus.Transport.Reader.Fill.{Read}

-- The state of a transport; the intervals of the configuration are in the reads.
pub record FrameTransport : Type 0 where
  pub reader : Reader
  pub outgoing : Buffer

abbrev pub new_transport : FrameTransport
new_transport = record { reader = new_reader; outgoing = [] }

-- What is left of a receive: its result, `none` while it waits.
abbrev pub decoded :
    {A : Type 0} → (List ℕ → Result A) → Option (Result (List ℕ)) → Option (Result A)
decoded decode none = none
decoded decode (some adu) = some (adu >>= decode)

-- `shared::send` with how the stream ends `write_all` and `flush`; and the bytes handed to it.
unfoldable pub send :
    Result (Unit {0}) × Buffer
    → Result (Unit {0})
    → FrameTransport
    → Result (Unit {0}) × FrameTransport × List ℕ
send (ok done, outgoing) (ok flushed) transport =
    (ok tt, record transport { outgoing = [] }, outgoing)
send (ok done, outgoing) (err error) transport =
    (err error, record transport { outgoing = outgoing }, outgoing)
send (ok done, outgoing) stuck transport =
    (stuck, record transport { outgoing = outgoing }, outgoing)
send (err error, outgoing) written transport =
    (err error, record transport { outgoing = outgoing }, [])
send (stuck, outgoing) written transport = (stuck, record transport { outgoing = outgoing }, [])

module _ (f : Framing) where
  unfoldable pub recv_request :
      FrameTransport
      → List Read
      → Option (Result (f.Header × RequestPdu)) × FrameTransport × List Read
  unfolding recv_adu
  recv_request transport reads =
      let (adu, reader, left) = recv_adu f.max_adu_len f.boundary request transport.reader reads in
      (decoded f.decode_request adu, record transport { reader = reader }, left)

  unfoldable pub recv_response :
      FrameTransport
      → List Read
      → Option (Result (f.Header × ResponsePdu)) × FrameTransport × List Read
  unfolding recv_adu
  recv_response transport reads =
      let (adu, reader, left) = recv_adu f.max_adu_len f.boundary response transport.reader reads in
      (decoded f.decode_response adu, record transport { reader = reader }, left)

  -- Over the buffer that `clear` has emptied.
  unfoldable pub send_request :
      f.Header
      → RequestPdu
      → Result (Unit {0})
      → FrameTransport
      → Result (Unit {0}) × FrameTransport × List ℕ
  unfolding send
  send_request header pdu written transport =
      send (f.encode_request_into header pdu []) written transport

  unfoldable pub send_response :
      f.Header
      → ResponsePdu
      → Result (Unit {0})
      → FrameTransport
      → Result (Unit {0}) × FrameTransport × List ℕ
  unfolding send
  send_response header pdu written transport =
      send (f.encode_response_into header pdu []) written transport
