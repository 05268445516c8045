-- ===== src/Transport/Udp.antt =====
-- One ADU per datagram (src/transport/udp.rs). What the socket does is an argument: how it ends the
-- sending of a datagram, and the datagrams it receives, each cut to the buffer.
use rust_modbus.Prelude.{
  ℕ, zero, suc, List, [], ◌∷◌, ◌++◌, map, leb, if◌then◌else◌, length, take, drop, ok, err, stuck,
}
pub mod Datagrams
use rust_modbus.Error.{Result, ◌>>=◌}
use rust_modbus.Buffer.{Buffer}
use rust_modbus.Frame.Framing.{Framing}
use rust_modbus.Frame.Pdu.Request.{RequestPdu}
use rust_modbus.Frame.Pdu.Response.{ResponsePdu}

-- `UdpTransport`, whose halves share the socket.
pub record UdpTransport : Type 0 where
  pub outgoing : Buffer
  pub incoming : List ℕ

-- `UdpTransportReader` and `UdpTransportWriter`
pub record UdpTransportReader : Type 0 where
  pub incoming : List ℕ

pub record UdpTransportWriter : Type 0 where
  pub outgoing : Buffer

unfoldable pub zeros : ℕ → List ℕ
zeros zero = []
zeros (suc n) = 0 ∷ zeros n

-- `UdpTransport::new`
unfoldable pub new_udp : Framing → UdpTransport
unfolding zeros
new_udp f = record { outgoing = []; incoming = zeros f.max_adu_len }

unfoldable pub split : UdpTransport → UdpTransportReader × UdpTransportWriter
split transport =
    (record { incoming = transport.incoming }, record { outgoing = transport.outgoing })

-- The buffer once `bytes` have been received into its front.
abbrev pub filled : List ℕ → List ℕ → List ℕ
filled bytes incoming = bytes ++ drop (length bytes) incoming

-- `socket.recv(…)`, `incoming.get(..n).expect(…)` and the decoding; and the buffer after it.
unfoldable pub recv :
    {A : Type 0} → (List ℕ → Result A) → List ℕ → Result (List ℕ) → Result A × List ℕ
recv decode incoming (err error) = (err error, incoming)
recv decode incoming stuck = (stuck, incoming)
recv decode incoming (ok bytes) =
    let after = filled bytes incoming in
    if leb (length bytes) (length incoming)
    then (decode (take (length bytes) after), after)
    else (stuck, incoming)

-- A datagram out of `out`: the result, the buffer after it, and the datagram handed to the socket.
unfoldable pub send_datagram :
    Result (Unit {0}) × Buffer → Result (Unit {0}) → Result (Unit {0}) × Buffer × List (List ℕ)
send_datagram (ok done, out) (ok sent) = (ok tt, [], out ∷ [])
send_datagram (ok done, out) (err error) = (err error, out, out ∷ [])
send_datagram (ok done, out) stuck = (stuck, out, out ∷ [])
send_datagram (err error, out) sent = (err error, out, [])
send_datagram (stuck, out) sent = (stuck, out, [])

-- `encode_response_into` and `send_to`, which leave the datagram in the buffer of the caller.
unfoldable pub send_to :
    Result (Unit {0}) × Buffer → Result (Unit {0}) → Result (Unit {0}) × Buffer × List (List ℕ)
send_to (ok done, out) sent = (sent, out, out ∷ [])
send_to (err error, out) sent = (err error, out, [])
send_to (stuck, out) sent = (stuck, out, [])

module _ (f : Framing) where
  -- `send_request` and `send_response`, of the transport and of its write half, over the buffer
  -- that `clear` has emptied.
  unfoldable pub send_request :
      f.Header
      → RequestPdu
      → Result (Unit {0})
      → UdpTransportWriter
      → Result (Unit {0}) × UdpTransportWriter × List (List ℕ)
  unfolding send_datagram
  send_request header pdu sent transport =
      let (result, out, datagrams) = send_datagram (f.encode_request_into header pdu []) sent in
      (result, record { outgoing = out }, datagrams)

  unfoldable pub send_response :
      f.Header
      → ResponsePdu
      → Result (Unit {0})
      → UdpTransportWriter
      → Result (Unit {0}) × UdpTransportWriter × List (List ℕ)
  unfolding send_datagram
  send_response header pdu sent transport =
      let (result, out, datagrams) = send_datagram (f.encode_response_into header pdu []) sent in
      (result, record { outgoing = out }, datagrams)

  -- `recv_request` and `recv_response`, of the transport and of its read half.
  unfoldable pub recv_request :
      Result (List ℕ) → UdpTransportReader → Result (f.Header × RequestPdu) × UdpTransportReader
  unfolding recv
  recv_request datagram reader =
      let (result, incoming) = recv f.decode_request reader.incoming datagram in
      (result, record { incoming = incoming })

  unfoldable pub recv_response :
      Result (List ℕ) → UdpTransportReader → Result (f.Header × ResponsePdu) × UdpTransportReader
  unfolding recv
  recv_response datagram reader =
      let (result, incoming) = recv f.decode_response reader.incoming datagram in
      (result, record { incoming = incoming })

  -- A socket that serves many peers: the datagram comes with its sender, and the response goes to
  -- the peer it names.
  unfoldable pub recv_datagram_request :
      List ℕ → Result (List ℕ × ℕ) → Result (f.Header × RequestPdu × ℕ) × List ℕ
  unfolding recv
  recv_datagram_request buf (err error) = (err error, buf)
  recv_datagram_request buf stuck = (stuck, buf)
  recv_datagram_request buf (ok (bytes, peer)) =
      let (result, buf') = recv f.decode_request buf (ok bytes) in
      (result >>= (λ (header, pdu). ok (header, pdu, peer)), buf')

  unfoldable pub send_datagram_response_into :
      ℕ
      → f.Header
      → ResponsePdu
      → Result (Unit {0})
      → Result (Unit {0}) × Buffer × List (ℕ × List ℕ)
  unfolding send_to
  send_datagram_response_into peer header pdu sent =
      let (result, out, datagrams) = send_to (f.encode_response_into header pdu []) sent in
      (result, out, map (λ datagram. (peer, datagram)) datagrams)
