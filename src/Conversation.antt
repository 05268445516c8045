-- ===== src/Conversation.antt =====
-- A client and a server over one framing (src/client/mod.rs, src/server/mod.rs, src/frame).
use rust_modbus.Prelude.{ℕ, ◌≡◌, refl, ◌∙◌, true, false, Option, some, List, [], ◌∷◌, ok}
pub mod Framings
pub mod Reads
use rust_modbus.Error.{Result}
use rust_modbus.Frame.Bytes.{IsByte, IsU16}
use rust_modbus.Frame.Framing.{Framing, IsFraming, encode_request, encode_response}
use rust_modbus.Frame.Pdu.Request.{RequestPdu, function}
use rust_modbus.Frame.Pdu.Request.Typed.{IsCanonical}
use rust_modbus.Frame.Pdu.Request.Write.{encode}
use rust_modbus.Frame.Pdu.Response.{ResponsePdu}
use rust_modbus.Frame.Pdu.Response.Typed
use rust_modbus.Frame.Pdu.Response.Typed.{padded}
use rust_modbus.Frame.Pdu.Response.Write
use rust_modbus.Frame.Pdu.Response
use rust_modbus.Client.Framing.{ClientFraming}
use rust_modbus.Client.Transaction.{next}
use rust_modbus.Client.Call.{
  Client, Turn, Called, answered, is_desynchronized, call, after_encode, after_write,
}
use rust_modbus.Client.Call.Answer.{checked, receive-matched}
use rust_modbus.Server.Framing.{ServerFraming}
use rust_modbus.Server.Service.{Service, Connection}
use rust_modbus.Server.Exchange.{
  ServerConfig, Progress, received, is_other, response_of, goes_on, pass, on_frame, dispatch, send,
}

-- The client's and the server's view of the headers of one framing agree.
pub record IsPaired (f : Framing) (IsHeader : f.Header → Type 0) (client : ClientFraming f.Header)
    (server : ServerFraming f.Header) : Type 0 where
  pub builds :
      (unit transaction : ℕ)
      → IsByte unit
      → IsU16 transaction
      → IsHeader (client.request_header unit transaction)
  pub addresses :
      (unit transaction : ℕ) → server.unit (client.request_header unit transaction) ≡ unit
  pub answers : (header : f.Header) → client.is_response_to header header ≡ true
  pub broadcasts : (unit : ℕ) → server.is_broadcast unit ≡ client.is_broadcast unit

module _ (f : Framing) {IsHeader : f.Header → Type 0} (law : IsFraming f IsHeader)
    (framing : ClientFraming f.Header) (serving : ServerFraming f.Header)
    (paired : IsPaired f IsHeader framing serving) {State : Type 0} (service : Service State)
    (config : ServerConfig) (conn : Connection) where
  -- The turn of a call that is written, and that `reply` comes back to, ahead of the rest.
  abbrev pub answered_by : List ℕ → List (Result (f.Header × ResponsePdu)) → Turn f.Header
  answered_by reply arrivals = record {
    written = ok tt;
    arrivals = f.decode_response reply ∷ arrivals;
  }

  -- What the server does with the bytes of a request, when its write of the response succeeds.
  abbrev pub served : List ℕ → State → Progress f.Header State
  served bytes state =
      pass serving f.boundary service config conn (received (f.decode_request bytes) (ok tt)) state

  on_frame-served :
      (header : f.Header) (unit : ℕ) (request : RequestPdu) (response : ResponsePdu) (state : State)
      → serving.unit header ≡ unit
      → serving.is_broadcast unit ≡ false
      → is_other config.unit unit ≡ false
      → response_of (function request) (service.on_request conn unit request state).0
        ≡ some response
      → on_frame serving f.boundary service config conn header request (ok tt) state
        ≡ goes_on (service.on_request conn unit request state).1 ((header, response) ∷ [])
  unfolding on_frame dispatch send
  on_frame-served header unit request response state to single own answer =
      rw to (rw (single, own) (rw (to, dispatch) (rw (answer, dispatch) (rw (to, single) refl))))

  call-answered :
      (client : Client) (unit : ℕ) (request : RequestPdu) (pdu reply : List ℕ)
      (response : ResponsePdu) (arrivals : List (Result (f.Header × ResponsePdu)))
      → is_desynchronized client ≡ false
      → framing.is_broadcast unit ≡ false
      → encode request ≡ ok pdu
      → f.decode_response reply ≡ ok (framing.request_header unit client.next_transaction, response)
      → let called : Called f.Header (Option ResponsePdu) =
          call framing f.boundary (answered_by reply arrivals) unit request client in
        (called.result ≡ checked framing f.boundary request response)
        × (called.client
            ≡ record { next_transaction = next client.next_transaction; state = answered })
  unfolding call after_encode after_write
  call-answered client unit request pdu reply response arrivals live single e d =
      let sent = framing.request_header unit client.next_transaction in
      let client' : Client = record client { next_transaction = next client.next_transaction } in
      let matched =
        receive-matched framing f.boundary sent request sent response arrivals client'
          (paired.answers sent) in
      rw live (rw (e, after_encode) (rw (single, d, matched) (refl, refl)))

  -- What a call to a server leads to: the request and the response on the wire, the one response
  -- that the server sends, under the header of the request, and what the client returns.
  abbrev pub IsRoundTrip :
      Client
      → ℕ
      → RequestPdu
      → ResponsePdu
      → List (Result (f.Header × ResponsePdu))
      → State
      → Type 0
  IsRoundTrip client unit request response arrivals state =
      let sent : f.Header = framing.request_header unit client.next_transaction in
      (bytes reply : List ℕ) × (encode_request f sent request ≡ ok bytes)
      × (encode_response f sent response ≡ ok reply)
      × (served bytes state
          ≡ goes_on (service.on_request conn unit request state).1 ((sent, response) ∷ []))
      × ((call framing f.boundary (answered_by reply arrivals) unit request client).result
          ≡ checked framing f.boundary request (padded response))
      × ((call framing f.boundary (answered_by reply arrivals) unit request client).client
          ≡ record { next_transaction = next client.next_transaction; state = answered })

  -- A call whose request and whose response, given by the service, both encode, with fields in the
  -- ranges of their Rust types and without an MEI body `Other` under the type 13 or 14 of another
  -- variant, under a framing that keeps its laws and whose headers both sides read alike: the
  -- framing writes both, the server reads the request, passes it to the service and sends the one
  -- response under the header of the request, and the client checks that response against the
  -- request, the bits of a read filled up to whole bytes, and counts as answered. The client is
  -- usable, and the unit is no broadcast and one that the server's configuration serves.
  pub round_trip :
      (client : Client) (unit : ℕ) (request : RequestPdu) (response : ResponsePdu)
      (pdu reply_pdu : List ℕ) (arrivals : List (Result (f.Header × ResponsePdu))) (state : State)
      → is_desynchronized client ≡ false
      → IsByte unit × IsU16 client.next_transaction
      → framing.is_broadcast unit ≡ false
      → is_other config.unit unit ≡ false
      → IsCanonical request
      → encode request ≡ ok pdu
      → response_of (function request) (service.on_request conn unit request state).0
        ≡ some response
      → Response.Typed.IsCanonical response
      → Response.Write.encode response ≡ ok reply_pdu
      → IsRoundTrip client unit request response arrivals state
  unfolding pass
  round_trip client unit request response pdu reply_pdu arrivals state live (hu, ht) single own t e
        answer typed er =
      let sent : f.Header = framing.request_header unit client.next_transaction in
      let header : IsHeader sent = paired.builds unit client.next_transaction hu ht in
      let (bytes, eb) = law.accepts sent request pdu t e in
      let (reply, ey) = law.accepts_response sent response reply_pdu er in
      let to : serving.unit sent ≡ unit = paired.addresses unit client.next_transaction in
      let alone : serving.is_broadcast unit ≡ false = paired.broadcasts unit ∙ single in
      let read = law.reads sent request bytes header t eb in
      let back = law.reads_response sent response reply header typed ey in
      let (result, after) =
        call-answered client unit request pdu reply (padded response) arrivals live single e back in
      let frame = on_frame-served sent unit request response state to alone own answer in
      (bytes, reply, eb, ey, rw read frame, result, after)
