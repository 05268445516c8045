-- ===== src/Server/Exchange.antt =====
-- One connection of the server (`serve_connection`, `exchange` and `serve_datagram` of
-- src/server/mod.rs).
use rust_modbus.Prelude.{
  ℕ, inl, inr, Bool, false, not, ◌&&◌, ◌||◌, Option, none, some, List, [], ◌∷◌, ◌++◌, ◌==◌,
  if◌then◌else◌, ok, err, stuck,
}
pub mod Safety
pub mod Resilience
pub mod Answered
pub mod Keeps
pub mod Lifecycle
use rust_modbus.Error.{Error, Result, io, ends_stream}
use rust_modbus.Frame.Code.{FunctionCode}
use rust_modbus.Frame.Framing.{AduBoundary, is_self_locating}
use rust_modbus.Frame.Tcp.Header.{MbapHeader}
use rust_modbus.Frame.Pdu.Request.{RequestPdu, function}
use rust_modbus.Frame.Pdu.Response.{ResponsePdu, exception}
use rust_modbus.Server.Framing.{ServerFraming, server_tcp}
use rust_modbus.Server.Service.{
  Service, Answer, Connection, Disconnect, accept, reject, closed, rejected, failed, shutting_down,
}

-- The number that stands for `ErrorKind::UnexpectedEof`.
abbrev pub unexpected_eof : ℕ
unexpected_eof = 0

pub record ServerConfig : Type 0 where
  pub unit : Option ℕ

-- What one pass of the loop meets: the shutdown signal, which goes first, or what the transport
-- received, and how the transport would end the write of a response to it.
pub data Pass (Header : Type 0) : Type 0 where
  shutdown : Pass Header
  received : Result (Header × RequestPdu) → (sent : Result (Unit {0})) → Pass Header

-- Where a pass leaves the loop: the reason when it ends, the service, and the responses handed to
-- the transport with their headers.
pub record Progress (Header : Type 0) (State : Type 0) : Type 0 where
  pub ended : Option Disconnect
  pub state : State
  pub sent : List (Header × ResponsePdu)

-- `continue`
abbrev pub goes_on :
    {Header State : Type 0} → State → List (Header × ResponsePdu) → Progress Header State
goes_on state sent = record { ended = none; state = state; sent = sent }

abbrev pub ends :
    {Header State : Type 0}
    → Disconnect
    → State
    → List (Header × ResponsePdu)
    → Progress Header State
ends reason state sent = record { ended = some reason; state = state; sent = sent }

-- Whether the configuration names another unit.
unfoldable pub is_other : Option ℕ → ℕ → Bool
is_other none unit = false
is_other (some configured) unit = not (configured == unit)

-- The response to hand on, if any: an exception names the function of the request.
unfoldable pub response_of : FunctionCode → Answer → Option ResponsePdu
response_of code (inr response) = response
response_of code (inl e) = some (exception (record { function = code; exception = e }))

unfoldable pub is_eof : Error → Bool
is_eof (io kind code) = kind == unexpected_eof
is_eof _ = false

-- What is left counts only when the pass has not ended the loop.
abbrev pub after :
    {Header State : Type 0} → Progress Header State → Progress Header State → Progress Header State
after now rest = elim now.ended [
  | some reason ↦ now
  | none ↦ record rest { sent = now.sent ++ rest.sent }
]

-- What `serve_connection` returns, by the reason of the end.
unfoldable pub outcome_of : Disconnect → Result (Unit {0})
outcome_of (failed error) = err error
outcome_of closed = ok tt
outcome_of rejected = ok tt
outcome_of shutting_down = ok tt

module _ {Header State : Type 0} (framing : ServerFraming Header) (boundary : AduBoundary)
    (service : Service State) (config : ServerConfig) (conn : Connection) where
  -- The write of a response.
  unfoldable pub send : Header → ResponsePdu → Result (Unit {0}) → State → Progress Header State
  send header response (ok done) state = goes_on state ((header, response) ∷ [])
  send header response (err error) state =
      let state' = service.on_error conn error state in
      if ends_stream error
      then ends (failed error) state' ((header, response) ∷ [])
      else goes_on state' ((header, response) ∷ [])
  send header response stuck state = goes_on state ((header, response) ∷ [])

  unfoldable pub dispatch : Header → RequestPdu → Result (Unit {0}) → State → Progress Header State
  unfolding send response_of
  dispatch header request sent state =
      let unit = framing.unit header in
      let (answer, state') = service.on_request conn unit request state in
      elim (response_of (function request) answer) [
        | none ↦ goes_on state' []
        | some response ↦
            if framing.is_broadcast unit
            then goes_on state' []
            else send header response sent state'
      ]

  unfoldable pub on_frame : Header → RequestPdu → Result (Unit {0}) → State → Progress Header State
  unfolding dispatch is_other
  on_frame header request sent state =
      let unit = framing.unit header in
      if not (framing.is_broadcast unit) && is_other config.unit unit
      then goes_on state []
      else dispatch header request sent state

  -- A failure other than the end of the stream.
  unfoldable pub on_failure : Error → State → Progress Header State
  on_failure error state =
      let state' = service.on_error conn error state in
      if ends_stream error || not (is_self_locating boundary)
      then ends (failed error) state' []
      else goes_on state' []

  unfoldable pub pass : Pass Header → State → Progress Header State
  unfolding on_frame on_failure is_eof
  pass shutdown state = ends shutting_down state []
  pass (received (ok (header, request)) sent) state = on_frame header request sent state
  pass (received (err error) sent) state =
      if is_eof error then ends closed state [] else on_failure error state
  pass (received stuck sent) state = goes_on state []

  -- The loop, over the passes that come: what is left runs unless it has ended.
  unfoldable pub exchange : List (Pass Header) → State → Progress Header State
  unfolding pass
  exchange [] state = goes_on state []
  exchange (p ∷ passes) state =
      let now = pass p state in let rest = exchange passes now.state in after now rest

  -- `serve_connection`: no outcome while the passes that came have not ended the loop.
  unfoldable pub disconnected :
      Progress Header State → Option (Result (Unit {0})) × State × List (Header × ResponsePdu)
  unfolding outcome_of
  disconnected progress = elim progress.ended [
    | some reason ↦
        (some (outcome_of reason), service.on_disconnect conn reason progress.state, progress.sent)
    | none ↦ (none, progress.state, progress.sent)
  ]

  unfoldable pub serve_connection :
      List (Pass Header) → State → Option (Result (Unit {0})) × State × List (Header × ResponsePdu)
  unfolding exchange disconnected
  serve_connection passes state =
      let (acceptance, state') = service.on_connect conn state in
      elim acceptance [
        | reject ↦ (some (ok tt), service.on_disconnect conn rejected state', [])
        | accept ↦ disconnected (exchange passes state')
      ]

-- `serve_datagram`: a datagram that was received, and how the socket would end the write.
module _ {State : Type 0} (service : Service State) (config : ServerConfig)
    (conn : Connection) where
  unfoldable pub send_datagram :
      MbapHeader
      → Option ResponsePdu
      → Result (Unit {0})
      → State
      → State × List (MbapHeader × ResponsePdu)
  send_datagram header none sent state = (state, [])
  send_datagram header (some response) (ok done) state = (state, (header, response) ∷ [])
  send_datagram header (some response) (err error) state =
      (service.on_error conn error state, (header, response) ∷ [])
  send_datagram header (some response) stuck state = (state, (header, response) ∷ [])

  unfoldable pub serve_datagram :
      MbapHeader → RequestPdu → Result (Unit {0}) → State → State × List (MbapHeader × ResponsePdu)
  unfolding is_other response_of send_datagram
  serve_datagram header request sent state =
      let unit = server_tcp.unit header in
      let (answer, state') = service.on_request conn unit request state in
      let response = response_of (function request) answer in
      if is_other config.unit unit then (state, []) else send_datagram header response sent state'
