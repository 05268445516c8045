-- ===== src/Server/Exchange/Keeps.antt =====
-- What the methods of a service keep, the loop of a connection keeps (`exchange` of
-- src/server/mod.rs).
use rust_modbus.Prelude.{
  ℕ, inl, inr, not, ◌&&◌, ◌||◌, List, [], ◌∷◌, Bool-cases, ok, err, stuck, Option-cases,
}
use rust_modbus.Error.{Error, Result, ends_stream}
use rust_modbus.Frame.Framing.{AduBoundary, is_self_locating}
use rust_modbus.Frame.Pdu.Request.{RequestPdu, function}
use rust_modbus.Frame.Pdu.Response.{ResponsePdu}
use rust_modbus.Server.Framing.{ServerFraming}
use rust_modbus.Server.Service.{Service, Connection}
use rust_modbus.Server.Exchange.{
  ServerConfig, Pass, Progress, shutdown, received, response_of, is_other, is_eof, send, dispatch,
  on_frame, on_failure, pass, exchange, after,
}

module _ {Header State : Type 0} (framing : ServerFraming Header) (boundary : AduBoundary)
    (service : Service State) (config : ServerConfig) (conn : Connection) (P : State → Type 0)
    (on_request-P : (unit : ℕ) (request : RequestPdu) (state : State)
      → P state
      → P (service.on_request conn unit request state).1)
    (on_error-P : (error : Error) (state : State)
      → P state
      → P (service.on_error conn error state)) where
  send-P :
      (header : Header) (response : ResponsePdu) (sent : Result (Unit {0})) (state : State)
      → P state
      → P (send framing boundary service config conn header response sent state).state
  unfolding send
  send-P header response (ok done) state h = h
  send-P header response (err error) state h = elim (Bool-cases (ends_stream error)) [
    | inl e ↦ rw e (on_error-P error state h)
    | inr e ↦ rw e (on_error-P error state h)
  ]
  send-P header response stuck state h = h

  dispatch-P :
      (header : Header) (request : RequestPdu) (sent : Result (Unit {0})) (state : State)
      → P state
      → P (dispatch framing boundary service config conn header request sent state).state
  unfolding dispatch
  dispatch-P header request sent state h =
      let unit = framing.unit header in
      let answer = (service.on_request conn unit request state).0 in
      let state' = (service.on_request conn unit request state).1 in
      let kept = on_request-P unit request state h in
      elim (Option-cases (response_of (function request) answer)) [
        | inl e ↦ rw (e, dispatch) kept
        | inr (response, e) ↦ elim (Bool-cases (framing.is_broadcast unit)) [
          | inl b ↦ rw (e, dispatch, b) kept
          | inr b ↦ rw (e, dispatch, b) (send-P header response sent state' kept)
        ]
      ]

  on_frame-P :
      (header : Header) (request : RequestPdu) (sent : Result (Unit {0})) (state : State)
      → P state
      → P (on_frame framing boundary service config conn header request sent state).state
  unfolding on_frame
  on_frame-P header request sent state h =
      let unit = framing.unit header in
      elim (Bool-cases (not (framing.is_broadcast unit) && is_other config.unit unit)) [
        | inl e ↦ rw e h
        | inr e ↦ rw e (dispatch-P header request sent state h)
      ]

  on_failure-P :
      (error : Error) (state : State)
      → P state
      → P (on_failure framing boundary service config conn error state).state
  unfolding on_failure
  on_failure-P error state h =
      elim (Bool-cases (ends_stream error || not (is_self_locating boundary))) [
        | inl e ↦ rw e (on_error-P error state h)
        | inr e ↦ rw e (on_error-P error state h)
      ]

  pass-P :
      (p : Pass Header) (state : State)
      → P state
      → P (pass framing boundary service config conn p state).state
  unfolding pass
  pass-P shutdown state h = h
  pass-P (received (ok (header, request)) sent) state h = on_frame-P header request sent state h
  pass-P (received (err error) sent) state h = elim (Bool-cases (is_eof error)) [
    | inl e ↦ rw e h
    | inr e ↦ rw e (on_failure-P error state h)
  ]
  pass-P (received stuck sent) state h = h

  -- What `on_request` and `on_error` keep of the state of a service, every run of the loop keeps.
  pub exchange-keeps :
      (passes : List (Pass Header)) (state : State)
      → P state
      → P (exchange framing boundary service config conn passes state).state
  unfolding exchange
  exchange-keeps [] state h = h
  exchange-keeps (p ∷ passes) state h =
      let now : Progress Header State = pass framing boundary service config conn p state in
      elim (Option-cases now.ended) [
        | inl e ↦ rw (e, exchange, after) (exchange-keeps passes now.state (pass-P p state h))
        | inr (reason, e) ↦ rw (e, exchange, after) (pass-P p state h)
      ]
