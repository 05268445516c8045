-- ===== src/Server/Exchange/Safety.antt =====
-- What the server puts on the wire (`exchange` of src/server/mod.rs).
use rust_modbus.Prelude.{
  ◌≡◌, refl, sym, ◌⊎◌, inl, inr, false, not, ◌&&◌, Option, none, some, List, [], ◌∷◌, ◌++◌,
  append-nil, arith, Bool-cases, All, ok, err, stuck, Option-cases,
}
use rust_modbus.Error.{Error, Result, ends_stream}
use rust_modbus.Frame.Framing.{AduBoundary}
use rust_modbus.Frame.Pdu.Request.{RequestPdu, function}
use rust_modbus.Frame.Pdu.Response.{ResponsePdu}
use rust_modbus.Server.Framing.{ServerFraming}
use rust_modbus.Server.Service.{Service, Connection, Disconnect}
use rust_modbus.Server.Exchange.{
  ServerConfig, Pass, Progress, shutdown, received, is_other, response_of, send, dispatch, on_frame,
  on_failure, pass, exchange, after,
}

-- The headers of the requests that came.
unfoldable pub requested : {Header : Type 0} → List (Pass Header) → List Header
requested [] = []
requested (shutdown ∷ passes) = requested passes
requested (received (ok (header, request)) sent ∷ passes) = header ∷ requested passes
requested (received (err error) sent ∷ passes) = requested passes
requested (received stuck sent ∷ passes) = requested passes

-- The headers of the responses are those of some of the requests, in the same order.
unfoldable pub IsAnswers : {Header : Type 0} → List (Header × ResponsePdu) → List Header → Type 0
IsAnswers [] headers = Unit
IsAnswers ((header, response) ∷ sent) [] = ⊥
IsAnswers ((header, response) ∷ sent) (other ∷ headers) =
    ((header ≡ other) × IsAnswers sent headers) ⊎ IsAnswers ((header, response) ∷ sent) headers

-- A unit that is no broadcast, and that the configuration serves.
unfoldable pub IsServed :
    {Header : Type 0} → ServerFraming Header → ServerConfig → Header × ResponsePdu → Type 0
unfolding is_other
IsServed framing config (header, response) =
    (framing.is_broadcast (framing.unit header) ≡ false)
    × (is_other config.unit (framing.unit header) ≡ false)

module _ {Header State : Type 0} (framing : ServerFraming Header) (boundary : AduBoundary)
    (service : Service State) (config : ServerConfig) (conn : Connection) where
  -- What one pass sends is a response to the request it took up, if any.
  unfoldable IsReply : Header → List (Header × ResponsePdu) → Type 0
  unfolding IsServed
  IsReply header sent =
      (sent ≡ [])
      ⊎ ((response : ResponsePdu) × (sent ≡ (header, response) ∷ [])
          × IsServed framing config (header, response))

  pub send-sent :
      (header : Header) (response : ResponsePdu) (sent : Result (Unit {0})) (state : State)
      → (send framing boundary service config conn header response sent state).sent
        ≡ (header, response) ∷ []
  unfolding send
  send-sent header response (ok done) state = refl
  send-sent header response (err error) state = elim (Bool-cases (ends_stream error)) [
    | inl e ↦ rw e refl
    | inr e ↦ rw e refl
  ]
  send-sent header response stuck state = refl

  dispatch-IsReply :
      (header : Header) (request : RequestPdu) (sent : Result (Unit {0})) (state : State)
      → (not (framing.is_broadcast (framing.unit header))
          && is_other config.unit (framing.unit header))
        ≡ false
      → IsReply header
          (dispatch framing boundary service config conn header request sent state).sent
  unfolding dispatch IsReply IsServed
  dispatch-IsReply header request sent state served =
      let unit = framing.unit header in
      let answer = (service.on_request conn unit request state).0 in
      let state' = (service.on_request conn unit request state).1 in
      elim (Option-cases (response_of (function request) answer)) [
        | inl e ↦ rw (e, dispatch) (inl refl)
        | inr (response, e) ↦ elim (Bool-cases (framing.is_broadcast unit)) [
          | inl b ↦ rw (e, dispatch, b) (inl refl)
          | inr b ↦
              rw (e, dispatch, b)
                (inr (response, send-sent header response sent state', (refl, ground arith)))
        ]
      ]

  on_frame-IsReply :
      (header : Header) (request : RequestPdu) (sent : Result (Unit {0})) (state : State)
      → IsReply header
          (on_frame framing boundary service config conn header request sent state).sent
  unfolding on_frame IsReply
  on_frame-IsReply header request sent state =
      let unit = framing.unit header in
      elim (Bool-cases (not (framing.is_broadcast unit) && is_other config.unit unit)) [
        | inl e ↦ rw e (inl refl)
        | inr e ↦ rw e (dispatch-IsReply header request sent state e)
      ]

  failure-silent :
      (error : Error) (sent : Result (Unit {0})) (state : State)
      → (pass framing boundary service config conn (received (err error) sent) state).sent ≡ []
  unfolding pass on_failure
  failure-silent error sent state = ground arith

-- What the rest of the passes sends, once the loop has ended or not.
unfoldable pub continued : {A : Type 0} → Option Disconnect → List A → List A
continued (some reason) sent = []
continued none sent = sent

IsAnswers-skip :
    {Header : Type 0} (header : Header) (sent : List (Header × ResponsePdu)) (headers : List Header)
    → IsAnswers sent headers
    → IsAnswers sent (header ∷ headers)
unfolding IsAnswers
IsAnswers-skip header [] headers h = tt
IsAnswers-skip header ((other, response) ∷ sent) headers h = inr h

continued-IsAnswers :
    {Header : Type 0} (ended : Option Disconnect) (sent : List (Header × ResponsePdu))
    (headers : List Header)
    → IsAnswers sent headers
    → IsAnswers (continued ended sent) headers
unfolding IsAnswers continued
continued-IsAnswers (some reason) sent headers h = tt
continued-IsAnswers none sent headers h = h

continued-All {ℓ} :
    {A : Type 0} (P : A → Type ℓ) (ended : Option Disconnect) (sent : List A)
    → All P sent
    → All P (continued ended sent)
unfolding continued
continued-All P (some reason) sent h = tt
continued-All P none sent h = h

module _ {Header State : Type 0} (framing : ServerFraming Header) (boundary : AduBoundary)
    (service : Service State) (config : ServerConfig) (conn : Connection) where
  pub exchange-sent :
      (p : Pass Header) (passes : List (Pass Header)) (state : State)
      → let now : Progress Header State = pass framing boundary service config conn p state in
        (exchange framing boundary service config conn (p ∷ passes) state).sent
        ≡ now.sent
          ++ continued now.ended
              (exchange framing boundary service config conn passes now.state).sent
  unfolding exchange continued
  exchange-sent p passes state =
      elim (Option-cases (pass framing boundary service config conn p state).ended) [
        | inl e ↦ rw (e, exchange, after) refl
        | inr (reason, e) ↦ rw (e, exchange, after) (sym (append-nil _))
      ]

  reply-IsAnswers :
      (header : Header) (sent rest : List (Header × ResponsePdu)) (headers : List Header)
      → IsReply framing boundary service config conn header sent
      → IsAnswers rest headers
      → IsAnswers (sent ++ rest) (header ∷ headers)
  unfolding IsAnswers IsReply
  reply-IsAnswers header sent rest headers (inl e) h = rw e (IsAnswers-skip header rest headers h)
  reply-IsAnswers header sent rest headers (inr (response, e, served)) h = rw e (inl (refl, h))

  reply-All :
      (header : Header) (sent rest : List (Header × ResponsePdu))
      → IsReply framing boundary service config conn header sent
      → All (IsServed framing config) rest
      → All (IsServed framing config) (sent ++ rest)
  unfolding IsReply
  reply-All header sent rest (inl e) h = rw e h
  reply-All header sent rest (inr (response, e, served)) h = rw e (served, h)

  pass-IsAnswers :
      (p : Pass Header) (passes : List (Pass Header)) (state : State)
      (rest : List (Header × ResponsePdu))
      → IsAnswers rest (requested passes)
      → All (IsServed framing config) rest
      → let now : List (Header × ResponsePdu) =
          (pass framing boundary service config conn p state).sent in
        IsAnswers (now ++ rest) (requested (p ∷ passes))
        × All (IsServed framing config) (now ++ rest)
  unfolding requested pass
  pass-IsAnswers shutdown passes state rest h k = (h, k)
  pass-IsAnswers (received (ok (header, request)) sent) passes state rest h k =
      let reply = on_frame-IsReply framing boundary service config conn header request sent state in
      let now = (on_frame framing boundary service config conn header request sent state).sent in
      (
        reply-IsAnswers header now rest (requested passes) reply h,
        reply-All header now rest reply k,
      )
  pass-IsAnswers (received (err error) sent) passes state rest h k =
      rw (failure-silent framing boundary service config conn error sent state) (h, k)
  pass-IsAnswers (received stuck sent) passes state rest h k = (h, k)

  -- Over any passes, the server sends at most one response to each request, in the order of the
  -- requests and under the header of the request, and none to a broadcast or to a unit that the
  -- configuration does not serve.
  pub exchange-IsAnswers :
      (passes : List (Pass Header)) (state : State)
      → let sent : List (Header × ResponsePdu) =
          (exchange framing boundary service config conn passes state).sent in
        IsAnswers sent (requested passes) × All (IsServed framing config) sent
  unfolding requested exchange IsAnswers
  exchange-IsAnswers [] state = (tt, tt)
  exchange-IsAnswers (p ∷ passes) state =
      let now : Progress Header State = pass framing boundary service config conn p state in
      let (answers, served) = exchange-IsAnswers passes now.state in
      let rest : List (Header × ResponsePdu) =
        (exchange framing boundary service config conn passes now.state).sent in
      rw (exchange-sent p passes state) (
        pass-IsAnswers p passes state (continued now.ended rest)
          (continued-IsAnswers now.ended rest (requested passes) answers)
          (continued-All (IsServed framing config) now.ended rest served))
