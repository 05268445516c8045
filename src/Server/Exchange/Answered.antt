-- ===== src/Server/Exchange/Answered.antt =====
-- The answers to the requests of one connection (`exchange` of src/server/mod.rs).
use rust_modbus.Prelude.{
  ℕ, ◌≡◌, refl, ◌≢◌, inl, inr, false, none, some, List, [], ◌∷◌, map, All, ok,
}
use rust_modbus.Frame.Framing.{AduBoundary}
use rust_modbus.Frame.Pdu.Request.{RequestPdu, function}
use rust_modbus.Frame.Pdu.Response.{ResponsePdu, exception}
use rust_modbus.Server.Framing.{ServerFraming}
use rust_modbus.Server.Service.{Service, Answer, Connection}
use rust_modbus.Server.Exchange.{
  ServerConfig, Pass, received, response_of, is_other, dispatch, send, on_frame, pass, exchange,
  goes_on,
}

-- The response to a request that an answer of the service stands for: an exception for a refusal,
-- with the function of the request, and else what the service gives.
unfoldable pub Gives : RequestPdu → Answer → ResponsePdu → Type 0
Gives request (inl code) response =
    response ≡ exception (record { function = function request; exception = code })
Gives request (inr (some given)) response = response ≡ given
Gives request (inr none) response = ⊥

-- Requests that came without a failure, and whose responses can be written.
abbrev pub arriving : {Header : Type 0} → List (Header × RequestPdu) → List (Pass Header)
arriving frames = map (λ frame. received (ok frame) (ok tt)) frames

module _ {Header State : Type 0} (framing : ServerFraming Header) (boundary : AduBoundary)
    (service : Service State) (config : ServerConfig) (conn : Connection) where
  -- To one unit, which the configuration serves.
  unfoldable pub IsForUs : Header × RequestPdu → Type 0
  IsForUs (header, request) =
      (framing.is_broadcast (framing.unit header) ≡ false)
      × (is_other config.unit (framing.unit header) ≡ false)

  -- The responses are those that the service gives for the requests, one for each and in their
  -- order, each under the header of its request, and each by the state that the ones before left.
  unfoldable pub AreAnswered :
      List (Header × RequestPdu) → State → List (Header × ResponsePdu) → Type 0
  AreAnswered [] state sent = sent ≡ []
  AreAnswered (frame ∷ frames) state [] = ⊥
  AreAnswered ((header, request) ∷ frames) state ((header', response) ∷ sent) =
      let answered : Answer × State = service.on_request conn (framing.unit header) request state in
      (header' ≡ header) × Gives request answered.0 response × AreAnswered frames answered.1 sent

  on_frame-Gives :
      (header : Header) (request : RequestPdu) (state : State) (answer : Answer)
      → (service.on_request conn (framing.unit header) request state).0 ≡ answer
      → answer ≢ inr none
      → IsForUs (header, request)
      → (response : ResponsePdu) × Gives request answer response
        × (on_frame framing boundary service config conn header request (ok tt) state
            ≡ goes_on
                (service.on_request conn (framing.unit header) request state).1
                ((header, response) ∷ []))
  unfolding on_frame dispatch response_of send Gives IsForUs
  on_frame-Gives header request state (inl code) e always (single, own) = (
    exception (record { function = function request; exception = code }),
    refl,
    rw (single, own) (rw (e, dispatch) (rw (single, dispatch) refl)),
  )
  on_frame-Gives header request state (inr (some given)) e always (single, own) =
      (given, refl, rw (single, own) (rw (e, dispatch) (rw (single, dispatch) refl)))
  on_frame-Gives header request state (inr none) e always own = absurd (always refl)

  -- Requests to one unit each, which the configuration serves, that come without a failure and
  -- whose responses can be written, are all answered by a service that has an answer to every
  -- request: one response for each, in order, under its header, an exception with the function of
  -- the request where the service refuses it; and the loop goes on.
  pub exchange-AreAnswered :
      (frames : List (Header × RequestPdu)) (state : State)
      → ((unit : ℕ) (request : RequestPdu) (state : State)
          → (service.on_request conn unit request state).0 ≢ inr none)
      → All IsForUs frames
      → AreAnswered frames state
          (exchange framing boundary service config conn (arriving frames) state).sent
        × ((exchange framing boundary service config conn (arriving frames) state).ended ≡ none)
  unfolding exchange pass AreAnswered
  exchange-AreAnswered [] state always own = (refl, refl)
  exchange-AreAnswered ((header, request) ∷ frames) state always (h, hs) =
      let answered : Answer × State = service.on_request conn (framing.unit header) request state in
      let (response, gives, sent) =
        on_frame-Gives header request state answered.0 refl
          (always (framing.unit header) request state) h in
      let (rest, running) = exchange-AreAnswered frames answered.1 always hs in
      rw sent ((refl, gives, rest), running)
