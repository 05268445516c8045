-- ===== src/Client/Call/State.antt =====
-- The states of a client (`ClientState` and `is_desynchronized` of src/client/mod.rs).
use rust_modbus.Prelude.{
  ℕ, ◌≡◌, refl, sym, ap, ◌∙◌, inl, inr, true, false, Option, List, [], ◌∷◌, ◌++◌, if◌then◌else◌,
  Bool-cases, ok, err, stuck, if-true, if-false,
}
use rust_modbus.Error.{Result, desynchronized}
use rust_modbus.Frame.Framing.{AduBoundary}
use rust_modbus.Frame.Pdu.Request.{RequestPdu}
use rust_modbus.Frame.Pdu.Response.{ResponsePdu}
use rust_modbus.Client.Framing.{ClientFraming}
use rust_modbus.Client.Call.{Client, Turn, receive, call}
use rust_modbus.Client.Call.Answer.{receive-matched, receive-stray}

-- Calls, one after the other: what each returns and sends, and the client in the end.
module _ {Header : Type 0} (framing : ClientFraming Header) (boundary : AduBoundary) where
  unfoldable pub calls :
      List (Turn Header × ℕ × RequestPdu)
      → Client
      → List (Result (Option ResponsePdu)) × List (Header × RequestPdu) × Client
  unfolding call
  calls [] client = ([], [], client)
  calls ((turn, unit, request) ∷ rest) client =
      let called = call framing boundary turn unit request client in
      let (results, sent, last) = calls rest called.client in
      (called.result ∷ results, called.sent ++ sent, last)

  -- One refusal for each call.
  unfoldable pub refusals : List (Turn Header × ℕ × RequestPdu) → List (Result (Option ResponsePdu))
  refusals [] = []
  refusals (request ∷ rest) = err desynchronized ∷ refusals rest

  -- The arrivals that answer what was sent, and the failures.
  unfoldable pub relevant :
      Header → List (Result (Header × ResponsePdu)) → List (Result (Header × ResponsePdu))
  relevant sent [] = []
  relevant sent (ok (header, response) ∷ arrivals) =
      let rest = relevant sent arrivals in
      if framing.is_response_to sent header then ok (header, response) ∷ rest else rest
  relevant sent (err error ∷ arrivals) = err error ∷ relevant sent arrivals
  relevant sent (stuck ∷ arrivals) = stuck ∷ relevant sent arrivals

  relevant-kept :
      (sent header : Header) (response : ResponsePdu)
      (arrivals : List (Result (Header × ResponsePdu)))
      → framing.is_response_to sent header ≡ true
      → relevant sent (ok (header, response) ∷ arrivals)
        ≡ ok (header, response) ∷ relevant sent arrivals
  unfolding relevant
  relevant-kept sent header response arrivals h = if-true (framing.is_response_to sent header) _ _ h

  relevant-dropped :
      (sent header : Header) (response : ResponsePdu)
      (arrivals : List (Result (Header × ResponsePdu)))
      → framing.is_response_to sent header ≡ false
      → relevant sent (ok (header, response) ∷ arrivals) ≡ relevant sent arrivals
  unfolding relevant
  relevant-dropped sent header response arrivals h =
      if-false (framing.is_response_to sent header) _ _ h

  -- Responses under headers that do not answer the one sent make no difference to a call.
  pub receive-relevant :
      (sent : Header) (request : RequestPdu) (arrivals : List (Result (Header × ResponsePdu)))
      (client : Client)
      → receive framing boundary sent request arrivals client
        ≡ receive framing boundary sent request (relevant sent arrivals) client
  unfolding relevant receive
  receive-relevant sent request [] client = refl
  receive-relevant sent request (err error ∷ arrivals) client = refl
  receive-relevant sent request (stuck ∷ arrivals) client = refl
  receive-relevant sent request (ok (header, response) ∷ arrivals) client =
      let wait : List (Result (Header × ResponsePdu)) → Result (Option ResponsePdu) × Client =
        λ arrivals. receive framing boundary sent request arrivals client in
      elim (Bool-cases (framing.is_response_to sent header)) [
        | inl e ↦
            receive-matched framing boundary sent request header response arrivals client e
            ∙ sym (
                receive-matched framing boundary sent request header response
                  (relevant sent arrivals) client e)
            ∙ ap wait (sym (relevant-kept sent header response arrivals e))
        | inr e ↦
            receive-stray framing boundary sent request header response arrivals client e
            ∙ receive-relevant sent request arrivals client
            ∙ ap wait (sym (relevant-dropped sent header response arrivals e))
      ]
