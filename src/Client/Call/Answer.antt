-- ===== src/Client/Call/Answer.antt =====
-- Which response answers a call (`call` of src/client/mod.rs).
use rust_modbus.Prelude.{
  ℕ, ◌≡◌, refl, sym, ap, ◌∙◌, ◌⊎◌, inl, inr, true, false, Option, some, List, [], ◌∷◌, arith,
  if◌then◌else◌, Bool-cases, ok, err, stuck, if-true, if-false,
}
use rust_modbus.Error.{Result, unexpected_function}
use rust_modbus.Frame.Framing.{AduBoundary}
use rust_modbus.Frame.Function.Equality.{same_function, same_function_iff}
use rust_modbus.Frame.Pdu.Request.{RequestPdu, function}
use rust_modbus.Frame.Pdu.Request.Write.{encode}
use rust_modbus.Frame.Pdu.Response.{ResponsePdu}
use rust_modbus.Frame.Pdu.Response as Response
use rust_modbus.Client.Framing.{ClientFraming}
use rust_modbus.Client.Transaction.{next}
use rust_modbus.Client.Call.{
  Client, Turn, Called, answered, set_state, is_desynchronized, receive, after_write, after_encode,
  call,
}

module _ {Header : Type 0} (framing : ClientFraming Header) (boundary : AduBoundary) where
  -- The first arrival whose header answers `sent` is this response, and no failure is before it.
  unfoldable pub IsFirst : Header → ResponsePdu → List (Result (Header × ResponsePdu)) → Type 0
  IsFirst sent answer [] = ⊥
  IsFirst sent answer (err error ∷ arrivals) = ⊥
  IsFirst sent answer (stuck ∷ arrivals) = ⊥
  IsFirst sent answer (ok (header, response) ∷ arrivals) =
      ((framing.is_response_to sent header ≡ true) × (response ≡ answer))
      ⊎ ((framing.is_response_to sent header ≡ false) × IsFirst sent answer arrivals)

  matched-ok :
      (actual expected : ResponsePdu) (request : RequestPdu)
      → (if same_function (Response.function actual) (function request)
          then ok (some actual)
          else err (unexpected_function (function request) (Response.function actual)))
        ≡ ok (some expected)
      → (actual ≡ expected) × (Response.function actual ≡ function request)
  matched-ok actual expected request h =
      let same = same_function_iff (Response.function actual) (function request) in
      elim (Bool-cases (same_function (Response.function actual) (function request))) [
        | inl e ↦ (
          let q : ok (some actual) ≡ ok (some expected) = sym (if-true _ _ _ e) ∙ h in cc,
          same.0 e,
        )
        | inr e ↦ absurd (ground arith)
      ]

  -- What the loop makes of a response under its own header.
  unfoldable pub checked : RequestPdu → ResponsePdu → Result (Option ResponsePdu)
  checked request response =
      if same_function (Response.function response) (function request)
      then ok (some response)
      else err (unexpected_function (function request) (Response.function response))

  module _ (sent : Header) (request : RequestPdu) (header : Header) (response : ResponsePdu)
      (arrivals : List (Result (Header × ResponsePdu))) (client : Client) where
    pub receive-matched :
        framing.is_response_to sent header ≡ true
        → receive framing boundary sent request (ok (header, response) ∷ arrivals) client
          ≡ (checked request response, set_state answered client)
    unfolding receive checked
    receive-matched h = if-true (framing.is_response_to sent header) _ _ h

    pub receive-stray :
        framing.is_response_to sent header ≡ false
        → receive framing boundary sent request (ok (header, response) ∷ arrivals) client
          ≡ receive framing boundary sent request arrivals client
    unfolding receive
    receive-stray h = if-false (framing.is_response_to sent header) _ _ h

  receive-answered :
      (sent : Header) (request : RequestPdu) (arrivals : List (Result (Header × ResponsePdu)))
      (client : Client) (answer : ResponsePdu)
      → (receive framing boundary sent request arrivals client).0 ≡ ok (some answer)
      → IsFirst sent answer arrivals
        × (Response.function answer ≡ function request)
        × ((receive framing boundary sent request arrivals client).1 ≡ set_state answered client)
  unfolding receive IsFirst checked
  receive-answered sent request [] client answer h = cc
  receive-answered sent request (err error ∷ arrivals) client answer h = cc
  receive-answered sent request (stuck ∷ arrivals) client answer h = cc
  receive-answered sent request (ok (header, response) ∷ arrivals) client answer h =
      elim (Bool-cases (framing.is_response_to sent header)) [
        | inl e ↦
            let now = receive-matched sent request header response arrivals client e in
            let result : checked request response ≡ ok (some answer) =
              sym (ap (λ p. p.0) now) ∙ h in
            let (same, function_same) = matched-ok response answer request result in
            (inl (e, same), ap Response.function (sym same) ∙ function_same, ap (λ p. p.1) now)
        | inr e ↦
            let now = receive-stray sent request header response arrivals client e in
            let (first, same, state) =
              receive-answered sent request arrivals client answer (sym (ap (λ p. p.0) now) ∙ h) in
            (inr (e, first), same, ap (λ p. p.1) now ∙ state)
      ]

  -- How a call that got this answer has gone.
  unfoldable pub IsAnswered :
      Turn Header
      → ℕ
      → RequestPdu
      → Client
      → ResponsePdu
      → Called Header (Option ResponsePdu)
      → Type 0
  IsAnswered turn unit request client answer called =
      let sent : Header = framing.request_header unit client.next_transaction in
      (framing.is_broadcast unit ≡ false)
      × IsFirst sent answer turn.arrivals
      × (Response.function answer ≡ function request)
      × (called.client
          ≡ record { next_transaction = next client.next_transaction; state = answered })
      × (called.sent ≡ (sent, request) ∷ [])

  after_write-IsAnswered :
      (turn : Turn Header) (written : Result (Unit {0})) (unit : ℕ) (request : RequestPdu)
      (client : Client) (answer : ResponsePdu)
      → let called : Called Header (Option ResponsePdu) =
          after_write framing boundary written turn.arrivals unit request client in
        called.result ≡ ok (some answer) → IsAnswered turn unit request client answer called
  unfolding after_write IsAnswered
  after_write-IsAnswered turn (err error) unit request client answer h = cc
  after_write-IsAnswered turn stuck unit request client answer h = cc
  after_write-IsAnswered turn (ok done) unit request client answer h =
      let sent = framing.request_header unit client.next_transaction in
      let client' : Client = record client { next_transaction = next client.next_transaction } in
      elim (Bool-cases (framing.is_broadcast unit)) [
        | inl b ↦ absurd (ground arith)
        | inr b ↦
            let (first, same, state) =
              receive-answered sent request turn.arrivals client' answer (ground arith) in
            rw b (refl, first, same, state, refl)
      ]

  after_encode-IsAnswered :
      (encoded : Result (List ℕ)) (turn : Turn Header) (unit : ℕ) (request : RequestPdu)
      (client : Client) (answer : ResponsePdu)
      → let called : Called Header (Option ResponsePdu) =
          after_encode framing boundary encoded turn unit request client in
        called.result ≡ ok (some answer) → IsAnswered turn unit request client answer called
  unfolding after_encode
  after_encode-IsAnswered (err error) turn unit request client answer h = cc
  after_encode-IsAnswered stuck turn unit request client answer h = cc
  after_encode-IsAnswered (ok bytes) turn unit request client answer h =
      after_write-IsAnswered turn turn.written unit request client answer h

  -- A call that returns a response has written its request once, to a single unit; the response is
  -- the first that came under a header that answers the one sent, with no failure before it, and
  -- has the function of the request; and the client counts as answered, under the next identifier.
  pub call-IsAnswered :
      (turn : Turn Header) (unit : ℕ) (request : RequestPdu) (client : Client)
      (answer : ResponsePdu)
      → (call framing boundary turn unit request client).result ≡ ok (some answer)
      → IsAnswered turn unit request client answer (call framing boundary turn unit request client)
  unfolding call
  call-IsAnswered turn unit request client answer h = elim (Bool-cases (is_desynchronized client)) [
    | inl dead ↦ absurd (ground arith)
    | inr live ↦
        rw live
          (after_encode-IsAnswered (encode request) turn unit request client answer (ground arith))
  ]
