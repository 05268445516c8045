-- ===== src/Client/Call.antt =====
-- One request and its answer (`Client::call`, `exchange` and `write` of src/client/mod.rs). The
-- transport and the clock are the environment: what they do in one call is a `Turn`.
use rust_modbus.Prelude.{
  ℕ, Bool, true, false, not, ◌||◌, Option, none, some, List, [], ◌∷◌, ◌==◌, if◌then◌else◌, ok, err,
  stuck,
}
pub mod Answer
pub mod State
use rust_modbus.Error.{
  Error, Result, connection_closed, timeout, desynchronized, illegal_value, unexpected_function,
  ends_stream, ◌>>=◌,
}
use rust_modbus.Frame.Framing.{AduBoundary, is_self_locating}
use rust_modbus.Frame.Function.Equality.{same_function}
use rust_modbus.Frame.Pdu.Request.{RequestPdu, function}
use rust_modbus.Frame.Pdu.Request.Write.{encode}
use rust_modbus.Frame.Pdu.Response.{ResponsePdu, exception}
use rust_modbus.Frame.Pdu.Response as Response
use rust_modbus.Client.Framing.{ClientFraming}
use rust_modbus.Client.Transaction.{next, first_transaction}
use rust_modbus.Server.Exchange.{unexpected_eof}

pub data UnusableReason : Type 0 where
  peer_closed : UnusableReason
  io : (kind : ℕ) → UnusableReason
  silent undecodable : UnusableReason

pub data ClientState : Type 0 where
  untried answered unanswered : ClientState
  unusable : UnusableReason → ClientState

-- The fields that change; the configuration is in the `Turn`, by when the deadline comes.
pub record Client : Type 0 where
  pub next_transaction : ℕ
  pub state : ClientState

abbrev pub new_client : Client
new_client = record { next_transaction = first_transaction; state = untried }

unfoldable pub is_unusable : ClientState → Bool
is_unusable (unusable reason) = true
is_unusable untried = false
is_unusable answered = false
is_unusable unanswered = false

unfoldable pub is_desynchronized : Client → Bool
unfolding is_unusable
is_desynchronized client = is_unusable client.state

unfoldable pub classify_unusable_reason : Error → UnusableReason
classify_unusable_reason connection_closed = peer_closed
classify_unusable_reason (Error.io kind code) =
    if kind == unexpected_eof then peer_closed else UnusableReason.io kind
classify_unusable_reason (timeout what) = silent
classify_unusable_reason _ = undecodable

-- How the write of the request ends, and what the transport receives after it until the deadline.
pub record Turn (Header : Type 0) : Type 0 where
  pub written : Result (Unit {0})
  pub arrivals : List (Result (Header × ResponsePdu))

-- What a call returns, the client after it, and the requests handed to the transport.
pub record Called (Header : Type 0) (A : Type 0) : Type 0 where
  pub result : Result A
  pub client : Client
  pub sent : List (Header × RequestPdu)

abbrev pub set_state : ClientState → Client → Client
set_state state client = record client { state = state }

-- The answer as `exchange` returns it: none is an error, and so is an exception.
unfoldable pub accepted : Result (Option ResponsePdu) → Result ResponsePdu
accepted (ok none) = err desynchronized
accepted (ok (some (exception e))) = err (Error.exception e.function e.exception)
accepted (ok (some response)) = ok response
accepted (err error) = err error
accepted stuck = stuck

module _ {Header : Type 0} (framing : ClientFraming Header) (boundary : AduBoundary) where
  -- The loop that waits for the answer to `sent`: past the arrivals, the deadline.
  unfoldable pub receive :
      Header
      → RequestPdu
      → List (Result (Header × ResponsePdu))
      → Client
      → Result (Option ResponsePdu) × Client
  unfolding same_function
  receive sent request [] client = (err (timeout "response"), set_state (unusable silent) client)
  receive sent request (err error ∷ arrivals) client =
      let lost = ends_stream error || not (is_self_locating boundary) in
      let state = if lost then unusable (classify_unusable_reason error) else unanswered in
      (err error, set_state state client)
  receive sent request (stuck ∷ arrivals) client = (stuck, client)
  receive sent request (ok (header, response) ∷ arrivals) client =
      let rest = receive sent request arrivals client in
      let expected = function request in
      let actual = Response.function response in
      let result =
        if same_function actual expected
        then ok (some response)
        else err (unexpected_function expected actual) in
      if framing.is_response_to sent header then (result, set_state answered client) else rest

  abbrev pub refused : {A : Type 0} → Error → Client → List (Header × RequestPdu) → Called Header A
  refused error client sent = record { result = err error; client = client; sent = sent }

  -- A call once the write of the request has ended.
  unfoldable pub after_write :
      Result (Unit {0})
      → List (Result (Header × ResponsePdu))
      → ℕ
      → RequestPdu
      → Client
      → Called Header (Option ResponsePdu)
  unfolding receive
  after_write (err error) arrivals unit request client =
      let header = framing.request_header unit client.next_transaction in
      let client' = set_state (unusable (classify_unusable_reason error)) client in
      refused error client' ((header, request) ∷ [])
  after_write stuck arrivals unit request client = record {
    result = stuck;
    client = client;
    sent = [];
  }
  after_write (ok done) arrivals unit request client =
      let header = framing.request_header unit client.next_transaction in
      let client' : Client = record client { next_transaction = next client.next_transaction } in
      let sent = (header, request) ∷ [] in
      let (result, client'') = receive header request arrivals client' in
      if framing.is_broadcast unit
      then record { result = ok none; client = client'; sent = sent }
      else record { result = result; client = client''; sent = sent }

  -- A call once `encode` has returned.
  unfoldable pub after_encode :
      Result (List ℕ) → Turn Header → ℕ → RequestPdu → Client → Called Header (Option ResponsePdu)
  unfolding after_write
  after_encode (err error) turn unit request client = refused error client []
  after_encode stuck turn unit request client = record {
    result = stuck;
    client = client;
    sent = [];
  }
  after_encode (ok bytes) turn unit request client =
      after_write turn.written turn.arrivals unit request client

  unfoldable pub call : Turn Header → ℕ → RequestPdu → Client → Called Header (Option ResponsePdu)
  unfolding is_desynchronized after_encode
  call turn unit request client =
      if is_desynchronized client
      then refused desynchronized client []
      else after_encode (encode request) turn unit request client

  unfoldable pub exchange : Turn Header → ℕ → RequestPdu → Client → Called Header ResponsePdu
  unfolding call accepted
  exchange turn unit request client =
      let called = call turn unit request client in
      if framing.is_broadcast unit
      then refused (illegal_value "broadcast read" 0) client []
      else record { result = accepted called.result; client = called.client; sent = called.sent }

  unfoldable pub write : Turn Header → ℕ → RequestPdu → Client → Called Header (Unit {0})
  unfolding call exchange
  write turn unit request client =
      let called = call turn unit request client in
      let exchanged = exchange turn unit request client in
      if framing.is_broadcast unit
      then record {
        result = called.result >>= (λ answer. ok tt);
        client = called.client;
        sent = called.sent;
      }
      else record {
        result = exchanged.result >>= (λ response. ok tt);
        client = exchanged.client;
        sent = exchanged.sent;
      }
