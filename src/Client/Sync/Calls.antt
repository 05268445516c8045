-- ===== src/Client/Sync/Calls.antt =====
-- Blocking calls against the calls of the asynchronous client (src/client/sync.rs).
use rust_modbus.Prelude.{ℕ, ◌≡◌, refl, Bool, true, false, Option, List, [], ◌∷◌, ◌++◌, err}
use rust_modbus.Error.{Result, blocking_in_async_context}
use rust_modbus.Frame.Framing.{AduBoundary}
use rust_modbus.Frame.Pdu.Request.{RequestPdu}
use rust_modbus.Frame.Pdu.Response.{ResponsePdu}
use rust_modbus.Client.Framing.{ClientFraming}
use rust_modbus.Client.Call.{Client, Turn}
use rust_modbus.Client.Call
use rust_modbus.Client.Call.State.{calls}
use rust_modbus.Client.Sync.{SyncClient, blocking, refuse_inside_a_runtime, call}

-- Whether the thread of a call drives a runtime, and the call with the transport's turn for it.
abbrev pub Attempt : Type 0 → Type 0
Attempt Header = Bool × (Turn Header × ℕ × RequestPdu)

-- The calls from threads that drive no runtime.
unfoldable pub outside :
    {Header : Type 0} → List (Attempt Header) → List (Turn Header × ℕ × RequestPdu)
outside [] = []
outside ((true, request) ∷ attempts) = outside attempts
outside ((false, request) ∷ attempts) = request ∷ outside attempts

-- One refusal for each call from inside a runtime, and else the results in turn.
unfoldable pub woven :
    {Header A : Type 0} → List (Attempt Header) → List (Result A) → List (Result A)
woven [] results = []
woven ((true, request) ∷ attempts) results = err blocking_in_async_context ∷ woven attempts results
woven ((false, request) ∷ attempts) [] = []
woven ((false, request) ∷ attempts) (result ∷ results) = result ∷ woven attempts results

module _ {Header : Type 0} (framing : ClientFraming Header) (boundary : AduBoundary) where
  -- Calls of a blocking client, one after the other, as `calls` of the asynchronous one.
  unfoldable pub sync_calls :
      List (Attempt Header)
      → SyncClient
      → List (Result (Option ResponsePdu)) × List (Header × RequestPdu) × Client
  unfolding call
  sync_calls [] sync = ([], [], sync.client)
  sync_calls ((inside, (turn, unit, request)) ∷ attempts) sync =
      let called = call framing boundary turn unit inside request sync in
      let (results, sent, last) = sync_calls attempts (record { client = called.client }) in
      (called.result ∷ results, called.sent ++ sent, last)

  -- A blocking client refuses the calls from threads that drive a runtime, which leave no trace,
  -- and is the asynchronous client in all others: the same results in the same order, the same
  -- requests handed to the transport, and the same client in the end.
  pub sync_calls-outside :
      (attempts : List (Attempt Header)) (sync : SyncClient)
      → let async : List (Result (Option ResponsePdu)) × List (Header × RequestPdu) × Client =
          calls framing boundary (outside attempts) sync.client in
        sync_calls attempts sync ≡ (woven attempts async.0, async.1, async.2)
  unfolding sync_calls call blocking refuse_inside_a_runtime outside calls woven
  sync_calls-outside [] sync = refl
  sync_calls-outside ((true, (turn, unit, request)) ∷ attempts) sync =
      rw (sync_calls-outside attempts sync) refl
  sync_calls-outside ((false, (turn, unit, request)) ∷ attempts) sync =
      rw
        (sync_calls-outside attempts
          (record { client = (Call.call framing boundary turn unit request sync.client).client }))
        refl
