-- ===== src/Server/Exchange/Lifecycle.antt =====
-- The notifications and the outcome of one connection (`serve_connection` of src/server/mod.rs).
use rust_modbus.Prelude.{
  ◌≡◌, refl, ap, inl, inr, Option, none, some, List, [], ◌∷◌, ok, err, Option-cases,
}
use rust_modbus.Error.{Result}
use rust_modbus.Frame.Framing.{AduBoundary}
use rust_modbus.Server.Framing.{ServerFraming}
use rust_modbus.Server.Service.{
  Service, Acceptance, Connection, Disconnect, accept, reject, rejected, closed, failed,
  shutting_down,
}
use rust_modbus.Server.Exchange.Keeps.{exchange-keeps}
use rust_modbus.Server.Exchange.{
  ServerConfig, Pass, Progress, exchange, disconnected, outcome_of, serve_connection,
}

-- A service that also writes down, newest first, the reasons that `on_disconnect` is given.
abbrev pub recording : {State : Type 0} → Service State → Service (State × List Disconnect)
recording service = record {
  on_request = λ conn unit request (state, log).
      let (answer, state') = service.on_request conn unit request state in (answer, (state', log));
  on_connect = λ conn (state, log).
      let (acceptance, state') = service.on_connect conn state in (acceptance, (state', log));
  on_disconnect =
      λ conn reason (state, log). (service.on_disconnect conn reason state, reason ∷ log);
  on_error = λ conn error (state, log). (service.on_error conn error state, log);
  on_accept_error = λ error (state, log).
      let (action, state') = service.on_accept_error error state in (action, (state', log));
  on_receive_error = λ error (state, log).
      let (action, state') = service.on_receive_error error state in (action, (state', log));
}

-- What the caller of serving is told, by the reason: the error of a failure, and else success.
unfoldable pub IsOutcome : Disconnect → Result (Unit {0}) → Type 0
IsOutcome (failed error) result = result ≡ err error
IsOutcome closed result = result ≡ ok tt
IsOutcome rejected result = result ≡ ok tt
IsOutcome shutting_down result = result ≡ ok tt

-- How a connection of the recording service stands, by whether the service accepted it and how the
-- loop ended. Rejected: told so, once, and nothing was sent. Accepted: told nothing while the loop
-- runs, and after it, once, the reason that it ended for.
unfoldable pub IsTold :
    {A State : Type 0}
    → Acceptance
    → Option Disconnect
    → Option (Result (Unit {0})) × (State × List Disconnect) × List A
    → Type 0
IsTold reject ended (result, (state, log), sent) =
    (log ≡ rejected ∷ []) × (result ≡ some (ok tt)) × (sent ≡ [])
IsTold accept none (result, (state, log), sent) = (log ≡ []) × (result ≡ none)
IsTold accept (some reason) (result, (state, log), sent) =
    (log ≡ reason ∷ [])
    × ((outcome : Result (Unit {0})) × (result ≡ some outcome) × IsOutcome reason outcome)

outcome_of-IsOutcome : (reason : Disconnect) → IsOutcome reason (outcome_of reason)
unfolding IsOutcome outcome_of
outcome_of-IsOutcome (failed error) = refl
outcome_of-IsOutcome closed = refl
outcome_of-IsOutcome rejected = refl
outcome_of-IsOutcome shutting_down = refl

module _ {Header State : Type 0} (framing : ServerFraming Header) (boundary : AduBoundary)
    (service : Service State) (config : ServerConfig) (conn : Connection) where
  -- The loop itself gives no reason.
  exchange-untold :
      (passes : List (Pass Header)) (state : State × List Disconnect)
      → state.1 ≡ []
      → (exchange framing boundary (recording service) config conn passes state).state.1 ≡ []
  exchange-untold passes state =
      exchange-keeps framing boundary (recording service) config conn
        (λ (state : State × List Disconnect). state.1 ≡ []) (λ unit request state h. h)
        (λ error state h. h) passes state

  -- The loop over the recording service, once the connection is accepted.
  abbrev pub accepted_loop : List (Pass Header) → State → Progress Header (State × List Disconnect)
  accepted_loop passes state =
      exchange framing boundary (recording service) config conn passes
        ((service.on_connect conn state).1, [])

  disconnected-IsTold :
      (progress : Progress Header (State × List Disconnect))
      → progress.state.1 ≡ []
      → IsTold accept progress.ended
          (disconnected framing boundary (recording service) config conn progress)
  unfolding disconnected IsTold
  disconnected-IsTold progress h = elim (Option-cases progress.ended) [
    | inl e ↦ rw (e, disconnected) (h, refl)
    | inr (reason, e) ↦
        rw (e, disconnected)
          (ap (λ log. reason ∷ log) h, (outcome_of reason, refl, outcome_of-IsOutcome reason))
  ]

  accepted-IsTold :
      (passes : List (Pass Header)) (state : State) (acceptance : Acceptance)
      → (service.on_connect conn state).0 ≡ acceptance
      → IsTold acceptance
          (accepted_loop passes state).ended
          (serve_connection framing boundary (recording service) config conn passes (state, []))
  unfolding serve_connection IsTold
  accepted-IsTold passes state accept e =
      rw (e, serve_connection)
        (disconnected-IsTold (accepted_loop passes state)
          (exchange-untold passes ((service.on_connect conn state).1, []) refl))
  accepted-IsTold passes state reject e = rw (e, serve_connection) (refl, refl, refl)

  -- Whatever comes over a connection, a service that rejects it is told that it was rejected, once,
  -- and nothing is sent; a service that accepts it is told nothing while its loop runs, and at the
  -- end of the loop, once, the reason that the loop ended for. The outcome of serving is the error
  -- of that reason if it is a failure, and success if not.
  pub serve_connection-IsTold :
      (passes : List (Pass Header)) (state : State)
      → IsTold
          (service.on_connect conn state).0
          (accepted_loop passes state).ended
          (serve_connection framing boundary (recording service) config conn passes (state, []))
  serve_connection-IsTold passes state =
      accepted-IsTold passes state (service.on_connect conn state).0 refl
