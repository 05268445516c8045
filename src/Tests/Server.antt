-- ===== src/Tests/Server.antt =====
-- The theorems on the server, at a service that counts (src/server).
use rust_modbus.Prelude.{
  ℕ, ◌+◌, ◌≡◌, refl, ◌≢◌, inl, inr, false, none, some, List, [], ◌∷◌, arith, ◌==◌, if◌then◌else◌,
  Bool-cases, All, ok, err,
}
use rust_modbus.Error.{malformed}
use rust_modbus.Frame.Code.{ExceptionCode}
use rust_modbus.Frame.Framing.{silence, is_self_locating}
use rust_modbus.Frame.Pdu.Request.{RequestPdu}
use rust_modbus.Frame.Pdu.Response.{ResponsePdu}
use rust_modbus.Server.Framing.{server_serial}
use rust_modbus.Server.Service.{Service, Connection, connection, minimal, accept}
use rust_modbus.Server.Exchange.{
  ServerConfig, Pass, shutdown, received, exchange, serve_connection, is_other,
}
use rust_modbus.Server.Exchange.Safety.{IsAnswers, IsServed, requested, exchange-IsAnswers}
use rust_modbus.Server.Exchange.Lifecycle.{
  recording, IsTold, accepted_loop, serve_connection-IsTold,
}
use rust_modbus.Server.Exchange.Resilience.{legible, exchange-legible}
use rust_modbus.Server.Exchange.Answered.{AreAnswered, IsForUs, arriving, exchange-AreAnswered}
use rust_modbus.Server.Accept.{Attempt, accepted, refused}

-- Unit 1 is refused, any other unit reads how many requests came before.
abbrev counting : Service ℕ
counting = minimal [] (λ conn unit request n.
    if unit == 1
    then (inl ExceptionCode.illegal_function, n + 1)
    else (inr (some (ResponsePdu.read_holding_registers (n ∷ []))), n + 1))

abbrev config : ServerConfig
config = record { unit = none }

abbrev conn : Connection
conn = connection 1 (some 9)

abbrev read_one : RequestPdu
read_one = RequestPdu.read_holding_registers 0 1

-- A request to unit 2, a broadcast, a bad frame, a request to unit 1, and the shutdown.
abbrev passes : List (Pass ℕ)
passes =
    received (ok (2, read_one)) (ok tt)
    ∷ received (ok (0, read_one)) (ok tt)
    ∷ received (err malformed) (ok tt)
    ∷ received (ok (1, read_one)) (ok tt)
    ∷ shutdown
    ∷ []

exchange-IsAnswers_example :
    let sent : List (ℕ × ResponsePdu) =
      (exchange server_serial silence counting config conn passes 0).sent in
    IsAnswers sent (requested passes) × All (IsServed server_serial config) sent
exchange-IsAnswers_example = exchange-IsAnswers server_serial silence counting config conn passes 0

serve_connection-IsTold_example :
    IsTold accept
      (accepted_loop server_serial silence counting config conn passes 0).ended
      (serve_connection server_serial silence (recording counting) config conn passes (0, []))
serve_connection-IsTold_example =
    serve_connection-IsTold server_serial silence counting config conn passes 0

exchange-legible_example :
    exchange server_serial silence counting config conn passes 0
    ≡ exchange server_serial silence counting config conn (legible passes) 0
unfolding is_self_locating
exchange-legible_example =
    exchange-legible server_serial silence counting config conn passes 0 refl (λ error n. refl)

abbrev attempts : List (Attempt ℕ)
attempts = accepted 40 ∷ accepted 41 ∷ refused malformed false ∷ accepted 42 ∷ []

-- Requests to unit 2, to unit 1, which is refused, and to unit 2 again.
abbrev frames : List (ℕ × RequestPdu)
frames = (2, read_one) ∷ (1, read_one) ∷ (2, read_one) ∷ []

counting_answers :
    (unit : ℕ) (request : RequestPdu) (n : ℕ)
    → (counting.on_request conn unit request n).0 ≢ inr none
counting_answers unit request n h = elim (Bool-cases (unit == 1)) [
  | inl e ↦ absurd (ground arith)
  | inr e ↦ absurd (ground arith)
]

exchange-AreAnswered_example :
    AreAnswered server_serial silence counting config conn frames 0
      (exchange server_serial silence counting config conn (arriving frames) 0).sent
    × ((exchange server_serial silence counting config conn (arriving frames) 0).ended ≡ none)
unfolding IsForUs is_other
exchange-AreAnswered_example =
    exchange-AreAnswered server_serial silence counting config conn frames 0 counting_answers
      ((refl, refl), ((refl, refl), ((refl, refl), tt)))
