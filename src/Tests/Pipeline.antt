-- ===== src/Tests/Pipeline.antt =====
-- The theorems on the pipelined client, at concrete runs (src/client/pipeline.rs).
use rust_modbus.Prelude.{
  ℕ, ◌+◌, ◌-◌, ◌%◌, ◌≡◌, refl, ◌≢◌, inl, inr, true, false, ◌||◌, some, List, [], ◌∷◌, arith, ◌==◌,
  Bool-cases, ok, err,
}
use rust_modbus.Error.{Error, Result, out_of_range}
use rust_modbus.Frame.Tcp.Header.{MbapHeader}
use rust_modbus.Frame.Pdu.Request.{RequestPdu}
use rust_modbus.Frame.Pdu.Response.{ResponsePdu}
use rust_modbus.Client.Transaction.{next, allocated, allocated_cycle}
use rust_modbus.Client.Pipeline.{
  Task, Event, Action, Command, Waiting, command, received, expired, new_task, find, step, run,
}
use rust_modbus.Client.Pipeline.Handle.{
  Step, trying, ending, nth, commands, new_core, commands-distinct,
}
use rust_modbus.Client.Pipeline.Table.{IsDistinct}
use rust_modbus.Client.Pipeline.Invariant.{IsValid, WasIssued, new_task-IsValid, run-IsValid}
use rust_modbus.Client.Pipeline.Count.{one_if, answered, holding, submitted, IsFresh, AreFresh}
use rust_modbus.Client.Pipeline.Answers.{run-answered}
use rust_modbus.Client.Pipeline.Spec.{Run, view, answers_of}
use rust_modbus.Client.Pipeline.Refines.{run-Refined}
use rust_modbus.Client.Pipeline.Desynchronized.{refusals, run-desynchronized}
use rust_modbus.Client.Pipeline.Expiry.{Covers, Fires, expiries, expiries-answered}
use rust_modbus.Client.Pipeline.Unencodable.{unencodable-desynchronizes}
use rust_modbus.Parse.Reference.{reference}
use rust_modbus.Frame.Framing.{encode_request}
use rust_modbus.Frame.Tcp
use rust_modbus.Frame.Tcp.{tcp}
use rust_modbus.Transport.Stream.{FrameTransport, new_transport, send_request}
use rust_modbus.Client.Pipeline.Displaced.{insert-displaces}

abbrev coils_command : ℕ → ℕ → Command
coils_command transaction reply = record {
  transaction = transaction;
  unit = 17;
  request = RequestPdu.read_coils 0 8;
  reply = reply;
}

abbrev header_of : ℕ → MbapHeader
header_of transaction = record { transaction_id = transaction; unit_id = 17 }

abbrev coils_response : ResponsePdu
coils_response = ResponsePdu.read_coils (true ∷ [])

-- Two requests; the second is answered and the first times out.
abbrev events : List Event
events =
    command (coils_command 1 7) (ok 0)
    ∷ command (coils_command 2 8) (ok 1)
    ∷ received (ok (header_of 2, coils_response))
    ∷ expired 1
    ∷ []

events-AreFresh : AreFresh false events new_task
unfolding AreFresh IsFresh step find
events-AreFresh = (refl, (refl, (tt, (tt, tt))))

run-answered_example :
    answered 7 (run false events new_task).1 + holding 7 (run false events new_task).0.in_flight
    ≡ submitted 7 events + holding 7 new_task.in_flight
run-answered_example = run-answered 7 false events new_task new_task-IsValid events-AreFresh

run-IsValid_example : IsValid (run true events new_task).0
run-IsValid_example = run-IsValid true events new_task new_task-IsValid

run-Refined_example :
    Run false
      (view new_task)
      events
      (answers_of (run false events new_task).1)
      (view (run false events new_task).0)
run-Refined_example = run-Refined false events new_task new_task-IsValid

abbrev dead_task : Task
dead_task = record { is_desynchronized = true; in_flight = []; issued = λ i. i == 1 }

dead_task-IsValid : IsValid dead_task
unfolding IsDistinct
dead_task-IsValid = record { distinct = tt; was_issued = tt; silent = λ h. refl }

run-desynchronized_example : run true events dead_task ≡ (dead_task, refusals events)
run-desynchronized_example = run-desynchronized true events dead_task dead_task-IsValid refl

-- Two requests in flight.
abbrev busy_task : Task
busy_task = record {
  is_desynchronized = false;
  in_flight =
      record { transaction = 1; reply = 7; key = 0 }
      ∷ record { transaction = 2; reply = 8; key = 1 }
      ∷ [];
  issued = λ i. i == 1 || i == 2;
}

busy_task-IsValid : IsValid busy_task
unfolding IsDistinct WasIssued find
busy_task-IsValid = record {
  distinct = (refl, (refl, tt));
  was_issued = (refl, (refl, tt));
  silent = λ h. cc;
}

busy_task-Covers : Covers (2 ∷ 1 ∷ []) busy_task.in_flight
unfolding Covers Fires find
busy_task-Covers transaction = elim (Bool-cases (1 == transaction)) [
  | inl first ↦ inr (inr (inl (ground arith)))
  | inr e ↦ elim (Bool-cases (2 == transaction)) [
    | inl second ↦ inr (inl (ground arith))
    | inr d ↦ inl (rw (e, d) refl)
  ]
]

expiries-answered_example :
    ((run true (expiries (2 ∷ 1 ∷ [])) busy_task).0.in_flight ≡ [])
    × ((reply : ℕ)
        → answered reply (run true (expiries (2 ∷ 1 ∷ [])) busy_task).1
          ≡ holding reply busy_task.in_flight)
expiries-answered_example =
    expiries-answered true (2 ∷ 1 ∷ []) busy_task busy_task-IsValid busy_task-Covers

abbrev second_entry : Waiting
second_entry = record { transaction = 2; reply = 8; key = 1 }

second_found : find 2 busy_task.in_flight ≡ some second_entry
unfolding find
second_found = refl

insert-displaces_example :
    let after : Task × List Action = step true (command (coils_command 2 9) (ok 2)) busy_task in
    (answered 8 after.1 ≡ 0) × (holding 8 busy_task.in_flight ≡ 1 + holding 8 after.0.in_flight)
insert-displaces_example =
    insert-displaces true (coils_command 2 9) 2 busy_task second_entry busy_task-IsValid refl
      second_found (λ e. omega (arith, e))

allocated_cycle_example : allocated 3 65534 ≡ (65534 - 1 + 3) % 65535 + 1
allocated_cycle_example = allocated_cycle 3 65534 (omega arith) (omega arith)

-- More coils than a request can ask for.
abbrev unencodable : Command
unencodable = record {
  transaction = 3;
  unit = 17;
  request = RequestPdu.read_coils 0 9999;
  reply = 9;
}

unencodable_refused :
    encode_request (tcp reference) (header_of 3) unencodable.request
    ≡ err (out_of_range "quantity" 9999 1 2000)
unfolding encode_request Tcp.encode_request_into rust_modbus.Frame.Pdu.Encode.encode_read
    rust_modbus.Frame.Pdu.Limits.check_range rust_modbus.Frame.Pdu.Request.Write.encode_into
unencodable_refused = refl

unencodable-desynchronizes_example :
    let sent : Result (Unit {0}) × FrameTransport × List ℕ =
      send_request (tcp reference) (header_of 3) unencodable.request (ok tt) new_transport in
    let error : Error = out_of_range "quantity" 9999 1 2000 in
    let after : Task × List Action = step true (command unencodable (err error)) busy_task in
    (sent.0 ≡ err error)
    × (sent.2 ≡ [])
    × (after.0.is_desynchronized ≡ true)
    × (after.0.in_flight ≡ [])
    × (answered 7 after.1 ≡ one_if (9 == 7) + holding 7 busy_task.in_flight)
unencodable-desynchronizes_example =
    unencodable-desynchronizes reference true unencodable (out_of_range "quantity" 9999 1 2000)
      (ok tt) new_transport busy_task 7 refl unencodable_refused

-- Two calls at a handle for two, of which the first ends before the third.
abbrev steps : List Step
steps =
    trying 17 (RequestPdu.read_coils 0 8) 7
    ∷ trying 17 (RequestPdu.read_coils 0 8) 8
    ∷ trying 17 (RequestPdu.read_coils 0 8) 9
    ∷ ending
    ∷ trying 17 (RequestPdu.read_coils 0 8) 10
    ∷ []

first_command : nth 0 (commands steps (new_core 2)) ≡ some (coils_command 1 7)
unfolding nth commands next
first_command = refl

third_command : nth 2 (commands steps (new_core 2)) ≡ some (coils_command 3 10)
unfolding nth commands next
third_command = refl

commands-distinct_example : (coils_command 1 7).transaction ≢ (coils_command 3 10).transaction
commands-distinct_example =
    commands-distinct steps (new_core 2) 0 2 (coils_command 1 7) (coils_command 3 10) (omega arith)
      (omega arith) (omega arith) (omega arith) first_command third_command
