-- ===== src/Client/Pipeline/Answers.antt =====
-- Every request of src/client/pipeline.rs is answered once.
use rust_modbus.Prelude.{
  ℕ, ◌+◌, ◌≡◌, inl, inr, Bool, true, false, some, List, [], ◌∷◌, arith, ◌==◌, Bool-cases, ok, err,
  stuck, Option-cases,
}
use rust_modbus.Error.{Result}
use rust_modbus.Frame.Pdu.Response.{ResponsePdu}
use rust_modbus.Client.Pipeline.{
  Task, Event, Action, Command, Waiting, command, received, expired, find, remove, issue, register,
  on_command, on_response, on_received, on_expired, step, run,
}
use rust_modbus.Client.Pipeline.Table.{remove_absent}
use rust_modbus.Client.Pipeline.Cases.{
  on_command-refused, on_command-registered, on_response-matched, on_response-late,
  on_response-unknown, on_expired-alone, on_expired-all, on_expired-gone,
}
use rust_modbus.Client.Pipeline.Invariant.{IsValid, step-IsValid}
use rust_modbus.Client.Pipeline.Count.{
  one_if, answered, holding, submitted, IsFresh, AreFresh, answered-append, holding-remove, balance,
  balance-of, balance-desynchronize,
}

registered-balance :
    (reply : ℕ) (c : Command) (written : Result ℕ) (task : Task)
    → IsFresh (command c written) task
    → balance reply (register c written task)
      ≡ one_if (c.reply == reply) + holding reply task.in_flight
unfolding balance register IsFresh answered holding
registered-balance reply c (ok key) task fresh =
    rw (remove_absent c.transaction task.in_flight fresh) (omega arith)
registered-balance reply c (err error) task fresh = omega (arith, balance-desynchronize reply task)
registered-balance reply c stuck task fresh = absurd fresh

IsFresh-issue :
    (c : Command) (written : Result ℕ) (task : Task) (issued : ℕ → Bool)
    → IsFresh (command c written) task
    → IsFresh (command c written) (record task { issued = issued })
unfolding IsFresh
IsFresh-issue c (ok key) task issued h = h
IsFresh-issue c (err error) task issued h = tt
IsFresh-issue c stuck task issued h = h

on_command-balance :
    (reply : ℕ) (c : Command) (written : Result ℕ) (task : Task)
    → IsFresh (command c written) task
    → balance reply (on_command c written task)
      ≡ one_if (c.reply == reply) + holding reply task.in_flight
unfolding balance answered
on_command-balance reply c written task fresh = elim (Bool-cases task.is_desynchronized) [
  | inl dead ↦ rw (on_command-refused task c written dead) (omega arith)
  | inr live ↦
      let started : Task = record task { issued = issue task.issued c.transaction } in
      rw (on_command-registered task c written live) (
        registered-balance reply c written started
          (IsFresh-issue c written task (issue task.issued c.transaction) fresh))
]

on_response-balance :
    (reply transaction : ℕ) (response : ResponsePdu) (task : Task)
    → IsValid task
    → balance reply (on_response transaction response task) ≡ holding reply task.in_flight
unfolding balance answered
on_response-balance reply transaction response task v =
    elim (Option-cases (find transaction task.in_flight)) [
      | inr (entry, e) ↦
          rw (on_response-matched task transaction response entry e)
            (omega (arith, holding-remove reply transaction task.in_flight entry v.distinct e))
      | inl e ↦ elim (Bool-cases (task.issued transaction)) [
        | inl late ↦ rw (on_response-late task transaction response e late) (omega arith)
        | inr unknown ↦
            rw (on_response-unknown task transaction response e unknown)
              (balance-desynchronize reply task)
      ]
    ]

expired-balance :
    (reply : ℕ) (timeout_desyncs : Bool) (transaction : ℕ) (task : Task) (entry : Waiting)
    → IsValid task
    → find transaction task.in_flight ≡ some entry
    → balance reply (on_expired timeout_desyncs transaction task) ≡ holding reply task.in_flight
unfolding balance answered
expired-balance reply true transaction task entry v e =
    let left : Task = record task { in_flight = remove transaction task.in_flight } in
    rw (on_expired-all task transaction entry e) (
      omega (
        arith,
        balance-desynchronize reply left,
        holding-remove reply transaction task.in_flight entry v.distinct e,
      ))
expired-balance reply false transaction task entry v e =
    rw (on_expired-alone task transaction entry e)
      (omega (arith, holding-remove reply transaction task.in_flight entry v.distinct e))

on_expired-balance :
    (reply : ℕ) (timeout_desyncs : Bool) (transaction : ℕ) (task : Task)
    → IsValid task
    → balance reply (on_expired timeout_desyncs transaction task) ≡ holding reply task.in_flight
unfolding balance answered
on_expired-balance reply timeout_desyncs transaction task v =
    elim (Option-cases (find transaction task.in_flight)) [
      | inl e ↦ rw (on_expired-gone task transaction timeout_desyncs e) (omega arith)
      | inr (entry, e) ↦ expired-balance reply timeout_desyncs transaction task entry v e
    ]

step-balance :
    (reply : ℕ) (timeout_desyncs : Bool) (event : Event) (task : Task)
    → IsValid task
    → IsFresh event task
    → balance reply (step timeout_desyncs event task)
      ≡ submitted reply (event ∷ []) + holding reply task.in_flight
unfolding step submitted on_received balance answered
step-balance reply timeout_desyncs (command c written) task v fresh =
    omega (arith, on_command-balance reply c written task fresh)
step-balance reply timeout_desyncs (received (ok (header, response))) task v fresh =
    omega (arith, on_response-balance reply header.transaction_id response task v)
step-balance reply timeout_desyncs (received (err error)) task v fresh =
    omega (arith, balance-desynchronize reply task)
step-balance reply timeout_desyncs (received stuck) task v fresh = omega arith
step-balance reply timeout_desyncs (expired transaction) task v fresh =
    omega (arith, on_expired-balance reply timeout_desyncs transaction task v)

submitted-cons :
    (reply : ℕ) (event : Event) (events : List Event)
    → submitted reply (event ∷ events) ≡ submitted reply (event ∷ []) + submitted reply events
unfolding submitted
submitted-cons reply (command c written) events = omega arith
submitted-cons reply (received result) events = omega arith
submitted-cons reply (expired transaction) events = omega arith

-- Over a run from a valid state in which no command comes under an identifier in flight and every
-- write ends, on each channel the answers sent and the entries still in flight are together the
-- commands that came and the entries there were: no request is answered twice, and none is lost.
pub run-answered :
    (reply : ℕ) (timeout_desyncs : Bool) (events : List Event) (task : Task)
    → IsValid task
    → AreFresh timeout_desyncs events task
    → answered reply (run timeout_desyncs events task).1
        + holding reply (run timeout_desyncs events task).0.in_flight
      ≡ submitted reply events + holding reply task.in_flight
unfolding run AreFresh answered submitted
run-answered reply timeout_desyncs [] task v fresh = omega arith
run-answered reply timeout_desyncs (event ∷ events) task v (fresh, rest) =
    let next : Task = (step timeout_desyncs event task).0 in
    let actions : List Action = (step timeout_desyncs event task).1 in
    let valid : IsValid next = step-IsValid timeout_desyncs event task v in
    omega (
      arith,
      submitted-cons reply event events,
      balance-of reply (step timeout_desyncs event task),
      step-balance reply timeout_desyncs event task v fresh,
      run-answered reply timeout_desyncs events next valid rest,
      answered-append reply actions (run timeout_desyncs events next).1,
    )
