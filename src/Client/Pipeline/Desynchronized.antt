-- ===== src/Client/Pipeline/Desynchronized.antt =====
-- A handle of src/client/pipeline.rs that has desynchronized.
use rust_modbus.Prelude.{
  ℕ, ◌≡◌, refl, sym, ap, ap₂, ◌∙◌, inl, inr, Bool, true, none, List, [], ◌∷◌, ◌++◌, Bool-cases, ok,
  err, stuck,
}
use rust_modbus.Error.{desynchronized}
use rust_modbus.Frame.Pdu.Response.{ResponsePdu}
use rust_modbus.Client.Pipeline.{
  Task, Event, Action, Waiting, command, received, expired, answer, find, fail_entries,
  desynchronize, on_received, on_response, step, run,
}
use rust_modbus.Client.Pipeline.Cases.{
  on_command-refused, on_response-late, on_response-unknown, on_expired-gone,
}
use rust_modbus.Client.Pipeline.Invariant.{IsValid}

-- The refusal of every command.
unfoldable pub refusals : List Event → List Action
refusals [] = []
refusals (command c written ∷ events) = answer c.reply (err desynchronized) ∷ refusals events
refusals (received result ∷ events) = refusals events
refusals (expired transaction ∷ events) = refusals events

desynchronized-again :
    (task : Task)
    → task.is_desynchronized ≡ true
    → task.in_flight ≡ []
    → desynchronize task ≡ (task, [])
unfolding desynchronize fail_entries
desynchronized-again task dead none_left =
    let same : (desynchronize task).0 ≡ task =
      ap₂
        (λ (b : Bool) (entries : List Waiting). record task {
          is_desynchronized = b;
          in_flight = entries;
        })
        (sym dead) (sym none_left) in
    ap₂ (λ (t : Task) (actions : List Action). (t, actions)) same (ap fail_entries none_left)

-- An empty map has no entry.
nothing-found :
    (transaction : ℕ) (entries : List Waiting) → entries ≡ [] → find transaction entries ≡ none
unfolding find
nothing-found transaction entries h = ap (find transaction) h

module _ (task : Task) (valid : IsValid task) (dead : task.is_desynchronized ≡ true) where
  late-response :
      (transaction : ℕ) (response : ResponsePdu)
      → on_response transaction response task ≡ (task, [])
  late-response transaction response =
      let absent = nothing-found transaction task.in_flight (valid.silent dead) in
      elim (Bool-cases (task.issued transaction)) [
        | inl late ↦ on_response-late task transaction response absent late
        | inr unknown ↦
            on_response-unknown task transaction response absent unknown
            ∙ desynchronized-again task dead (valid.silent dead)
      ]

  step-desynchronized :
      (timeout_desyncs : Bool) (event : Event)
      → step timeout_desyncs event task ≡ (task, refusals (event ∷ []))
  unfolding step on_received refusals
  step-desynchronized timeout_desyncs (command c written) = on_command-refused task c written dead
  step-desynchronized timeout_desyncs (received (ok (header, response))) =
      late-response header.transaction_id response
  step-desynchronized timeout_desyncs (received (err error)) =
      desynchronized-again task dead (valid.silent dead)
  step-desynchronized timeout_desyncs (received stuck) = refl
  step-desynchronized timeout_desyncs (expired transaction) =
      on_expired-gone task transaction timeout_desyncs
        (nothing-found transaction task.in_flight (valid.silent dead))

refusals-cons :
    (event : Event) (events : List Event)
    → refusals (event ∷ events) ≡ refusals (event ∷ []) ++ refusals events
unfolding refusals
refusals-cons (command c written) events = refl
refusals-cons (received result) events = refl
refusals-cons (expired transaction) events = refl

-- Once desynchronized, a handle in a valid state stays so whatever happens: it refuses each command
-- in the order they come, writes none, and answers nothing else.
pub run-desynchronized :
    (timeout_desyncs : Bool) (events : List Event) (task : Task)
    → IsValid task
    → task.is_desynchronized ≡ true
    → run timeout_desyncs events task ≡ (task, refusals events)
unfolding run refusals
run-desynchronized timeout_desyncs [] task valid dead = refl
run-desynchronized timeout_desyncs (event ∷ events) task valid dead =
    rw
      (
        step-desynchronized task valid dead timeout_desyncs event,
        run-desynchronized timeout_desyncs events task valid dead,
        refusals-cons event events,
      )
      refl
