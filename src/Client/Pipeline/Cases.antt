-- ===== src/Client/Pipeline/Cases.antt =====
-- The branches of the loop of `run` in src/client/pipeline.rs, one equation each.
use rust_modbus.Prelude.{
  ℕ, ◌≡◌, refl, Bool, true, false, none, some, [], ◌∷◌, ok, err, if-true, if-false,
}
use rust_modbus.Error.{Result, desynchronized, timeout}
use rust_modbus.Frame.Pdu.Response.{ResponsePdu}
use rust_modbus.Client.Framing.{client_tcp}
use rust_modbus.Client.Pipeline.{
  Task, Command, Waiting, write, answer, remove_timer, find, remove, issue, desynchronize, register,
  on_command, on_unmatched, on_response, on_expired,
}

module _ (task : Task) where
  pub on_command-refused :
      (c : Command) (written : Result ℕ)
      → task.is_desynchronized ≡ true
      → on_command c written task ≡ (task, answer c.reply (err desynchronized) ∷ [])
  unfolding on_command
  on_command-refused c written h = if-true task.is_desynchronized _ _ h

  pub on_command-registered :
      (c : Command) (written : Result ℕ)
      → task.is_desynchronized ≡ false
      → on_command c written task ≡ (
        (register c written (record task { issued = issue task.issued c.transaction })).0,
        write (client_tcp.request_header c.unit c.transaction) c.request
            ∷ (register c written (record task { issued = issue task.issued c.transaction })).1,
      )
  unfolding on_command
  on_command-registered c written h = if-false task.is_desynchronized _ _ h

  module _ (transaction : ℕ) where
    pub on_response-matched :
        (response : ResponsePdu) (entry : Waiting)
        → find transaction task.in_flight ≡ some entry
        → on_response transaction response task ≡ (
          record task { in_flight = remove transaction task.in_flight },
          remove_timer entry.key ∷ answer entry.reply (ok response) ∷ [],
        )
    unfolding on_response
    on_response-matched response entry h = rw (h, on_response) refl

    pub on_response-late :
        (response : ResponsePdu)
        → find transaction task.in_flight ≡ none
        → task.issued transaction ≡ true
        → on_response transaction response task ≡ (task, [])
    unfolding on_response on_unmatched
    on_response-late response h i = rw (h, on_response) (if-true (task.issued transaction) _ _ i)

    pub on_response-unknown :
        (response : ResponsePdu)
        → find transaction task.in_flight ≡ none
        → task.issued transaction ≡ false
        → on_response transaction response task ≡ desynchronize task
    unfolding on_response on_unmatched
    on_response-unknown response h i =
        rw (h, on_response) (if-false (task.issued transaction) _ _ i)

    pub on_expired-alone :
        (entry : Waiting)
        → find transaction task.in_flight ≡ some entry
        → on_expired false transaction task ≡ (
          record task { in_flight = remove transaction task.in_flight },
          answer entry.reply (err (timeout "response")) ∷ [],
        )
    unfolding on_expired
    on_expired-alone entry h = rw (h, on_expired) refl

    pub on_expired-all :
        (entry : Waiting)
        → find transaction task.in_flight ≡ some entry
        → on_expired true transaction task ≡ (
          (desynchronize (record task { in_flight = remove transaction task.in_flight })).0,
          answer entry.reply (err (timeout "response"))
              ∷ (desynchronize (record task { in_flight = remove transaction task.in_flight })).1,
        )
    unfolding on_expired
    on_expired-all entry h = rw (h, on_expired) refl

    pub on_expired-gone :
        (timeout_desyncs : Bool)
        → find transaction task.in_flight ≡ none
        → on_expired timeout_desyncs transaction task ≡ (task, [])
    unfolding on_expired
    on_expired-gone timeout_desyncs h = rw (h, on_expired) refl
