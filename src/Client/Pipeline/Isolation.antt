-- ===== src/Client/Pipeline/Isolation.antt =====
-- What a timeout leaves of the other requests of src/client/pipeline.rs.
use rust_modbus.Prelude.{ℕ, ◌≡◌, refl, sym, ap, ◌∙◌, ◌≢◌, false, some, List, [], ◌∷◌, ok, err}
use rust_modbus.Error.{timeout}
use rust_modbus.Frame.Pdu.Response.{ResponsePdu}
use rust_modbus.Frame.Tcp.Header.{MbapHeader}
use rust_modbus.Client.Pipeline.{
  Task, Action, Waiting, received, expired, answer, find, remove, on_received, step,
}
use rust_modbus.Client.Pipeline.Table.{find-remove, find-remove_other, find-All}
use rust_modbus.Client.Pipeline.Cases.{on_response-late, on_expired-alone}
use rust_modbus.Client.Pipeline.Invariant.{IsValid, WasIssued}

-- Over UDP, in a valid state, the timeout of a request in flight answers that one with the timeout;
-- the handle is not desynchronized by it, what is in flight under any other identifier stays, and
-- the response, when it comes after all, changes and answers nothing.
pub expired-isolated :
    (header : MbapHeader) (response : ResponsePdu) (task : Task) (entry : Waiting) (other : ℕ)
    → IsValid task
    → find header.transaction_id task.in_flight ≡ some entry
    → other ≢ header.transaction_id
    → let after : Task × List Action = step false (expired header.transaction_id) task in
      (after.1 ≡ answer entry.reply (err (timeout "response")) ∷ [])
      × (after.0.is_desynchronized ≡ task.is_desynchronized)
      × (find other after.0.in_flight ≡ find other task.in_flight)
      × (step false (received (ok (header, response))) after.0 ≡ (after.0, []))
unfolding step on_received WasIssued
expired-isolated header response task entry other valid e distinct =
    let transaction : ℕ = header.transaction_id in
    let left : Task = record task { in_flight = remove transaction task.in_flight } in
    let (issued, key) =
      find-All (WasIssued task.issued) transaction task.in_flight entry valid.was_issued e in
    rw (on_expired-alone task transaction entry e) (
      refl,
      refl,
      find-remove_other transaction other task.in_flight distinct,
      on_response-late left transaction response (find-remove transaction task.in_flight)
          (ap task.issued (sym key) ∙ issued),
    )
