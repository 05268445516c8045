-- ===== src/Client/Pipeline/Invariant.antt =====
-- The state of the task of src/client/pipeline.rs between two passes of its loop.
use rust_modbus.Prelude.{
  ℕ, ◌≡◌, refl, ap, inl, inr, Bool, true, false, some, List, [], ◌∷◌, arith, Bool-cases, All, ok,
  err, stuck, Option-cases,
}
use rust_modbus.Client.Pipeline.{
  Task, Event, Command, Waiting, command, received, expired, new_task, find, remove, issue,
  desynchronize, register, on_command, on_response, on_received, on_expired, step, run,
}
use rust_modbus.Error.{Result}
use rust_modbus.Frame.Tcp.Header.{MbapHeader}
use rust_modbus.Frame.Pdu.Response.{ResponsePdu}
use rust_modbus.Client.Pipeline.Cases.{
  on_command-refused, on_command-registered, on_response-matched, on_response-late,
  on_response-unknown, on_expired-alone, on_expired-all, on_expired-gone,
}
use rust_modbus.Client.Pipeline.Table.{IsDistinct, find-remove, remove-IsDistinct, remove-All}

-- The identifier of an entry was issued.
unfoldable pub WasIssued : (ℕ → Bool) → Waiting → Type 0
WasIssued issued entry = issued entry.transaction ≡ true

-- One entry for an identifier, each under an identifier that was issued, and none left once
-- desynchronized.
pub record IsValid (task : Task) : Type 0 where
  pub distinct : IsDistinct task.in_flight
  pub was_issued : All (WasIssued task.issued) task.in_flight
  pub silent : task.is_desynchronized ≡ true → task.in_flight ≡ []

issued-now : (issued : ℕ → Bool) (transaction : ℕ) → issue issued transaction transaction ≡ true
unfolding issue
issued-now issued transaction = ground arith

still-issued :
    (issued : ℕ → Bool) (transaction : ℕ) (entries : List Waiting)
    → All (WasIssued issued) entries
    → All (WasIssued (issue issued transaction)) entries
unfolding WasIssued issue
still-issued issued transaction [] h = tt
still-issued issued transaction (entry ∷ entries) (h, hs) =
    (ground arith, still-issued issued transaction entries hs)

desynchronize-IsValid : (task : Task) → IsValid (desynchronize task).0
unfolding desynchronize IsDistinct
desynchronize-IsValid task = record { distinct = tt; was_issued = tt; silent = λ h. refl }

remove-IsValid :
    (transaction : ℕ) (task : Task)
    → IsValid task
    → IsValid (record task { in_flight = remove transaction task.in_flight })
unfolding remove
remove-IsValid transaction task v = record {
  distinct = remove-IsDistinct transaction task.in_flight v.distinct;
  was_issued = remove-All (WasIssued task.issued) transaction task.in_flight v.was_issued;
  silent = λ h. ap (remove transaction) (v.silent h);
}

-- The entry of a request that was written, under the identifier that was issued for it.
registered-IsValid :
    (entry : Waiting) (task : Task)
    → IsValid task
    → task.is_desynchronized ≡ false
    → IsValid (record task {
      in_flight = entry ∷ remove entry.transaction task.in_flight;
      issued = issue task.issued entry.transaction;
    })
unfolding IsDistinct WasIssued
registered-IsValid entry task v live =
    let kept = remove-IsValid entry.transaction task v in
    record {
      distinct = (find-remove entry.transaction task.in_flight, kept.distinct);
      was_issued = (
        issued-now task.issued entry.transaction,
        still-issued task.issued entry.transaction (remove entry.transaction task.in_flight)
            kept.was_issued,
      );
      silent = λ h. cc;
    }

register-IsValid :
    (c : Command) (written : Result ℕ) (task : Task)
    → IsValid task
    → task.is_desynchronized ≡ false
    → IsValid (register c written (record task { issued = issue task.issued c.transaction })).0
unfolding register
register-IsValid c (ok key) task v live =
    registered-IsValid (record { transaction = c.transaction; reply = c.reply; key = key }) task v
      live
register-IsValid c (err error) task v live =
    desynchronize-IsValid (record task { issued = issue task.issued c.transaction })
register-IsValid c stuck task v live = record {
  distinct = v.distinct;
  was_issued = still-issued task.issued c.transaction task.in_flight v.was_issued;
  silent = v.silent;
}

on_command-IsValid :
    (c : Command) (written : Result ℕ) (task : Task)
    → IsValid task
    → IsValid (on_command c written task).0
on_command-IsValid c written task v = elim (Bool-cases task.is_desynchronized) [
  | inl dead ↦ rw (on_command-refused task c written dead) v
  | inr live ↦
      rw (on_command-registered task c written live) (register-IsValid c written task v live)
]

on_response-IsValid :
    (transaction : ℕ) (response : ResponsePdu) (task : Task)
    → IsValid task
    → IsValid (on_response transaction response task).0
on_response-IsValid transaction response task v =
    elim (Option-cases (find transaction task.in_flight)) [
      | inr (entry, e) ↦
          rw (on_response-matched task transaction response entry e)
            (remove-IsValid transaction task v)
      | inl e ↦ elim (Bool-cases (task.issued transaction)) [
        | inl late ↦ rw (on_response-late task transaction response e late) v
        | inr unknown ↦
            rw (on_response-unknown task transaction response e unknown)
              (desynchronize-IsValid task)
      ]
    ]

on_received-IsValid :
    (result : Result (MbapHeader × ResponsePdu)) (task : Task)
    → IsValid task
    → IsValid (on_received result task).0
unfolding on_received
on_received-IsValid (ok (header, response)) task v =
    on_response-IsValid header.transaction_id response task v
on_received-IsValid (err error) task v = desynchronize-IsValid task
on_received-IsValid stuck task v = v

expired-IsValid :
    (timeout_desyncs : Bool) (transaction : ℕ) (task : Task) (entry : Waiting)
    → IsValid task
    → find transaction task.in_flight ≡ some entry
    → IsValid (on_expired timeout_desyncs transaction task).0
expired-IsValid true transaction task entry v e =
    rw (on_expired-all task transaction entry e)
      (desynchronize-IsValid (record task { in_flight = remove transaction task.in_flight }))
expired-IsValid false transaction task entry v e =
    rw (on_expired-alone task transaction entry e) (remove-IsValid transaction task v)

on_expired-IsValid :
    (timeout_desyncs : Bool) (transaction : ℕ) (task : Task)
    → IsValid task
    → IsValid (on_expired timeout_desyncs transaction task).0
on_expired-IsValid timeout_desyncs transaction task v =
    elim (Option-cases (find transaction task.in_flight)) [
      | inl e ↦ rw (on_expired-gone task transaction timeout_desyncs e) v
      | inr (entry, e) ↦ expired-IsValid timeout_desyncs transaction task entry v e
    ]

-- Every pass of the loop, whatever it takes up, keeps the entries in flight under different
-- identifiers, each of which was issued, and keeps none once the handle is desynchronized.
pub step-IsValid :
    (timeout_desyncs : Bool) (event : Event) (task : Task)
    → IsValid task
    → IsValid (step timeout_desyncs event task).0
unfolding step
step-IsValid timeout_desyncs (command c written) task v = on_command-IsValid c written task v
step-IsValid timeout_desyncs (received result) task v = on_received-IsValid result task v
step-IsValid timeout_desyncs (expired transaction) task v =
    on_expired-IsValid timeout_desyncs transaction task v

pub new_task-IsValid : IsValid new_task
unfolding IsDistinct
new_task-IsValid = record { distinct = tt; was_issued = tt; silent = λ h. refl }

-- So does every run of the loop.
pub run-IsValid :
    (timeout_desyncs : Bool) (events : List Event) (task : Task)
    → IsValid task
    → IsValid (run timeout_desyncs events task).0
unfolding run
run-IsValid timeout_desyncs [] task v = v
run-IsValid timeout_desyncs (event ∷ events) task v =
    run-IsValid timeout_desyncs events (step timeout_desyncs event task).0
      (step-IsValid timeout_desyncs event task v)
