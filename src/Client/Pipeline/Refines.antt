-- ===== src/Client/Pipeline/Refines.antt =====
-- The task of src/client/pipeline.rs keeps what Client/Pipeline/Spec promises.
use rust_modbus.Prelude.{
  ℕ, ◌≡◌, refl, sym, ap, subst, inl, inr, Bool, true, false, none, some, List, [], ◌∷◌, ◌++◌,
  Bool-cases, ok, err, stuck, Option-cases,
}
use rust_modbus.Error.{Result, timeout}
use rust_modbus.Frame.Tcp.Header.{MbapHeader}
use rust_modbus.Frame.Pdu.Response.{ResponsePdu}
use rust_modbus.Client.Pipeline.{
  Task, Event, Command, Waiting, Action, command, received, expired, answer, write, remove_timer,
  find, remove, fail_entries, issue, desynchronize, register, on_command, on_received, on_expired,
  step, run,
}
use rust_modbus.Client.Pipeline.Table.{remove-IsDistinct}
use rust_modbus.Client.Pipeline.Cases.{
  on_command-refused, on_command-registered, on_response-matched, on_response-late,
  on_response-unknown, on_expired-alone, on_expired-all, on_expired-gone,
}
use rust_modbus.Client.Pipeline.Invariant.{IsValid, step-IsValid}
use rust_modbus.Client.Pipeline.Spec.{
  Spec, Answers, AreFailures, Transition, refuses, submits, fails_to_submit, never_submits,
  answers_pending, drops_late, fails_on_stranger, fails_on_loss, never_receives, expires_alone,
  expires_all, ignores_stale, Run, ends, goes_on, reply_of, view, answers_of,
}
use rust_modbus.Client.Pipeline.Views.{
  fail_entries-AreFailures, pending-remove, view-remove, view-register,
}

-- What one pass comes to refines what may come of its event.
abbrev Refined : Bool → Event → Task → Task × List Action → Type 0
Refined timeout_desyncs event task (task', actions) =
    Transition timeout_desyncs (view task) event (answers_of actions) (view task')

registered-Refined :
    (timeout_desyncs : Bool) (c : Command) (written : Result ℕ) (task : Task)
    → IsValid task
    → task.is_desynchronized ≡ false
    → let (task', actions) =
        register c written (record task { issued = issue task.issued c.transaction }) in
      Transition timeout_desyncs (view task) (command c written) (answers_of actions) (view task')
unfolding answers_of register desynchronize view find reply_of
registered-Refined timeout_desyncs c (ok key) task v live =
    subst (λ (s : Spec). Transition timeout_desyncs (view task) (command c (ok key)) [] s)
      (sym (view-register c key task)) (submits c key live)
registered-Refined timeout_desyncs c (err error) task v live =
    fails_to_submit c error (answers_of (fail_entries task.in_flight)) live
      (fail_entries-AreFailures task.in_flight v.distinct)
registered-Refined timeout_desyncs c stuck task v live = never_submits c live

on_command-Refined :
    (timeout_desyncs : Bool) (c : Command) (written : Result ℕ) (task : Task)
    → IsValid task
    → Refined timeout_desyncs (command c written) task (on_command c written task)
unfolding answers_of view
on_command-Refined timeout_desyncs c written task v = elim (Bool-cases task.is_desynchronized) [
  | inl dead ↦ rw (on_command-refused task c written dead) (refuses c written dead)
  | inr live ↦
      rw (on_command-registered task c written live)
        (registered-Refined timeout_desyncs c written task v live)
]

on_received-Refined :
    (timeout_desyncs : Bool) (result : Result (MbapHeader × ResponsePdu)) (task : Task)
    → IsValid task
    → Refined timeout_desyncs (received result) task (on_received result task)
unfolding on_received desynchronize answers_of view find reply_of
on_received-Refined timeout_desyncs stuck task v = never_receives
on_received-Refined timeout_desyncs (err error) task v =
    fails_on_loss error (answers_of (fail_entries task.in_flight))
      (fail_entries-AreFailures task.in_flight v.distinct)
on_received-Refined timeout_desyncs (ok (header, response)) task v =
    let transaction : ℕ = header.transaction_id in
    elim (Option-cases (find transaction task.in_flight)) [
      | inr (entry, e) ↦ rw (on_response-matched task transaction response entry e) (
          subst
            (λ (s : Spec).
              Transition timeout_desyncs (view task) (received (ok (header, response)))
                ((entry.reply, ok response) ∷ []) s)
            (sym (view-remove transaction task))
            (answers_pending header response entry.reply (ap reply_of e)))
      | inl e ↦ elim (Bool-cases (task.issued transaction)) [
        | inl late ↦
            rw (on_response-late task transaction response e late)
              (drops_late header response (ap reply_of e) late)
        | inr unknown ↦ rw (on_response-unknown task transaction response e unknown) (
            fails_on_stranger header response (answers_of (fail_entries task.in_flight))
              (ap reply_of e) unknown (fail_entries-AreFailures task.in_flight v.distinct))
      ]
    ]

expired-Refined :
    (timeout_desyncs : Bool) (transaction : ℕ) (task : Task) (entry : Waiting)
    → IsValid task
    → find transaction task.in_flight ≡ some entry
    → Refined timeout_desyncs
        (expired transaction)
        task
        (on_expired timeout_desyncs transaction task)
unfolding desynchronize answers_of view find reply_of
expired-Refined true transaction task entry v e =
    let left : List Waiting = remove transaction task.in_flight in
    let distinct = remove-IsDistinct transaction task.in_flight v.distinct in
    rw (on_expired-all task transaction entry e) (
      expires_all transaction entry.reply (answers_of (fail_entries left)) refl (ap reply_of e) (
        subst (λ pending. AreFailures pending (answers_of (fail_entries left)))
          (pending-remove transaction task.in_flight) (fail_entries-AreFailures left distinct)))
expired-Refined false transaction task entry v e = rw (on_expired-alone task transaction entry e) (
    subst
      (λ (s : Spec).
        Transition false (view task) (expired transaction)
          ((entry.reply, err (timeout "response")) ∷ []) s)
      (sym (view-remove transaction task))
      (expires_alone transaction entry.reply refl (ap reply_of e)))

stale :
    (timeout_desyncs : Bool) (transaction : ℕ) (task : Task)
    → find transaction task.in_flight ≡ none
    → Transition timeout_desyncs (view task) (expired transaction) (answers_of []) (view task)
unfolding view reply_of answers_of
stale timeout_desyncs transaction task e = ignores_stale transaction (ap reply_of e)

-- Every pass of the loop, from a valid state, is one that the specification allows.
pub step-Refined :
    (timeout_desyncs : Bool) (event : Event) (task : Task)
    → IsValid task
    → Refined timeout_desyncs event task (step timeout_desyncs event task)
unfolding step
step-Refined timeout_desyncs (command c written) task v =
    on_command-Refined timeout_desyncs c written task v
step-Refined timeout_desyncs (received result) task v =
    on_received-Refined timeout_desyncs result task v
step-Refined timeout_desyncs (expired transaction) task v =
    elim (Option-cases (find transaction task.in_flight)) [
      | inl e ↦
          rw (on_expired-gone task transaction timeout_desyncs e)
            (stale timeout_desyncs transaction task e)
      | inr (entry, e) ↦ expired-Refined timeout_desyncs transaction task entry v e
    ]

answers_of-append : (xs ys : List Action) → answers_of (xs ++ ys) ≡ answers_of xs ++ answers_of ys
unfolding answers_of
answers_of-append [] ys = refl
answers_of-append (write header request ∷ xs) ys = answers_of-append xs ys
answers_of-append (answer reply result ∷ xs) ys =
    ap (λ (l : Answers). (reply, result) ∷ l) (answers_of-append xs ys)
answers_of-append (remove_timer key ∷ xs) ys = answers_of-append xs ys

-- Every run of the task from a valid state is a run of the specification, which knows neither the
-- table of the task nor its timers nor the order in which it fails what is in flight: the answers
-- that callers get, in the order in which they get them, and the state in the end, seen so, are
-- those of such a run.
pub run-Refined :
    (timeout_desyncs : Bool) (events : List Event) (task : Task)
    → IsValid task
    → Run timeout_desyncs
        (view task)
        events
        (answers_of (run timeout_desyncs events task).1)
        (view (run timeout_desyncs events task).0)
unfolding run answers_of
run-Refined timeout_desyncs [] task v = ends
run-Refined timeout_desyncs (event ∷ events) task v =
    let (task', actions) = step timeout_desyncs event task in
    let rest = run timeout_desyncs events task' in
    rw (answers_of-append actions rest.1) (
      goes_on (step-Refined timeout_desyncs event task v)
        (run-Refined timeout_desyncs events task' (step-IsValid timeout_desyncs event task v)))
