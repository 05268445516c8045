-- ===== src/Client/Pipeline/Spec.antt =====
-- What a pipelined client promises, without the table, the timers and the order of its task
-- (CL-R-084 to CL-R-092, `run` of src/client/pipeline.rs).
use rust_modbus.Prelude.{
  ℕ, ◌≡◌, Bool, true, false, Option, none, some, List, [], ◌∷◌, ◌++◌, ◌==◌, if◌then◌else◌, ok, err,
  stuck,
}
use rust_modbus.Error.{Error, Result, desynchronized, timeout}
use rust_modbus.Frame.Tcp.Header.{MbapHeader}
use rust_modbus.Frame.Pdu.Response.{ResponsePdu}
use rust_modbus.Client.Pipeline.{
  Task, Event, Command, Waiting, Action, command, received, expired, answer, write, remove_timer,
  find, issue,
}

-- The channel that waits for each identifier, if any; the identifiers that were issued; and whether
-- the client is done for.
pub record Spec : Type 0 where
  pub broken : Bool
  pub pending : ℕ → Option ℕ
  pub issued : ℕ → Bool

abbrev pub Answers : Type 0
Answers = List (ℕ × Result ResponsePdu)

abbrev pub put : ℕ → ℕ → (ℕ → Option ℕ) → ℕ → Option ℕ
put transaction reply pending i = if transaction == i then some reply else pending i

abbrev pub clear : ℕ → (ℕ → Option ℕ) → ℕ → Option ℕ
clear transaction pending i = if transaction == i then none else pending i

abbrev pub forget : ℕ → Spec → Spec
forget transaction s = record s { pending = clear transaction s.pending }

abbrev pub failed : Spec → Spec
failed s = record s { broken = true; pending = λ i. none }

abbrev pub started : Command → Spec → Spec
started c s = record s { issued = issue s.issued c.transaction }

abbrev pub submitted : Command → Spec → Spec
submitted c s = record s {
  pending = put c.transaction c.reply s.pending;
  issued = issue s.issued c.transaction;
}

-- The channel that a table of identifiers and channels has for an identifier, and whether it has
-- each identifier once.
unfoldable pub lookup : ℕ → List (ℕ × ℕ) → Option ℕ
lookup transaction [] = none
lookup transaction ((i, reply) ∷ table) =
    if i == transaction then some reply else lookup transaction table

unfoldable pub HasNoRepeats : List (ℕ × ℕ) → Type 0
HasNoRepeats [] = Unit
HasNoRepeats ((i, reply) ∷ table) = (lookup i table ≡ none) × HasNoRepeats table

unfoldable pub failures : List (ℕ × ℕ) → Answers
failures [] = []
failures ((i, reply) ∷ table) = (reply, err desynchronized) ∷ failures table

-- The answers are one failure of each pending request, and nothing else, in some order.
pub record AreFailures (pending : ℕ → Option ℕ) (answers : Answers) : Type 0 where
  pub table : List (ℕ × ℕ)
  pub once : HasNoRepeats table
  pub lists : (transaction : ℕ) → lookup transaction table ≡ pending transaction
  pub fails : answers ≡ failures table

-- What may come of an event: the answers given, and the state after it.
pub data Transition (timeout_desyncs : Bool) (s : Spec) : Event → Answers → Spec → Type 0 where
  refuses :
      (c : Command) (written : Result ℕ)
      → s.broken ≡ true
      → Transition timeout_desyncs s (command c written) ((c.reply, err desynchronized) ∷ []) s
  submits :
      (c : Command) (key : ℕ)
      → s.broken ≡ false
      → Transition timeout_desyncs s (command c (ok key)) [] (submitted c s)
  fails_to_submit :
      (c : Command) (error : Error) (answers : Answers)
      → s.broken ≡ false
      → AreFailures s.pending answers
      → Transition timeout_desyncs s
          (command c (err error))
          ((c.reply, err error) ∷ answers)
          (failed (started c s))
  never_submits :
      (c : Command)
      → s.broken ≡ false
      → Transition timeout_desyncs s (command c stuck) [] (started c s)
  answers_pending :
      (header : MbapHeader) (response : ResponsePdu) (reply : ℕ)
      → s.pending header.transaction_id ≡ some reply
      → Transition timeout_desyncs s
          (received (ok (header, response)))
          ((reply, ok response) ∷ [])
          (forget header.transaction_id s)
  drops_late :
      (header : MbapHeader) (response : ResponsePdu)
      → s.pending header.transaction_id ≡ none
      → s.issued header.transaction_id ≡ true
      → Transition timeout_desyncs s (received (ok (header, response))) [] s
  fails_on_stranger :
      (header : MbapHeader) (response : ResponsePdu) (answers : Answers)
      → s.pending header.transaction_id ≡ none
      → s.issued header.transaction_id ≡ false
      → AreFailures s.pending answers
      → Transition timeout_desyncs s (received (ok (header, response))) answers (failed s)
  fails_on_loss :
      (error : Error) (answers : Answers)
      → AreFailures s.pending answers
      → Transition timeout_desyncs s (received (err error)) answers (failed s)
  never_receives : Transition timeout_desyncs s (received stuck) [] s
  expires_alone :
      (transaction reply : ℕ)
      → timeout_desyncs ≡ false
      → s.pending transaction ≡ some reply
      → Transition timeout_desyncs s
          (expired transaction)
          ((reply, err (timeout "response")) ∷ [])
          (forget transaction s)
  expires_all :
      (transaction reply : ℕ) (answers : Answers)
      → timeout_desyncs ≡ true
      → s.pending transaction ≡ some reply
      → AreFailures (clear transaction s.pending) answers
      → Transition timeout_desyncs s
          (expired transaction)
          ((reply, err (timeout "response")) ∷ answers)
          (failed (forget transaction s))
  ignores_stale :
      (transaction : ℕ)
      → s.pending transaction ≡ none
      → Transition timeout_desyncs s (expired transaction) [] s

-- A run of events.
pub data Run (timeout_desyncs : Bool) : Spec → List Event → Answers → Spec → Type 0 where
  ends : {s : Spec} → Run timeout_desyncs s [] [] s
  goes_on :
      {s s' s'' : Spec} {event : Event} {events : List Event} {now later : Answers}
      → Transition timeout_desyncs s event now s'
      → Run timeout_desyncs s' events later s''
      → Run timeout_desyncs s (event ∷ events) (now ++ later) s''

-- The task, seen so.
unfoldable pub reply_of : Option Waiting → Option ℕ
reply_of none = none
reply_of (some entry) = some entry.reply

unfoldable pub view : Task → Spec
unfolding reply_of
view task = record {
  broken = task.is_desynchronized;
  pending = λ transaction. reply_of (find transaction task.in_flight);
  issued = task.issued;
}

-- The answers among the actions, in the order in which they were given.
unfoldable pub answers_of : List Action → Answers
answers_of [] = []
answers_of (write header request ∷ actions) = answers_of actions
answers_of (answer reply result ∷ actions) = (reply, result) ∷ answers_of actions
answers_of (remove_timer key ∷ actions) = answers_of actions
