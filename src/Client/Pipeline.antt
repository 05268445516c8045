-- ===== src/Client/Pipeline.antt =====
-- The background task of a pipelined client (`run` of src/client/pipeline.rs). Its timers, channels
-- and sockets are the environment: what they deliver is an event, what is asked of them an action.
use rust_modbus.Prelude.{
  ℕ, Bool, true, false, ◌||◌, Option, none, some, List, [], ◌∷◌, ◌++◌, ◌==◌, if◌then◌else◌, ok, err,
  stuck,
}
use rust_modbus.Error.{Result, desynchronized, timeout}
use rust_modbus.Frame.Tcp.Header.{MbapHeader}
use rust_modbus.Frame.Pdu.Request.{RequestPdu}
use rust_modbus.Frame.Pdu.Response.{ResponsePdu}
use rust_modbus.Client.Framing.{client_tcp}
pub mod Table
pub mod Cases
pub mod Invariant
pub mod Count
pub mod Answers
pub mod Desynchronized
pub mod Expiry
pub mod Isolation
pub mod Displaced
pub mod Handle
pub mod Unencodable
pub mod Spec
pub mod Views
pub mod Refines

-- `Command::Send`; the channel for the answer is a number.
pub record Command : Type 0 where
  pub transaction : ℕ
  pub unit : ℕ
  pub request : RequestPdu
  pub reply : ℕ

-- An entry of `in_flight`: the channel for the answer, and the key of the timer.
pub record Waiting : Type 0 where
  pub transaction : ℕ
  pub reply : ℕ
  pub key : ℕ

-- What the task owns. `issued` has one Boolean for each of the 65536 identifiers.
pub record Task : Type 0 where
  pub is_desynchronized : Bool
  pub in_flight : List Waiting
  pub issued : ℕ → Bool

-- What `select!` takes up next. A command comes with the outcome of writing it, and then with the
-- key under which `DelayQueue::insert` has set its timer.
pub data Event : Type 0 where
  command : Command → (written : Result ℕ) → Event
  received : Result (MbapHeader × ResponsePdu) → Event
  expired : (transaction : ℕ) → Event

pub data Action : Type 0 where
  write : MbapHeader → RequestPdu → Action
  answer : (reply : ℕ) → Result ResponsePdu → Action
  remove_timer : (key : ℕ) → Action

abbrev pub new_task : Task
new_task = record { is_desynchronized = false; in_flight = []; issued = λ transaction. false }

-- `HashMap::get` and `remove`, on a map with one entry for a key.
unfoldable pub find : ℕ → List Waiting → Option Waiting
find transaction [] = none
find transaction (entry ∷ entries) =
    if entry.transaction == transaction then some entry else find transaction entries

unfoldable pub remove : ℕ → List Waiting → List Waiting
remove transaction [] = []
remove transaction (entry ∷ entries) =
    if entry.transaction == transaction
    then remove transaction entries
    else entry ∷ remove transaction entries

unfoldable pub issue : (ℕ → Bool) → ℕ → ℕ → Bool
issue issued transaction i = i == transaction || issued i

-- `fail_all`: the order of a `HashMap` is any order, here that of the list.
unfoldable pub fail_entries : List Waiting → List Action
fail_entries [] = []
fail_entries (entry ∷ entries) =
    remove_timer entry.key ∷ answer entry.reply (err desynchronized) ∷ fail_entries entries

-- `desynchronized.store(true)`, and `fail_all` on the entries.
unfoldable pub desynchronize : Task → Task × List Action
unfolding fail_entries
desynchronize task =
    (record task { is_desynchronized = true; in_flight = [] }, fail_entries task.in_flight)

-- Registration of a request that was written, or not.
unfoldable pub register : Command → Result ℕ → Task → Task × List Action
unfolding desynchronize remove
register c (ok key) task =
    let entry : Waiting = record { transaction = c.transaction; reply = c.reply; key = key } in
    (record task { in_flight = entry ∷ remove c.transaction task.in_flight }, [])
register c (err error) task =
    let (task', actions) = desynchronize task in (task', answer c.reply (err error) ∷ actions)
register c stuck task = (task, [])

unfoldable pub on_command : Command → Result ℕ → Task → Task × List Action
unfolding register issue
on_command c written task =
    let task' = record task { issued = issue task.issued c.transaction } in
    let (task'', actions) = register c written task' in
    let header = client_tcp.request_header c.unit c.transaction in
    if task.is_desynchronized
    then (task, answer c.reply (err desynchronized) ∷ [])
    else (task'', write header c.request ∷ actions)

-- A response whose identifier is not in flight: late if it was issued, else not this handle's.
unfoldable pub on_unmatched : ℕ → Task → Task × List Action
unfolding desynchronize
on_unmatched transaction task = if task.issued transaction then (task, []) else desynchronize task

unfoldable pub on_response : ℕ → ResponsePdu → Task → Task × List Action
unfolding find remove on_unmatched
on_response transaction response task = elim (find transaction task.in_flight) [
  | some entry ↦ (
    record task { in_flight = remove transaction task.in_flight },
    remove_timer entry.key ∷ answer entry.reply (ok response) ∷ [],
  )
  | none ↦ on_unmatched transaction task
]

unfoldable pub on_received : Result (MbapHeader × ResponsePdu) → Task → Task × List Action
unfolding on_response desynchronize
on_received (ok (header, response)) task = on_response header.transaction_id response task
on_received (err error) task = desynchronize task
on_received stuck task = (task, [])

-- `timeout_desyncs` is `TIMEOUT_DESYNCS` of the transport: true for a stream, false for UDP.
unfoldable pub on_expired : Bool → ℕ → Task → Task × List Action
unfolding find remove desynchronize
on_expired timeout_desyncs transaction task = elim (find transaction task.in_flight) [
  | some entry ↦
      let task' = record task { in_flight = remove transaction task.in_flight } in
      let (task'', actions) = if timeout_desyncs then desynchronize task' else (task', []) in
      (task'', answer entry.reply (err (timeout "response")) ∷ actions)
  | none ↦ (task, [])
]

-- One pass of the loop.
unfoldable pub step : Bool → Event → Task → Task × List Action
unfolding on_command on_received on_expired
step timeout_desyncs (command c written) task = on_command c written task
step timeout_desyncs (received result) task = on_received result task
step timeout_desyncs (expired transaction) task = on_expired timeout_desyncs transaction task

unfoldable pub run : Bool → List Event → Task → Task × List Action
run timeout_desyncs [] task = (task, [])
run timeout_desyncs (event ∷ events) task =
    let (task', actions) = step timeout_desyncs event task in
    let (task'', rest) = run timeout_desyncs events task' in (task'', actions ++ rest)
