-- ===== src/Client/Pipeline/Displaced.antt =====
-- An identifier that comes round again while it is in flight (`in_flight.insert` of
-- src/client/pipeline.rs).
use rust_modbus.Prelude.{ℕ, ◌+◌, ◌≡◌, refl, ◌≢◌, Bool, false, some, List, arith, ok}
use rust_modbus.Client.Pipeline.{Task, Action, Command, Waiting, command, find, register, step}
use rust_modbus.Client.Pipeline.Cases.{on_command-registered}
use rust_modbus.Client.Pipeline.Invariant.{IsValid}
use rust_modbus.Client.Pipeline.Count.{answered, holding, one_if, holding-remove}

-- When a command with a channel of its own is written under the identifier of a request in flight,
-- on a handle in use and in a valid state, the entry of that request is replaced: its channel is
-- dropped unanswered.
pub insert-displaces :
    (timeout_desyncs : Bool) (c : Command) (key : ℕ) (task : Task) (old : Waiting)
    → IsValid task
    → task.is_desynchronized ≡ false
    → find c.transaction task.in_flight ≡ some old
    → c.reply ≢ old.reply
    → let after : Task × List Action = step timeout_desyncs (command c (ok key)) task in
      (answered old.reply after.1 ≡ 0)
      × (holding old.reply task.in_flight ≡ 1 + holding old.reply after.0.in_flight)
unfolding step register answered holding one_if
insert-displaces timeout_desyncs c key task old valid live e distinct =
    let counts = holding-remove old.reply c.transaction task.in_flight old valid.distinct e in
    rw (on_command-registered task c (ok key) live) (refl, ground arith)
