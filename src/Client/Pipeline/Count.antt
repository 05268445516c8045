-- ===== src/Client/Pipeline/Count.antt =====
-- How often a request of src/client/pipeline.rs is answered: the answers on its channel, and the
-- entries in flight that hold it.
use rust_modbus.Prelude.{
  ℕ, ◌+◌, ◌≡◌, refl, inl, inr, Bool, true, false, none, some, List, [], ◌∷◌, ◌++◌, arith, ◌==◌,
  Bool-cases, ok, err, stuck,
}
use rust_modbus.Client.Pipeline.{
  Task, Event, Action, Waiting, command, received, expired, write, answer, remove_timer, find,
  remove, desynchronize, fail_entries, step,
}
use rust_modbus.Client.Pipeline.Table.{IsDistinct, remove_absent}

unfoldable pub one_if : Bool → ℕ
one_if true = 1
one_if false = 0

-- Answers sent on a channel.
unfoldable pub answered : ℕ → List Action → ℕ
unfolding one_if
answered reply [] = 0
answered reply (answer other result ∷ actions) = one_if (other == reply) + answered reply actions
answered reply (write header request ∷ actions) = answered reply actions
answered reply (remove_timer key ∷ actions) = answered reply actions

-- Entries that hold a channel.
unfoldable pub holding : ℕ → List Waiting → ℕ
unfolding one_if
holding reply [] = 0
holding reply (entry ∷ entries) = one_if (entry.reply == reply) + holding reply entries

-- Commands that bring a channel.
unfoldable pub submitted : ℕ → List Event → ℕ
unfolding one_if
submitted reply [] = 0
submitted reply (command c written ∷ events) = one_if (c.reply == reply) + submitted reply events
submitted reply (received result ∷ events) = submitted reply events
submitted reply (expired transaction ∷ events) = submitted reply events

-- No command comes under an identifier that is in flight, and every write has ended.
unfoldable pub IsFresh : Event → Task → Type 0
IsFresh (command c (ok key)) task = find c.transaction task.in_flight ≡ none
IsFresh (command c (err error)) task = Unit
IsFresh (command c stuck) task = ⊥
IsFresh (received result) task = Unit
IsFresh (expired transaction) task = Unit

unfoldable pub AreFresh : Bool → List Event → Task → Type 0
unfolding IsFresh
AreFresh timeout_desyncs [] task = Unit
AreFresh timeout_desyncs (event ∷ events) task =
    IsFresh event task × AreFresh timeout_desyncs events (step timeout_desyncs event task).0

pub answered-append :
    (reply : ℕ) (xs ys : List Action)
    → answered reply (xs ++ ys) ≡ answered reply xs + answered reply ys
unfolding answered
answered-append reply [] ys = omega arith
answered-append reply (answer other result ∷ xs) ys = omega (arith, answered-append reply xs ys)
answered-append reply (write header request ∷ xs) ys = answered-append reply xs ys
answered-append reply (remove_timer key ∷ xs) ys = answered-append reply xs ys

-- What is removed was the one entry found.
pub holding-remove :
    (reply transaction : ℕ) (entries : List Waiting) (found : Waiting)
    → IsDistinct entries
    → find transaction entries ≡ some found
    → holding reply entries
      ≡ one_if (found.reply == reply) + holding reply (remove transaction entries)
unfolding holding IsDistinct find remove
holding-remove reply transaction [] found d e = cc
holding-remove reply transaction (entry ∷ entries) found (absent, d) e =
    elim (Bool-cases (entry.transaction == transaction)) [
      | inl h ↦
          let gone : remove transaction entries ≡ entries =
            remove_absent transaction entries (ground arith) in
          let same : entry ≡ found = ground arith in ground arith
      | inr h ↦
          let rest = holding-remove reply transaction entries found d (ground arith) in ground arith
    ]

pub answered-fail_entries :
    (reply : ℕ) (entries : List Waiting)
    → answered reply (fail_entries entries) ≡ holding reply entries
unfolding answered holding fail_entries
answered-fail_entries reply [] = refl
answered-fail_entries reply (entry ∷ entries) = omega (arith, answered-fail_entries reply entries)

-- The answers of one pass, and the entries that it leaves.
unfoldable pub balance : ℕ → Task × List Action → ℕ
unfolding answered holding
balance reply (task, actions) = answered reply actions + holding reply task.in_flight

pub balance-of :
    (reply : ℕ) (after : Task × List Action)
    → balance reply after ≡ answered reply after.1 + holding reply after.0.in_flight
unfolding balance
balance-of reply (task, actions) = refl

pub balance-desynchronize :
    (reply : ℕ) (task : Task) → balance reply (desynchronize task) ≡ holding reply task.in_flight
unfolding balance desynchronize
balance-desynchronize reply task = omega (arith, answered-fail_entries reply task.in_flight)
