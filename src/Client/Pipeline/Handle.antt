-- ===== src/Client/Pipeline/Handle.antt =====
-- The handles of a pipelined client (`send`, `try_send` and `dispatch` of src/client/pipeline.rs).
use rust_modbus.Prelude.{
  ℕ, zero, suc, ◌+◌, ◌-◌, ◌≤◌, ◌<◌, ◌≡◌, refl, sym, ap, ◌∙◌, ◌≢◌, inl, inr, Bool, true, false,
  Option, none, some, List, [], ◌∷◌, ◌++◌, arith, ◌==◌, if◌then◌else◌, Bool-cases, if-true,
  if-false,
}
use rust_modbus.Error.{Error, desynchronized, too_many_in_flight}
use rust_modbus.Frame.Pdu.Request.{RequestPdu}
use rust_modbus.Client.Transaction.{next, first_transaction, allocated, allocated_cycle}
use rust_modbus.Client.Pipeline.{Command}

-- What the clones of a handle share, besides the flag that the task sets: the next identifier, and
-- the permits left in the semaphore.
pub record Core : Type 0 where
  pub next_transaction : ℕ
  pub permits : ℕ

-- `with_config`
abbrev pub new_core : (max_in_flight : ℕ) → Core
new_core max_in_flight = record { next_transaction = first_transaction; permits = max_in_flight }

-- What comes of a call by the time it waits: the command that the task has got, a failure, or
-- nothing while no permit is free. The permit is held as long as the call.
pub data Dispatched : Type 0 where
  queued : Command → Dispatched
  refused : Error → Dispatched
  awaiting : Dispatched

-- `dispatch`, from a core whose permit is taken.
unfoldable pub dispatch :
    (is_desynchronized : Bool) → ℕ → RequestPdu → (reply : ℕ) → Core → Dispatched × Core
dispatch is_desynchronized unit request reply core =
    let c : Command = record {
      transaction = core.next_transaction;
      unit = unit;
      request = request;
      reply = reply;
    } in
    if is_desynchronized
    then (refused desynchronized, record core { permits = core.permits + 1 })
    else (queued c, record core { next_transaction = next core.next_transaction })

unfoldable pub send :
    (is_desynchronized : Bool) → ℕ → RequestPdu → (reply : ℕ) → Core → Dispatched × Core
unfolding dispatch
send is_desynchronized unit request reply core =
    if core.permits == 0
    then (awaiting, core)
    else dispatch is_desynchronized unit request reply (record core { permits = core.permits - 1 })

unfoldable pub try_send :
    (is_desynchronized : Bool) → ℕ → RequestPdu → (reply : ℕ) → Core → Dispatched × Core
unfolding dispatch
try_send is_desynchronized unit request reply core =
    if core.permits == 0
    then (refused too_many_in_flight, core)
    else dispatch is_desynchronized unit request reply (record core { permits = core.permits - 1 })

-- The end of a call, answered or dropped.
unfoldable pub release : Core → Core
release core = record core { permits = core.permits + 1 }

-- Calls of `try_send` on a handle in use, and calls that end in between.
pub data Step : Type 0 where
  trying : (unit : ℕ) (request : RequestPdu) (reply : ℕ) → Step
  ending : Step

unfoldable pub command_of : Dispatched → List Command
command_of (queued c) = c ∷ []
command_of (refused error) = []
command_of awaiting = []

unfoldable pub commands : List Step → Core → List Command
unfolding try_send release command_of
commands [] core = []
commands (trying unit request reply ∷ steps) core =
    let (dispatched, core') = try_send false unit request reply core in
    command_of dispatched ++ commands steps core'
commands (ending ∷ steps) core = commands steps (release core)

-- The identifiers are those allocated one after another, from the next one.
unfoldable pub AreAllocated : ℕ → List Command → Type 0
AreAllocated transaction [] = Unit
AreAllocated transaction (c ∷ cs) =
    (c.transaction ≡ transaction) × AreAllocated (next transaction) cs

module _ (unit : ℕ) (request : RequestPdu) (reply : ℕ) (steps : List Step) (core : Core) where
  full-commands :
      (core.permits == 0) ≡ true
      → commands (trying unit request reply ∷ steps) core ≡ commands steps core
  unfolding commands try_send command_of
  full-commands h =
      ap (λ (d : Dispatched × Core). command_of d.0 ++ commands steps d.1)
        (if-true (core.permits == 0) _ _ h)

  taken : Core
  taken = record { next_transaction = next core.next_transaction; permits = core.permits - 1 }

  free-commands :
      (core.permits == 0) ≡ false
      → commands (trying unit request reply ∷ steps) core
        ≡ record {
          transaction = core.next_transaction;
          unit = unit;
          request = request;
          reply = reply;
        }
          ∷ commands steps taken
  unfolding commands try_send dispatch command_of taken
  free-commands h =
      ap (λ (d : Dispatched × Core). command_of d.0 ++ commands steps d.1)
        (if-false (core.permits == 0) _ _ h)

-- The commands that calls on a handle in use hand to the task, with calls that end in between and
-- calls that find no permit, carry the identifiers allocated one after another from the next one.
pub commands-AreAllocated :
    (steps : List Step) (core : Core) → AreAllocated core.next_transaction (commands steps core)
unfolding commands AreAllocated release taken
commands-AreAllocated [] core = tt
commands-AreAllocated (ending ∷ steps) core = commands-AreAllocated steps (release core)
commands-AreAllocated (trying unit request reply ∷ steps) core =
    elim (Bool-cases (core.permits == 0)) [
      | inl e ↦
          rw (full-commands unit request reply steps core e) (commands-AreAllocated steps core)
      | inr e ↦
          rw (free-commands unit request reply steps core e)
            (refl, commands-AreAllocated steps (taken unit request reply steps core))
    ]

-- Identifiers fewer than 65535 allocations apart are different.
pub allocated-distinct :
    (i j first : ℕ)
    → 1 ≤ first
    → first ≤ 65535
    → i < j
    → j < i + 65535
    → allocated i first ≢ allocated j first
allocated-distinct i j first lo hi before near h =
    let at = allocated_cycle i first lo hi in
    let later = allocated_cycle j first lo hi in omega (arith, h, at, later)

unfoldable pub nth : ℕ → List Command → Option Command
nth i [] = none
nth zero (c ∷ cs) = some c
nth (suc i) (c ∷ cs) = nth i cs

nth-allocated :
    (i transaction : ℕ) (cs : List Command) (c : Command)
    → AreAllocated transaction cs
    → nth i cs ≡ some c
    → c.transaction ≡ allocated i transaction
unfolding nth AreAllocated allocated
nth-allocated i transaction [] c h e = cc
nth-allocated zero transaction (first ∷ cs) c (h, hs) e =
    let same : first ≡ c = cc in sym (ap (λ (c : Command). c.transaction) same) ∙ h
nth-allocated (suc i) transaction (first ∷ cs) c (h, hs) e =
    nth-allocated i (next transaction) cs c hs e

-- Of the commands that calls on a handle in use hand to the task, with calls that end in between
-- and calls that find no permit, two that are fewer than 65535 apart carry different identifiers,
-- when the next identifier is one from 1 to 65535.
pub commands-distinct :
    (steps : List Step) (core : Core) (i j : ℕ) (c d : Command)
    → 1 ≤ core.next_transaction
    → core.next_transaction ≤ 65535
    → i < j
    → j < i + 65535
    → nth i (commands steps core) ≡ some c
    → nth j (commands steps core) ≡ some d
    → c.transaction ≢ d.transaction
commands-distinct steps core i j c d lo hi before near ec ed same =
    let first = core.next_transaction in
    let h = commands-AreAllocated steps core in
    let at = nth-allocated i first (commands steps core) c h ec in
    let later = nth-allocated j first (commands steps core) d h ed in
    allocated-distinct i j first lo hi before near (sym at ∙ same ∙ later)
