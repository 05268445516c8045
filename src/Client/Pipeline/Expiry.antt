-- ===== src/Client/Pipeline/Expiry.antt =====
-- The timers of src/client/pipeline.rs: a request that gets no response is answered when they fire.
use rust_modbus.Prelude.{
  ℕ, ◌≡◌, refl, ap, ◌∙◌, ◌≢◌, ◌⊎◌, inl, inr, Bool, true, false, none, some, List, [], ◌∷◌, arith,
  ◌==◌, Bool-cases, Option-cases,
}
use rust_modbus.Client.Pipeline.{
  Task, Event, Waiting, expired, find, remove, desynchronize, on_expired, step, run,
}
use rust_modbus.Client.Pipeline.Table.{find-remove, find-remove_other}
use rust_modbus.Client.Pipeline.Cases.{on_expired-alone, on_expired-all, on_expired-gone}
use rust_modbus.Client.Pipeline.Invariant.{IsValid}
use rust_modbus.Client.Pipeline.Count.{answered, holding, submitted, AreFresh, IsFresh}
use rust_modbus.Client.Pipeline.Answers.{run-answered}

-- The timers fire in this order.
unfoldable pub expiries : List ℕ → List Event
expiries [] = []
expiries (transaction ∷ transactions) = expired transaction ∷ expiries transactions

unfoldable pub Fires : ℕ → List ℕ → Type 0
Fires transaction [] = ⊥
Fires transaction (other ∷ others) = (transaction ≡ other) ⊎ Fires transaction others

-- Every request in flight is under one of the identifiers.
unfoldable pub Covers : List ℕ → List Waiting → Type 0
Covers transactions entries =
    (transaction : ℕ) → (find transaction entries ≡ none) ⊎ Fires transaction transactions

first-found :
    (entry : Waiting) (entries : List Waiting) → find entry.transaction (entry ∷ entries) ≢ none
unfolding find
first-found entry entries h = absurd (ground arith)

none-covered : (entries : List Waiting) → Covers [] entries → entries ≡ []
unfolding Covers Fires
none-covered [] h = refl
none-covered (entry ∷ entries) h = elim (h entry.transaction) [
  | inl absent ↦ absurd (first-found entry entries absent)
  | inr impossible ↦ absurd impossible
]

remove-Covers :
    (transaction : ℕ) (transactions : List ℕ) (entries : List Waiting)
    → Covers (transaction ∷ transactions) entries
    → Covers transactions (remove transaction entries)
unfolding Covers Fires
remove-Covers transaction transactions entries h other = elim (Bool-cases (other == transaction)) [
  | inl same ↦
      let e : other ≡ transaction = ground arith in
      inl (ap (λ (t : ℕ). find t (remove transaction entries)) e ∙ find-remove transaction entries)
  | inr distinct ↦
      let e : other ≢ transaction = λ e. ground arith in
      elim (h other) [
        | inl absent ↦ inl (find-remove_other transaction other entries e ∙ absent)
        | inr (inl same) ↦ absurd (e same)
        | inr (inr fires) ↦ inr fires
      ]
]

absent-Covers :
    (transaction : ℕ) (transactions : List ℕ) (entries : List Waiting)
    → Covers (transaction ∷ transactions) entries
    → find transaction entries ≡ none
    → Covers transactions entries
unfolding Covers Fires
absent-Covers transaction transactions entries h absent other = elim (h other) [
  | inl e ↦ inl e
  | inr (inl same) ↦ inl (ap (λ (t : ℕ). find t entries) same ∙ absent)
  | inr (inr fires) ↦ inr fires
]

empty-Covers : (transactions : List ℕ) → Covers transactions []
unfolding Covers find
empty-Covers transactions transaction = inl refl

found-Covers :
    (timeout_desyncs : Bool) (transaction : ℕ) (transactions : List ℕ) (task : Task)
    (entry : Waiting)
    → Covers (transaction ∷ transactions) task.in_flight
    → find transaction task.in_flight ≡ some entry
    → Covers transactions (on_expired timeout_desyncs transaction task).0.in_flight
unfolding desynchronize
found-Covers true transaction transactions task entry h e =
    rw (on_expired-all task transaction entry e) (empty-Covers transactions)
found-Covers false transaction transactions task entry h e =
    rw (on_expired-alone task transaction entry e)
      (remove-Covers transaction transactions task.in_flight h)

expired-Covers :
    (timeout_desyncs : Bool) (transaction : ℕ) (transactions : List ℕ) (task : Task)
    → Covers (transaction ∷ transactions) task.in_flight
    → Covers transactions (on_expired timeout_desyncs transaction task).0.in_flight
expired-Covers timeout_desyncs transaction transactions task h =
    elim (Option-cases (find transaction task.in_flight)) [
      | inl e ↦
          rw (on_expired-gone task transaction timeout_desyncs e)
            (absent-Covers transaction transactions task.in_flight h e)
      | inr (entry, e) ↦ found-Covers timeout_desyncs transaction transactions task entry h e
    ]

drained :
    (timeout_desyncs : Bool) (transactions : List ℕ) (task : Task)
    → Covers transactions task.in_flight
    → (run timeout_desyncs (expiries transactions) task).0.in_flight ≡ []
unfolding run step expiries
drained timeout_desyncs [] task h = none-covered task.in_flight h
drained timeout_desyncs (transaction ∷ transactions) task h =
    drained timeout_desyncs transactions (on_expired timeout_desyncs transaction task).0
      (expired-Covers timeout_desyncs transaction transactions task h)

expiries-AreFresh :
    (timeout_desyncs : Bool) (transactions : List ℕ) (task : Task)
    → AreFresh timeout_desyncs (expiries transactions) task
unfolding AreFresh expiries IsFresh
expiries-AreFresh timeout_desyncs [] task = tt
expiries-AreFresh timeout_desyncs (transaction ∷ transactions) task = (
  tt,
  expiries-AreFresh timeout_desyncs transactions
      (step timeout_desyncs (expired transaction) task).0,
)

submitted-expiries :
    (reply : ℕ) (transactions : List ℕ) → submitted reply (expiries transactions) ≡ 0
unfolding submitted expiries
submitted-expiries reply [] = refl
submitted-expiries reply (transaction ∷ transactions) = submitted-expiries reply transactions

-- When the timers of all the requests in flight of a valid state have fired, in any order and
-- among any others, none is in flight any more and each was answered as often as it was waiting.
pub expiries-answered :
    (timeout_desyncs : Bool) (transactions : List ℕ) (task : Task)
    → IsValid task
    → Covers transactions task.in_flight
    → ((run timeout_desyncs (expiries transactions) task).0.in_flight ≡ [])
      × ((reply : ℕ)
          → answered reply (run timeout_desyncs (expiries transactions) task).1
            ≡ holding reply task.in_flight)
unfolding holding
expiries-answered timeout_desyncs transactions task valid h =
    let none_left = drained timeout_desyncs transactions task h in
    (
      none_left,
      λ reply.
          let counts =
            run-answered reply timeout_desyncs (expiries transactions) task valid
              (expiries-AreFresh timeout_desyncs transactions task) in
          let nothing = ap (holding reply) none_left in
          omega (arith, counts, nothing, submitted-expiries reply transactions),
    )
