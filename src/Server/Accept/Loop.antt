-- ===== src/Server/Accept/Loop.antt =====
-- The connections of `serve_framed` in src/server/mod.rs, and the end of its loop.
use rust_modbus.Prelude.{ℕ, ◌+◌, ◌%◌, ◌<◌, ◌≡◌, ◌≢◌, ◌⊎◌, some, List, [], ◌∷◌, length, stuck}
use rust_modbus.Error.{Error, Result}
use rust_modbus.Server.Service.{Service, Connection}
use rust_modbus.Server.Accept.{
  Attempt, Listening, Serving, shutdown, accepted, refused, got, done, waiting,
}

-- The connections that attempts lead to, numbered from a number on, on 64 bits: one for each peer
-- that is accepted, in order, up to a shutdown or up to a failure that ends the loop.
unfoldable pub IsSpawned : ℕ → List (Attempt ℕ) → List Connection → Type 0
IsSpawned n [] conns = conns ≡ []
IsSpawned n (shutdown ∷ attempts) conns = conns ≡ []
IsSpawned n (refused error signalled ∷ attempts) conns = (conns ≡ []) ⊎ IsSpawned n attempts conns
IsSpawned n (accepted peer ∷ attempts) [] = ⊥
IsSpawned n (accepted peer ∷ attempts) (conn ∷ conns) =
    (conn.id ≡ n % 18446744073709551616)
    × (conn.peer ≡ some peer)
    × IsSpawned (n + 1) attempts conns

-- A `Done` carries a result, and a `Got` has taken an attempt.
unfoldable IsSound : {A State : Type 0} → List (Attempt A) → Listening A State → Type 0
IsSound attempts listening =
    (listening.result ≢ done stuck)
    × ((a : _) → listening.result ≡ got a → length listening.attempts < length attempts)

-- What a pass of the listening loop says of the connections that all attempts lead to.
unfoldable Leads : {State : Type 0} → ℕ → List (Attempt ℕ) → Listening ℕ State → Type 0
unfolding IsSpawned
Leads n attempts listening =
    ((result : Result (Unit {0})) → listening.result ≡ done result → IsSpawned n attempts [])
    × (listening.result ≡ waiting → IsSpawned n attempts [])
    × ((peer : ℕ) (conn : Connection) (conns : List Connection)
        → listening.result ≡ got peer
        → conn.id ≡ n % 18446744073709551616
        → conn.peer ≡ some peer
        → IsSpawned (n + 1) listening.attempts conns
        → IsSpawned n attempts (conn ∷ conns))

module _ {State : Type 0} (service : Service State) where
  -- Of one pass, with what the loop makes of the rest.
  IsGood : ℕ → List (Attempt ℕ) → Serving State → Type 0
  IsGood n attempts serving = (serving.result ≢ some stuck) × IsSpawned n attempts serving.spawned
