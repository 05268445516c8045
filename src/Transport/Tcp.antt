-- ===== src/Transport/Tcp.antt =====
-- Connecting and accepting over TCP (src/transport/tcp.rs). What the sockets and the timer do is an
-- argument.
use rust_modbus.Prelude.{
  ℕ, ◌≤◌, ◌≡◌, refl, inl, inr, Bool, true, Option, none, some, arith, leb, if◌then◌else◌,
  Bool-cases, ok, err, stuck,
}
use rust_modbus.Error.{Result, timeout, ◌>>=◌}
use rust_modbus.Transport.Stream.{FrameTransport, new_transport}

-- A duration is its nanoseconds.
pub record TcpConfig : Type 0 where
  pub connect_timeout : ℕ
  pub nodelay : Bool

-- `TcpConfig::default`
abbrev pub default : TcpConfig
default = record { connect_timeout = 5000000000; nodelay = true }

-- An attempt that ends after some time, or never.
pub data Ending : Type 0 where
  after : (time : ℕ) → Result (Unit {0}) → Ending
  never : Ending

-- `with_connect_timeout`: the timer of `timeout` polls the attempt first.
unfoldable pub with_connect_timeout : ℕ → Ending → Result (Unit {0})
with_connect_timeout limit never = err (timeout "connect")
with_connect_timeout limit (after time result) =
    if leb time limit then result else err (timeout "connect")

-- `connect_tcp_framed`: the transport, and the value that `set_nodelay` was called with, if it was.
unfoldable pub connect_tcp_framed :
    TcpConfig → Ending → (nodelay_set : Result (Unit {0})) → Result FrameTransport × Option Bool
unfolding with_connect_timeout
connect_tcp_framed config attempt nodelay_set =
    elim (with_connect_timeout config.connect_timeout attempt) [
      | ok connected ↦ (nodelay_set >>= (λ applied. ok new_transport), some config.nodelay)
      | err error ↦ (err error, none)
      | stuck ↦ (stuck, none)
    ]

-- `accept_framed`: the socket accepts a peer.
unfoldable pub accept_framed : Result ℕ → Result (FrameTransport × ℕ)
accept_framed accepted = do peer ← accepted; ok (new_transport, peer)

-- A transport that `connect_tcp_framed` returns is fresh, its connection came within the timeout of
-- the configuration, and the option of the configuration was set on its socket.
pub connect_tcp_framed-ok :
    (config : TcpConfig) (attempt : Ending) (nodelay_set : Result (Unit {0}))
    (transport : FrameTransport)
    → (connect_tcp_framed config attempt nodelay_set).0 ≡ ok transport
    → (transport ≡ new_transport)
      × (nodelay_set ≡ ok tt)
      × ((connect_tcp_framed config attempt nodelay_set).1 ≡ some config.nodelay)
      × ((time : ℕ) × (attempt ≡ after time (ok tt)) × (time ≤ config.connect_timeout))
unfolding connect_tcp_framed with_connect_timeout
connect_tcp_framed-ok config never nodelay_set transport h = cc
connect_tcp_framed-ok config (after time (err error)) nodelay_set transport h =
    absurd (ground arith)
connect_tcp_framed-ok config (after time stuck) nodelay_set transport h = absurd (ground arith)
connect_tcp_framed-ok config (after time (ok done)) (err error) transport h = absurd (ground arith)
connect_tcp_framed-ok config (after time (ok done)) stuck transport h = absurd (ground arith)
connect_tcp_framed-ok config (after time (ok done)) (ok applied) transport h =
    elim (Bool-cases (leb time config.connect_timeout)) [
      | inl e ↦
          let within : time ≤ config.connect_timeout = ground arith in
          (ground arith, refl, rw (e, connect_tcp_framed) refl, (time, refl, within))
      | inr e ↦ absurd (ground arith)
    ]
