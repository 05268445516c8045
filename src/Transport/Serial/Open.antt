-- ===== src/Transport/Serial/Open.antt =====
-- Opening a serial port (src/transport/rtu.rs). What the serial backend and the kernel do are
-- arguments.
use rust_modbus.Prelude.{
  ℕ, ◌≡◌, refl, sym, ap, inl, inr, true, Option, none, some, List, [], ◌∷◌, arith, ◌==◌, ok, err,
  stuck, Outcome-cases, Option-cases,
}
use rust_modbus.Error.{Error, Result, io, configuration, ◌>>=◌}
use rust_modbus.Transport.Stream.{FrameTransport, new_transport}
use rust_modbus.Transport.Serial.{
  Rs485Config, SerialConfig, TransportConfig, from_serial, inter_frame_interval,
}

-- The kinds of failure that the backend tells.
pub data BackendErrorKind : Type 0 where
  no_device invalid_input unknown : BackendErrorKind
  of_io : (kind : ℕ) → BackendErrorKind

-- The numbers that stand for `ErrorKind::NotFound`, `InvalidInput` and `Other`.
abbrev pub not_found_kind : ℕ
not_found_kind = 1

abbrev pub invalid_input_kind : ℕ
invalid_input_kind = 2

abbrev pub other_kind : ℕ
other_kind = 3

unfoldable pub convert : BackendErrorKind → Error
convert no_device = io not_found_kind none
convert invalid_input = io invalid_input_kind none
convert (of_io kind) = io kind none
convert unknown = io other_kind none

-- What is done to the port, in order.
pub data Action : Type 0 where
  opened : SerialConfig → Action
  direction_control : Rs485Config → Action

-- An open port with the transport over it.
pub record SerialTransport : Type 0 where
  pub config : TransportConfig
  pub transport : FrameTransport

-- The end of `open_serial`, once the port is open.
unfoldable pub applied :
    TransportConfig
    → Option Rs485Config
    → (Rs485Config → Result (Unit {0}))
    → Result SerialTransport × List Action
applied config none apply = (ok (record { config = config; transport = new_transport }), [])
applied config (some rs485) apply =
    let result : Result SerialTransport =
      apply rs485 >>= (λ done. ok (record { config = config; transport = new_transport })) in
    (result, direction_control rs485 ∷ [])

unfoldable pub opening :
    SerialConfig
    → Result TransportConfig
    → (SerialConfig → Option BackendErrorKind)
    → (Rs485Config → Result (Unit {0}))
    → Result SerialTransport × List Action
unfolding applied
opening config (err error) open_port apply = (err error, [])
opening config stuck open_port apply = (stuck, [])
opening config (ok transport) open_port apply = elim (open_port config) [
  | some kind ↦ (err (convert kind), opened config ∷ [])
  | none ↦
      let (result, actions) = applied transport config.rs485 apply in
      (result, opened config ∷ actions)
]

unfoldable pub open_serial :
    (SerialConfig → Option BackendErrorKind)
    → (Rs485Config → Result (Unit {0}))
    → SerialConfig
    → Result SerialTransport × List Action
unfolding opening from_serial
open_serial open_port apply config = opening config (from_serial config) open_port apply

-- The direction control that a configuration asks for.
abbrev pub wanted : Option Rs485Config → List Action
wanted none = []
wanted (some rs485) = direction_control rs485 ∷ []

-- The direction control that a configuration asks for succeeds, if it asks for any.
abbrev pub IsApplied : (Rs485Config → Result (Unit {0})) → Option Rs485Config → Type 0
IsApplied apply none = Unit {0}
IsApplied apply (some rs485) = apply rs485 ≡ ok tt

applied-ok :
    (config : TransportConfig) (rs485 : Option Rs485Config)
    (apply : Rs485Config → Result (Unit {0})) (port : SerialTransport)
    → (applied config rs485 apply).0 ≡ ok port
    → IsApplied apply rs485
      × (port ≡ record { config = config; transport = new_transport })
      × ((applied config rs485 apply).1 ≡ wanted rs485)
unfolding applied
applied-ok config none apply port h = (tt, cc, refl)
applied-ok config (some rs485) apply port h = elim (Outcome-cases (apply rs485)) [
  | inl (tt, e) ↦ (e, ground arith, refl)
  | inr (inl (x, e)) ↦ absurd (ground arith)
  | inr (inr e) ↦ absurd (ground arith)
]

opening-ok :
    (config : SerialConfig) (open_port : SerialConfig → Option BackendErrorKind)
    (apply : Rs485Config → Result (Unit {0})) (port : SerialTransport)
    (derived : Result TransportConfig)
    → (opening config derived open_port apply).0 ≡ ok port
    → (derived ≡ ok port.config)
      × (open_port config ≡ none)
      × IsApplied apply config.rs485
      × (port.transport ≡ new_transport)
      × ((opening config derived open_port apply).1 ≡ opened config ∷ wanted config.rs485)
unfolding opening
opening-ok config open_port apply port (err error) h = cc
opening-ok config open_port apply port stuck h = cc
opening-ok config open_port apply port (ok transport) h = elim (Option-cases (open_port config)) [
  | inl e ↦
      let (done, same, actions) =
        applied-ok transport config.rs485 apply port (rw (e, opening) at h) in
      (
        ap (λ (p : SerialTransport). ok p.config) (sym same),
        e,
        done,
        ap (λ (p : SerialTransport). p.transport) same,
        rw (e, opening) (rw actions refl),
      )
  | inr (kind, e) ↦ absurd (ground arith)
]

-- A serial port that `open_serial` returns has the interval that its configuration implies and is
-- fresh; the port was opened, and after that, if the configuration asks for direction control,
-- the control was applied and succeeded.
pub open_serial-ok :
    (open_port : SerialConfig → Option BackendErrorKind) (apply : Rs485Config → Result (Unit {0}))
    (config : SerialConfig) (port : SerialTransport)
    → (open_serial open_port apply config).0 ≡ ok port
    → (from_serial config ≡ ok port.config)
      × (open_port config ≡ none)
      × IsApplied apply config.rs485
      × (port.transport ≡ new_transport)
      × ((open_serial open_port apply config).1 ≡ opened config ∷ wanted config.rs485)
unfolding open_serial
open_serial-ok open_port apply config port h =
    opening-ok config open_port apply port (from_serial config) h

-- At a baud rate of zero nothing is done to the port, whatever the rest of the configuration.
pub open_serial-zero_baud :
    (open_port : SerialConfig → Option BackendErrorKind) (apply : Rs485Config → Result (Unit {0}))
    (config : SerialConfig)
    → config.baud_rate ≡ 0
    → open_serial open_port apply config ≡ (err (configuration "baud_rate"), [])
unfolding open_serial from_serial inter_frame_interval
open_serial-zero_baud open_port apply config h =
    let is_zero : (config.baud_rate == 0) ≡ true = ground arith in rw is_zero refl
