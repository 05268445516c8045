-- ===== src/Error.antt =====
-- The crate's error type (src/error.rs). `ErrorKind` of the standard library is only carried, so a
-- number stands for it; the payload of a failed TLS handshake, which no code reads, is left out.
use rust_modbus.Prelude.{
  ℕ, String, Bool, true, false, ◌||◌, Option, none, some, List, [], ◌∷◌, ◌==◌, if◌then◌else◌,
  Outcome, ok, err, and_then,
}
use rust_modbus.Frame.Code.{FunctionCode, ExceptionCode}

pub data Error : Type 0 where
  truncated : (expected supplied : ℕ) → Error
  trailing_bytes : (extra : ℕ) → Error
  invalid_function_code : ℕ → Error
  reserved_code : ℕ → Error
  invalid_length : (expected actual : ℕ) → Error
  out_of_range : (field : String) (value min max : ℕ) → Error
  checksum : (expected actual : ℕ) → Error
  framing : (element : String) → Error
  invalid_character : ℕ → Error
  protocol_identifier : ℕ → Error
  adu_too_large : (len max : ℕ) → Error
  reference_type : ℕ → Error
  illegal_value : (field : String) (value : ℕ) → Error
  byte_count_mismatch : (expected actual : ℕ) → Error
  pdu_too_large : (len max : ℕ) → Error
  malformed : Error
  io : (kind : ℕ) (raw_os_error : Option ℕ) → Error
  timeout : (what : String) → Error
  connection_closed : Error
  configuration : (field : String) → Error
  exception : FunctionCode → ExceptionCode → Error
  unexpected_function : (expected actual : FunctionCode) → Error
  indeterminate_length : (function : ℕ) → Error
  desynchronized too_many_in_flight blocking_in_async_context : Error
  rs485_unsupported tls_handshake : Error

-- `Result<T>` of the crate.
abbrev pub Result {ℓ} : Type ℓ → Type ℓ
Result A = Outcome Error A

-- Whether the error ends the stream, and not one frame.
unfoldable pub ends_stream : Error → Bool
ends_stream (io kind code) = true
ends_stream connection_closed = true
ends_stream (timeout what) = true
ends_stream _ = false

pub data ListenerFailure : Type 0 where
  transient fatal : ListenerFailure

contains : List ℕ → ℕ → Bool
contains [] n = false
contains (m ∷ table) n = m == n || contains table n

-- The table holds the platform's transient codes; which they are, is the platform's.
unfoldable pub classify : Option ℕ → List ℕ → ListenerFailure
unfolding contains
classify none table = fatal
classify (some n) table = if contains table n then transient else fatal

unfoldable pub listener_failure : List ℕ → Error → Option ListenerFailure
unfolding classify
listener_failure table (io kind code) = some (classify code table)
listener_failure table _ = none

infixl 5 ◌>>=◌ ◌>>◌
-- The `?` of a function that returns `Result`.
abbrev pub ◌>>=◌ {ℓ κ} : {A : Type ℓ} {B : Type κ} → Result A → (A → Result B) → Result B
m >>= f = and_then m f

abbrev pub ◌>>◌ {ℓ κ} : {A : Type ℓ} {B : Type κ} → Result A → Result B → Result B
m >> n = and_then m (λ _. n)

-- `if !test { return Err(error); }`
unfoldable pub ensure : Bool → Error → Result (Unit {0})
ensure true e = ok tt
ensure false e = err e
