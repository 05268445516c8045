-- ===== src/Server/Service.antt =====
-- What a consumer of the server implements (src/server/service.rs). A socket address and a
-- certificate are only carried: a number and bytes stand for them.
use rust_modbus.Prelude.{ℕ, ◌⊎◌, Option, none, some, List}
use rust_modbus.Error.{Error, transient, listener_failure}
use rust_modbus.Frame.Code.{ExceptionCode}
use rust_modbus.Frame.Pdu.Request.{RequestPdu}
use rust_modbus.Frame.Pdu.Response.{ResponsePdu}

-- The identity that a notification carries.
pub record Connection : Type 0 where
  pub id : ℕ
  pub peer : Option ℕ
  pub peer_cert : Option (List ℕ)

-- `Connection::new`
abbrev pub connection : ℕ → Option ℕ → Connection
connection id peer = record { id = id; peer = peer; peer_cert = none }

unfoldable pub with_peer_cert : Connection → Option (List ℕ) → Connection
with_peer_cert conn cert = record conn { peer_cert = cert }

pub data Acceptance : Type 0 where
  accept reject : Acceptance

pub data AcceptErrorAction : Type 0 where
  continue stop : AcceptErrorAction

pub data Disconnect : Type 0 where
  closed rejected : Disconnect
  failed : Error → Disconnect
  shutting_down : Disconnect

-- What `on_request` returns: `Err`, or `Ok` of a response or of none.
abbrev pub Answer : Type 0
Answer = ExceptionCode ⊎ Option ResponsePdu

-- The trait, over the state of the service, which each method passes on.
pub record Service (State : Type 0) : Type 0 where
  pub on_request : Connection → ℕ → RequestPdu → State → Answer × State
  pub on_connect : Connection → State → Acceptance × State
  pub on_disconnect : Connection → Disconnect → State → State
  pub on_error : Connection → Error → State → State
  pub on_accept_error : Error → State → AcceptErrorAction × State
  pub on_receive_error : Error → State → AcceptErrorAction × State

-- The body of the default `on_receive_error`; the table is that of `listener_failure`.
unfoldable pub receive_error_action : List ℕ → Error → AcceptErrorAction
receive_error_action table error = elim (listener_failure table error) [
  | some transient ↦ continue
  | _ ↦ stop
]

-- The trait's methods with a default body, for a service that gives `on_request` alone.
abbrev pub minimal :
    {State : Type 0}
    → List ℕ
    → (Connection → ℕ → RequestPdu → State → Answer × State)
    → Service State
minimal table on_request = record {
  on_request = on_request;
  on_connect = λ conn state. (accept, state);
  on_disconnect = λ conn reason state. state;
  on_error = λ conn error state. state;
  on_accept_error = λ error state. (stop, state);
  on_receive_error = λ error state. (receive_error_action table error, state);
}
