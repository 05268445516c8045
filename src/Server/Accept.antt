-- ===== src/Server/Accept.antt =====
-- Accepting connections and receiving datagrams (`next_accept`, `next_datagram`, `next_id` and
-- `serve_framed` of src/server/mod.rs).
use rust_modbus.Prelude.{
  ℕ, zero, suc, ◌+◌, ◌%◌, ◌^◌, Bool, true, false, not, Option, none, some, List, [], ◌∷◌, ◌++◌, map,
  if◌then◌else◌, ok, err, stuck,
}
pub mod Loop
use rust_modbus.Error.{Error, Result, io}
use rust_modbus.Frame.Framing.{AduBoundary}
use rust_modbus.Frame.Tcp.Header.{MbapHeader}
use rust_modbus.Frame.Pdu.Request.{RequestPdu}
use rust_modbus.Frame.Pdu.Response.{ResponsePdu}
use rust_modbus.Server.Framing.{ServerFraming}
use rust_modbus.Server.Exchange.{ServerConfig, Pass, serve_connection, serve_datagram}
use rust_modbus.Server.Service.{Service, Connection, connection, AcceptErrorAction, continue, stop}

-- `UDP_CONNECTION`, and the first identifier of a connection.
abbrev pub udp_connection : ℕ
udp_connection = 0

abbrev pub first_connection : ℕ
first_connection = 1

-- `fetch_add(1)` of `next_id`, on 64 bits.
abbrev pub next_id : ℕ → ℕ
next_id id = (id + 1) % 2 ^ 64

-- What one pass of a listening loop meets: the shutdown signal, or what `accept` or `recv`
-- returned; a failure, with whether the signal is up by the time the service decides on it.
pub data Attempt (A : Type 0) : Type 0 where
  shutdown : Attempt A
  accepted : A → Attempt A
  refused : Error → (signalled : Bool) → Attempt A

-- What comes of it: `Accepted`, where `Done` has waited for all tasks of the `JoinSet`; or the
-- attempts that came are over.
pub data Accepted (A : Type 0) : Type 0 where
  got : A → Accepted A
  done : Result (Unit {0}) → Accepted A
  waiting : Accepted A

-- The result, the attempts left, the state of the service and the number of tasks still running.
pub record Listening (A : Type 0) (State : Type 0) : Type 0 where
  pub result : Accepted A
  pub attempts : List (Attempt A)
  pub state : State
  pub running : ℕ

unfoldable pub finished :
    {A State : Type 0} → Result (Unit {0}) → List (Attempt A) → State → Listening A State
finished result attempts state = record {
  result = done result;
  attempts = attempts;
  state = state;
  running = 0;
}

module _ {A State : Type 0} (service : Service State) (running : ℕ) where
  -- The end of a pass that failed, by the action that the service asks for.
  unfoldable pub on_action :
      AcceptErrorAction → Error → List (Attempt A) → State → Listening A State → Listening A State
  unfolding finished
  on_action continue error attempts state rest = rest
  on_action stop error attempts state rest = finished (err error) attempts state

  unfoldable pub next_accept : List (Attempt A) → State → Listening A State
  unfolding finished on_action
  next_accept [] state = record {
    result = waiting;
    attempts = [];
    state = state;
    running = running;
  }
  next_accept (shutdown ∷ attempts) state = finished (ok tt) attempts state
  next_accept (accepted a ∷ attempts) state = record {
    result = got a;
    attempts = attempts;
    state = state;
    running = running;
  }
  next_accept (refused error signalled ∷ attempts) state =
      let (action, state') = service.on_accept_error error state in
      let rest = next_accept attempts state' in
      if signalled
      then finished (ok tt) attempts state
      else on_action action error attempts state' rest

unfoldable pub is_io : Error → Bool
is_io (io kind code) = true
is_io _ = false

-- A datagram that does not decode is reported and costs nothing more; a failure of the socket is
-- decided on as above, by `on_receive_error`.
module _ {A State : Type 0} (service : Service State) (running : ℕ) where
  unfoldable pub next_datagram : List (Attempt A) → State → Listening A State
  unfolding finished on_action is_io
  next_datagram [] state = record {
    result = waiting;
    attempts = [];
    state = state;
    running = running;
  }
  next_datagram (shutdown ∷ attempts) state = finished (ok tt) attempts state
  next_datagram (accepted a ∷ attempts) state = record {
    result = got a;
    attempts = attempts;
    state = state;
    running = running;
  }
  next_datagram (refused error signalled ∷ attempts) state =
      let (action, state') = service.on_receive_error error state in
      let decided = next_datagram attempts state' in
      let reported = service.on_error (connection udp_connection none) error state in
      let skipped = next_datagram attempts reported in
      if not (is_io error)
      then skipped
      else (if signalled
          then finished (ok tt) attempts state
          else on_action service running action error attempts state' decided)

-- What serving came to: the result, `none` while the attempts that came have not ended it, and the
-- connections that were spawned.
pub record Serving (State : Type 0) : Type 0 where
  pub result : Option (Result (Unit {0}))
  pub spawned : List Connection
  pub state : State

-- `serve_framed`, from the next identifier and the number of running tasks; an attempt brings the
-- address of the peer. The fuel bounds the passes of its loop.
module _ {State : Type 0} (service : Service State) where
  unfoldable pub serve_framed : ℕ → ℕ → ℕ → List (Attempt ℕ) → State → Serving State
  unfolding next_accept
  serve_framed zero id running attempts state = record {
    result = some stuck;
    spawned = [];
    state = state;
  }
  serve_framed (suc fuel) id running attempts state =
      let next = next_accept service running attempts state in
      let rest = serve_framed fuel (next_id id) (next.running + 1) next.attempts next.state in
      elim next.result [
        | done result ↦ record { result = some result; spawned = []; state = next.state }
        | waiting ↦ record { result = none; spawned = []; state = next.state }
        | got peer ↦ record rest { spawned = connection id (some peer) ∷ rest.spawned }
      ]

-- What `serve_udp` came to: each response with the peer that it is for, and its header.
pub record UdpServing (State : Type 0) : Type 0 where
  pub result : Option (Result (Unit {0}))
  pub sent : List (ℕ × (MbapHeader × ResponsePdu))
  pub state : State

-- `serve_udp`: an attempt brings a datagram with its peer, and how the socket would end the write
-- of a response to it. A datagram's task is run when it comes.
module _ {State : Type 0} (service : Service State) (config : ServerConfig) where
  unfoldable pub serve_udp :
      ℕ
      → ℕ
      → List (Attempt (MbapHeader × RequestPdu × ℕ × Result (Unit {0})))
      → State
      → UdpServing State
  unfolding next_datagram serve_datagram
  serve_udp zero running attempts state = record { result = some stuck; sent = []; state = state }
  serve_udp (suc fuel) running attempts state =
      let next = next_datagram service running attempts state in
      elim next.result [
        | done result ↦ record { result = some result; sent = []; state = next.state }
        | waiting ↦ record { result = none; sent = []; state = next.state }
        | got (header, request, peer, written) ↦
            let conn = connection udp_connection (some peer) in
            let (state', sent) =
              serve_datagram service config conn header request written next.state in
            let rest = serve_udp fuel (next.running + 1) next.attempts state' in
            record rest { sent = map (λ answer. (peer, answer)) sent ++ rest.sent }
      ]

-- `serve_link`: the one connection of a link, under the next identifier.
module _ {Header State : Type 0} (framing : ServerFraming Header) (boundary : AduBoundary)
    (service : Service State) (config : ServerConfig) where
  unfoldable pub serve_link :
      (id : ℕ)
      → List (Pass Header)
      → State
      → Option (Result (Unit {0})) × State × List (Header × ResponsePdu)
  unfolding serve_connection
  serve_link id passes state =
      serve_connection framing boundary service config (connection id none) passes state
