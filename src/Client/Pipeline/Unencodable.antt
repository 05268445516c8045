-- ===== src/Client/Pipeline/Unencodable.antt =====
-- A request that does not encode, sent through the pipelined client (src/client/pipeline.rs) over
-- a stream (src/transport/mod.rs).
use rust_modbus.Prelude.{
  ℕ, ◌+◌, ◌≡◌, refl, ◌∙◌, inl, inr, Bool, true, false, List, [], arith, ◌==◌, ok, err, stuck,
  Outcome-cases,
}
use rust_modbus.Error.{Error, Result}
use rust_modbus.Buffer.{owned, Writer, Buffer}
use rust_modbus.Frame.Framing.{encode_request}
use rust_modbus.Frame.Tcp.{tcp}
use rust_modbus.Parse.Stream.{Winnow}
use rust_modbus.Client.Framing.{client_tcp}
use rust_modbus.Client.Pipeline.{Task, Action, Command, command, desynchronize, register, step}
use rust_modbus.Client.Pipeline.Cases.{on_command-registered}
use rust_modbus.Client.Pipeline.Count.{answered, holding, one_if, answered-fail_entries}
use rust_modbus.Transport.Stream.{FrameTransport, send, send_request}

owned-error :
    (write : Writer (Unit {0})) (error : Error) → owned write ≡ err error → (write []).0 ≡ err error
unfolding owned
owned-error write error h = elim (Outcome-cases (write []).0) [
  | inl (done, e) ↦ absurd (ground arith)
  | inr (inl (x, e)) ↦ e ∙ (let same : err x ≡ err error = ground arith in same)
  | inr (inr e) ↦ absurd (ground arith)
]

send-error :
    (written : Result (Unit {0}) × Buffer) (flushed : Result (Unit {0})) (error : Error)
    (transport : FrameTransport)
    → written.0 ≡ err error
    → let after : Result (Unit {0}) × FrameTransport × List ℕ = send written flushed transport in
      (after.0 ≡ err error) × (after.2 ≡ [])
unfolding send
send-error (ok done, out) flushed error transport h = cc
send-error (err x, out) flushed error transport h = (h, refl)
send-error (stuck, out) flushed error transport h = cc

desynchronized-by :
    (timeout_desyncs : Bool) (c : Command) (error : Error) (task : Task) (reply : ℕ)
    → task.is_desynchronized ≡ false
    → let after : Task × List Action = step timeout_desyncs (command c (err error)) task in
      (after.0.is_desynchronized ≡ true)
      × (after.0.in_flight ≡ [])
      × (answered reply after.1 ≡ one_if (c.reply == reply) + holding reply task.in_flight)
unfolding step register desynchronize answered
desynchronized-by timeout_desyncs c error task reply live =
    rw (on_command-registered task c (err error) live)
      (refl, refl, omega (arith, answered-fail_entries reply task.in_flight))

-- A command whose request does not encode puts no byte on the stream, and the error that the
-- transport returns for it desynchronizes a handle in use: none is in flight any more, and each
-- request that was, is answered.
pub unencodable-desynchronizes :
    (w : Winnow) (timeout_desyncs : Bool) (c : Command) (error : Error)
    (flushed : Result (Unit {0})) (transport : FrameTransport) (task : Task) (reply : ℕ)
    → task.is_desynchronized ≡ false
    → encode_request (tcp w) (client_tcp.request_header c.unit c.transaction) c.request ≡ err error
    → let sent : Result (Unit {0}) × FrameTransport × List ℕ =
        send_request
          (tcp w)
          (client_tcp.request_header c.unit c.transaction)
          c.request
          flushed
          transport in
      let after : Task × List Action = step timeout_desyncs (command c (err error)) task in
      (sent.0 ≡ err error)
      × (sent.2 ≡ [])
      × (after.0.is_desynchronized ≡ true)
      × (after.0.in_flight ≡ [])
      × (answered reply after.1 ≡ one_if (c.reply == reply) + holding reply task.in_flight)
unfolding send_request encode_request
unencodable-desynchronizes w timeout_desyncs c error flushed transport task reply live refused =
    let header = client_tcp.request_header c.unit c.transaction in
    let write = (tcp w).encode_request_into header c.request in
    let (result, nothing) =
      send-error (write []) flushed error transport (owned-error write error refused) in
    let (dead, empty, counts) = desynchronized-by timeout_desyncs c error task reply live in
    (result, nothing, dead, empty, counts)
