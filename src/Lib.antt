-- ===== src/Lib.antt =====
-- rust-modbus: the frame layer, and the client, the server and the transports that stand on it.
--
-- A Modbus PDU is a function code and a body; a framing wraps it for a line: TCP with an MBAP header
-- in front, RTU with an address and a CRC-16 around, ASCII as hexadecimal characters between `:` and
-- CR LF with an LRC. Decoding is a parser over the crate `winnow` (src/parse.rs), encoding appends to
-- the caller's buffer and truncates it when it fails. Client and server encode and decode through
-- the trait `Framing` only. A transport cuts the stream into ADUs by the framing's `AduBoundary` and
-- hands on what it decodes; the client calls it for one request at a time, or from a task that keeps
-- several in flight; the server answers what it receives by a `Service`.
--
-- Files, and the code that they model:
--   Error          src/error.rs: `Error`, `ListenerFailure`, `ends_stream`, `listener_failure`
--   Parse          src/parse.rs: `run`, `run_all`, `lift`, `fail`, `convert`
--   Parse/Stream   the parameter `Winnow` for the crate, and `IsWinnow`, its documented behaviour
--   Parse/Reference, Parse/Region   the one `Winnow` that behaves so; items that fill a region
--   Buffer         `&mut Vec<u8>` as a state that a `Writer` passes on, also where it fails
--   Frame/Code, Frame/Function, Frame/Exception   src/frame/function.rs, src/frame/exception.rs
--   Frame/Diagnostics, Frame/File, Frame/Mei      src/frame/diagnostics.rs, file.rs, mei.rs
--   Frame/Pdu      src/frame/pdu.rs: Limits, Bits, Words, the steps that the functions share in
--                  Decode and Encode, and the PDUs: Request and Response (`decode`), and their
--                  Write (`write`, `encode_into`, `encode`)
--   Frame/Framing  src/frame/framing.rs: the trait as a record, and its laws as `IsFraming`
--   Frame/Tcp, Frame/Rtu, Frame/Ascii   src/frame/tcp.rs, rtu.rs, ascii.rs: `split`, `wrap_into`,
--                  and with them `adu_len`, `derive_extent` and `lrc`
--   Client/Framing, Server/Framing   src/client/framing.rs, src/server/framing.rs: the headers that a
--                  client builds and matches, and the units that a server reads of them
--   Client/Call, Client/Methods   src/client/mod.rs: `call`, `exchange` and `write`, and the methods
--                  that send one request each; Client/Transaction its `next`
--   Client/Pipeline   src/client/pipeline.rs: the task `run`, as steps on `Task` over an `Event`,
--                  and in Client/Pipeline/Handle the handles that feed it; Client/Pipeline/Spec says
--                  what a caller may rely on, without the table of the task and its timers
--   Client/Sync    src/client/sync.rs: the blocking client around the methods of Client/Methods
--   Server/Service, Server/Exchange, Server/Accept   src/server/service.rs; of src/server/mod.rs one
--                  connection (`serve_connection`, `exchange`), and accepting (`serve_framed`)
--   Server/Handle  src/server/handle.rs and `shutdown_requested`: the signal that ends serving
--   Conversation   a client and a server over one framing, from a call to its result
--   Transport/Reader, Transport/Stream   src/transport/mod.rs: `recv_adu` and its four readers, and
--                  `FrameTransport`; Transport/Stream/Halves its split, and `AduReader`
--   Transport/Udp, Transport/Tcp   src/transport/udp.rs, tcp.rs: one ADU per datagram, and how a
--                  connection comes about
--   Transport/Serial   src/transport/serial.rs, rs485.rs, rtu.rs: the line settings and the interval
--                  between frames, RS-485 direction control, and `open_serial`
--   Tests          runs on concrete requests
--
-- Numbers are natural numbers; the range of a machine integer is a hypothesis (`IsByte`, `IsU16`,
-- `IsCanonical`, which also leaves out the MEI bodies that do not come back), and
-- `try_from(…).unwrap_or(MAX)` and the sums of 8 bits are written out. A newtype of
-- src/frame/value.rs is its number. A `Result` has a third case `stuck` that no Rust code
-- returns: `run_all` out of fuel, or a failed `expect`. The fuel of `run_all` is the length of
-- its input, which is enough since every item takes at least one byte. `reserve` changes no
-- content and is left out.
--
-- What the code awaits is an argument, in the order in which it comes: reads of a stream, arrivals
-- before a deadline, events of the pipelined client, passes of the server's loop. The state of a
-- service is passed on by its methods. The fuel of `serve_framed` counts passes of its loop; more
-- than the attempts that come is enough.
--
-- Parameters: the crate `winnow` (a record of four parsers), the CRC-16 of the crate `crc` (a
-- function on bytes) and the consumer's `Service`; and what a socket, a serial port, the kernel or a
-- timer does, which the operation that waits for it takes as an argument. Not modelled: tasks of the
-- server that run at the same time, TLS (src/transport/tls.rs and `serve_tls`), `Display` and
-- serialisation, and the calls that only bind or look up a socket. A duration is its nanoseconds.
pub mod Prelude
pub mod Error
pub mod Parse
pub mod Buffer
pub mod Frame
pub mod Client
pub mod Server
pub mod Transport
pub mod Conversation
pub mod Tests
