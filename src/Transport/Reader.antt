-- ===== src/Transport/Reader.antt =====
-- Cutting ADUs out of a byte stream (`read_adu` and `recv_adu` of src/transport/mod.rs).
use rust_modbus.Prelude.{
  ℕ, Bool, true, false, Option, none, some, List, [], if◌then◌else◌, ok, err, stuck,
}
pub mod Fill
pub mod Chunks
pub mod Bursts
pub mod Silence
pub mod Content
pub mod Delimited
use rust_modbus.Error.{Result, timeout}
use rust_modbus.Frame.Framing.{
  AduBoundary, Direction, prefixed, delimited, silence, content_length, is_self_locating,
}
use rust_modbus.Transport.Reader.Fill.{Read, Reading, read_prefixed}
use rust_modbus.Transport.Reader.Silence.{read_until_silence}
use rust_modbus.Transport.Reader.Content.{read_content_length}
use rust_modbus.Transport.Reader.Delimited.{read_delimited}

-- `read_adu`
unfoldable pub read_adu :
    (max_adu_len : ℕ) → AduBoundary → Direction → List ℕ → List Read → Reading (List ℕ)
unfolding read_prefixed read_delimited read_until_silence read_content_length
read_adu max_adu_len (prefixed prefix total) direction buffer reads =
    read_prefixed max_adu_len prefix total buffer reads
read_adu max_adu_len (delimited start terminator) direction buffer reads =
    read_delimited max_adu_len start terminator 0 buffer reads
read_adu max_adu_len silence direction buffer reads = read_until_silence max_adu_len buffer reads
read_adu max_adu_len (content_length min extent) direction buffer reads =
    read_content_length max_adu_len (extent direction) min buffer reads

-- What `recv_adu` keeps of a transport: the buffer, and whether a receive was cut off.
pub record Reader : Type 0 where
  pub buffer : List ℕ
  pub receiving : Bool

abbrev pub new_reader : Reader
new_reader = record { buffer = []; receiving = false }

-- `recv_adu`: the result, `none` when it is still waiting, the transport, and the reads left. A
-- caller that drops it while it waits leaves the transport as it is then.
unfoldable pub recv_adu :
    (max_adu_len : ℕ)
    → AduBoundary
    → Direction
    → Reader
    → List Read
    → Option (Result (List ℕ)) × Reader × List Read
unfolding read_adu is_self_locating
recv_adu max_adu_len boundary direction reader reads =
    let reading = read_adu max_adu_len boundary direction reader.buffer reads in
    let cleared = if is_self_locating boundary then [] else reading.buffer in
    if reader.receiving
    then (some (err (timeout "receive")), reader, reads)
    else elim reading.result [
      | none ↦ (none, record { buffer = reading.buffer; receiving = true }, reading.reads)
      | some (ok adu) ↦
          (some (ok adu), record { buffer = reading.buffer; receiving = false }, reading.reads)
      | some (err error) ↦
          (some (err error), record { buffer = cleared; receiving = false }, reading.reads)
      | some stuck ↦
          (some stuck, record { buffer = reading.buffer; receiving = true }, reading.reads)
    ]
