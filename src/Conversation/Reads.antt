-- ===== src/Conversation/Reads.antt =====
-- What the reads of a client return of a server's coils and registers (src/client/mod.rs).
use rust_modbus.Prelude.{
  ℕ, ◌+◌, ◌*◌, ◌/◌, ◌%◌, ◌≤◌, ◌<◌, ◌≡◌, refl, ap, inr, Bool, false, some, List, [], ◌∷◌, arith,
  length, All, take-length-append, ok,
}
use rust_modbus.Error.{Result}
use rust_modbus.Buffer.{◌>>=◌}
use rust_modbus.Frame.Bytes.{IsByte, IsU16}
use rust_modbus.Frame.Framing.{Framing, IsFraming, encode_request, encode_response}
use rust_modbus.Frame.Pdu.Encode.{encode_read, encode_counted}
use rust_modbus.Frame.Pdu.Bits.{packed_len}
use rust_modbus.Frame.Pdu.Bits.Chunk.{padding}
use rust_modbus.Frame.Pdu.Bits.RoundTrip.{push_bits_lem, pack, length-pack, spare}
use rust_modbus.Frame.Pdu.Words.{push_registers_lem, words_bytes, length-words_bytes}
use rust_modbus.Frame.Pdu.Request
use rust_modbus.Frame.Pdu.Request.{RequestPdu}
use rust_modbus.Frame.Pdu.Request.Write.{encode}
use rust_modbus.Frame.Pdu.Response
use rust_modbus.Frame.Pdu.Response.{ResponsePdu}
use rust_modbus.Frame.Pdu.Response.Typed.{padded, padded_bits}
use rust_modbus.Frame.Pdu.Response.Write
use rust_modbus.Client.Framing.{ClientFraming}
use rust_modbus.Client.Call.{Client, is_desynchronized, exchange}
use rust_modbus.Client.Call.Answer.{checked}
use rust_modbus.Client.Methods.{read_coils, read_holding_registers, truncate}
use rust_modbus.Server.Framing.{ServerFraming}
use rust_modbus.Server.Service.{Service, Connection}
use rust_modbus.Server.Exchange.{ServerConfig, is_other, response_of}
use rust_modbus.Conversation.{IsPaired, answered_by, served, round_trip}

read_coils-encodes :
    (address quantity : ℕ)
    → 1 ≤ quantity
    → quantity ≤ 2000
    → (bs : List ℕ) × (encode (RequestPdu.read_coils address quantity) ≡ ok bs)
unfolding encode encode_read ◌>>=◌
read_coils-encodes address quantity lo hi = (
  1 ∷ address / 256 % 256 ∷ address % 256 ∷ quantity / 256 % 256 ∷ quantity % 256 ∷ [],
  ground arith,
)

coils-encode :
    (coils : List Bool)
    → length coils ≤ 2000
    → Response.Write.encode (ResponsePdu.read_coils coils)
      ≡ ok (1 ∷ packed_len (length coils) ∷ pack coils)
unfolding Response.Write.encode encode_counted packed_len ◌>>=◌
coils-encode coils h =
    ground (arith, push_bits_lem coils (1 ∷ (length coils + 7) / 8 ∷ []), length-pack coils)

registers-encode :
    (registers : List ℕ)
    → length registers ≤ 125
    → Response.Write.encode (ResponsePdu.read_holding_registers registers)
      ≡ ok (3 ∷ length registers * 2 ∷ words_bytes registers)
unfolding Response.Write.encode encode_counted ◌>>=◌
registers-encode registers h = ground (
  arith,
  push_registers_lem registers (3 ∷ length registers * 2 ∷ []),
  length-words_bytes registers,
)

read_registers-encodes :
    (address quantity : ℕ)
    → 1 ≤ quantity
    → quantity ≤ 125
    → (bs : List ℕ) × (encode (RequestPdu.read_holding_registers address quantity) ≡ ok bs)
unfolding encode encode_read ◌>>=◌
read_registers-encodes address quantity lo hi = (
  3 ∷ address / 256 % 256 ∷ address % 256 ∷ quantity / 256 % 256 ∷ quantity % 256 ∷ [],
  ground arith,
)

truncate-padded : (coils : List Bool) → truncate (length coils) (padded_bits coils) ≡ coils
truncate-padded coils = take-length-append coils (padding (spare (length coils)))

module _ (f : Framing) {IsHeader : f.Header → Type 0} (law : IsFraming f IsHeader)
    (framing : ClientFraming f.Header) (serving : ServerFraming f.Header)
    (paired : IsPaired f IsHeader framing serving) {State : Type 0} (service : Service State)
    (config : ServerConfig) (conn : Connection) where
  -- The coils that the service gives for a read of as many come back from the client's
  -- `read_coils`, all and in order, whatever their number is up to 2000: the client writes the
  -- request, the server reads it, sends the one response, and the client reads that, under any
  -- framing that keeps its laws and whose headers both sides read alike; the client is usable, and
  -- the unit is no broadcast and one that the server's configuration serves.
  pub read_coils-served :
      (client : Client) (unit address : ℕ) (coils : List Bool)
      (arrivals : List (Result (f.Header × ResponsePdu))) (state : State)
      → is_desynchronized client ≡ false
      → IsByte unit × IsU16 client.next_transaction × IsU16 address
      → framing.is_broadcast unit ≡ false
      → is_other config.unit unit ≡ false
      → (1 ≤ length coils) × (length coils ≤ 2000)
      → (service.on_request conn unit (RequestPdu.read_coils address (length coils)) state).0
        ≡ inr (some (ResponsePdu.read_coils coils))
      → let sent : f.Header = framing.request_header unit client.next_transaction in
        (bytes reply : List ℕ) × (encode_request f sent
            (RequestPdu.read_coils address (length coils))
          ≡ ok bytes)
        × ((served f law framing serving paired service config conn bytes state).sent
            ≡ (sent, ResponsePdu.read_coils coils) ∷ [])
        × (encode_response f sent (ResponsePdu.read_coils coils) ≡ ok reply)
        × ((read_coils framing f.boundary
              (answered_by f law framing serving paired service config conn reply arrivals)
              unit
              address
              (length coils)
              client).result
            ≡ ok coils)
  unfolding read_coils exchange checked padded response_of Response.function Request.function
  read_coils-served client unit address coils arrivals state live (hu, ht, ha) single own (lo, hi)
        answer =
      let request : RequestPdu = RequestPdu.read_coils address (length coils) in
      let (pdu, e) = read_coils-encodes address (length coils) lo hi in
      let fits : length coils < 65536 = omega arith in
      let (bytes, reply, eb, ey, now, result, after) =
        round_trip f law framing serving paired service config conn client unit request
          (ResponsePdu.read_coils coils) pdu _ arrivals state live (hu, ht) single own (ha, fits) e
          (rw answer refl) tt (coils-encode coils hi) in
      (
        bytes,
        reply,
        eb,
        ap (λ progress. progress.sent) now,
        ey,
        rw single (rw result (ap ok (truncate-padded coils))),
      )

  -- The same of `read_holding_registers`, for up to 125 registers of 16 bits.
  pub read_holding_registers-served :
      (client : Client) (unit address : ℕ) (registers : List ℕ)
      (arrivals : List (Result (f.Header × ResponsePdu))) (state : State)
      → is_desynchronized client ≡ false
      → IsByte unit × IsU16 client.next_transaction × IsU16 address
      → framing.is_broadcast unit ≡ false
      → is_other config.unit unit ≡ false
      → All IsU16 registers
      → (1 ≤ length registers) × (length registers ≤ 125)
      → (service.on_request conn unit
          (RequestPdu.read_holding_registers address (length registers))
          state).0
        ≡ inr (some (ResponsePdu.read_holding_registers registers))
      → let sent : f.Header = framing.request_header unit client.next_transaction in
        let request : RequestPdu = RequestPdu.read_holding_registers address (length registers) in
        (bytes reply : List ℕ) × (encode_request f sent request ≡ ok bytes)
        × ((served f law framing serving paired service config conn bytes state).sent
            ≡ (sent, ResponsePdu.read_holding_registers registers) ∷ [])
        × (encode_response f sent (ResponsePdu.read_holding_registers registers) ≡ ok reply)
        × ((read_holding_registers framing f.boundary
              (answered_by f law framing serving paired service config conn reply arrivals)
              unit
              address
              (length registers)
              client).result
            ≡ ok registers)
  unfolding read_holding_registers exchange checked padded response_of Response.function
      Request.function
  read_holding_registers-served client unit address registers arrivals state live (hu, ht, ha)
        single own words (lo, hi) answer =
      let request : RequestPdu = RequestPdu.read_holding_registers address (length registers) in
      let (pdu, e) = read_registers-encodes address (length registers) lo hi in
      let fits : length registers < 65536 = omega arith in
      let (bytes, reply, eb, ey, now, result, after) =
        round_trip f law framing serving paired service config conn client unit request
          (ResponsePdu.read_holding_registers registers) pdu _ arrivals state live (hu, ht) single
          own (ha, fits) e (rw answer refl) words (registers-encode registers hi) in
      (bytes, reply, eb, ap (λ progress. progress.sent) now, ey, rw single (rw result refl))
