-- ===== src/Frame/Pdu/Response/DecodeLogs.antt =====
-- Decoding the response bodies of the event log and the FIFO queue (src/frame/pdu.rs).
use rust_modbus.Prelude.{
  ℕ, ◌+◌, ◌*◌, ◌/◌, ◌%◌, ◌≤◌, ◌≡◌, List, [], ◌∷◌, ◌++◌, arith, length, All, ok, take-all, drop-all,
}
use rust_modbus.Buffer.{◌>>=◌}
use rust_modbus.Parse.Reference.{reference}
use rust_modbus.Frame.Bytes.{IsU16, u8_saturated-small, u32_saturated-small}
use rust_modbus.Frame.Function
use rust_modbus.Frame.Pdu.Words.{
  push_registers_lem, words_bytes, length-words_bytes, words_from_bytes-words_bytes,
  registers-eq-words,
}
use rust_modbus.Frame.Pdu.Limits.{check_range, check_event_log_bytes}
use rust_modbus.Frame.Pdu.Encode.{sized, quantity_of, quantity_of-in_range}
use rust_modbus.Frame.Pdu.Decode.{fifo_values}
use rust_modbus.Frame.Pdu.Response.{get_comm_event_log, read_fifo_queue, decode, event_log}
use rust_modbus.Frame.Pdu.Response.Write.{encode}

abbrev pub log_front : ℕ → ℕ → ℕ → ℕ → List ℕ
log_front n s c m =
    12 ∷ n ∷ s / 256 % 256 ∷ s % 256 ∷ c / 256 % 256 ∷ c % 256 ∷ m / 256 % 256 ∷ m % 256 ∷ []

log_bound :
    (s c m : ℕ) (events bs : List ℕ)
    → encode (get_comm_event_log s c m events) ≡ ok bs
    → length events ≤ 64
unfolding encode check_event_log_bytes ◌>>=◌
log_bound s c m events bs h = ground arith

log_bytes :
    (s c m : ℕ) (events bs : List ℕ)
    → length events ≤ 64
    → encode (get_comm_event_log s c m events) ≡ ok bs
    → bs ≡ log_front (6 + length events) s c m ++ events
unfolding encode sized check_event_log_bytes ◌>>=◌
log_bytes s c m events bs l h = ground (
  arith,
  u32_saturated-small (6 + length events) (omega arith),
  u8_saturated-small (6 + length events) (omega arith),
)

log_body :
    (s c m : ℕ) (events : List ℕ)
    → IsU16 s × IsU16 c × IsU16 m
    → length events ≤ 64
    → decode reference (log_front (6 + length events) s c m ++ events)
      ≡ ok (get_comm_event_log s c m events)
unfolding decode event_log check_event_log_bytes reference Function.decode
log_body s c m events t h =
    ground (arith, take-all (length events) events, drop-all (length events) events)

pub log_decode :
    (s c m : ℕ) (events bs : List ℕ)
    → IsU16 s × IsU16 c × IsU16 m
    → encode (get_comm_event_log s c m events) ≡ ok bs
    → decode reference bs ≡ ok (get_comm_event_log s c m events)
log_decode s c m events bs t h =
    let bound = log_bound s c m events bs h in
    rw (log_bytes s c m events bs bound h) (log_body s c m events t bound)

abbrev pub fifo_front : ℕ → List ℕ
fifo_front n = 24 ∷ (n * 2 + 2) / 256 % 256 ∷ (n * 2 + 2) % 256 ∷ n / 256 % 256 ∷ n % 256 ∷ []

fifo_bound : (r bs : List ℕ) → encode (read_fifo_queue r) ≡ ok bs → length r ≤ 31
unfolding encode quantity_of ◌>>=◌
fifo_bound r bs h = ground arith

fifo_bytes :
    (r bs : List ℕ)
    → length r ≤ 31
    → encode (read_fifo_queue r) ≡ ok bs
    → bs ≡ fifo_front (length r) ++ words_bytes r
unfolding encode sized ◌>>=◌
fifo_bytes r bs l h = ground (
  arith,
  quantity_of-in_range "FIFO count" (length r) 0 31 (omega arith) l (omega arith),
  push_registers_lem r (fifo_front (length r)),
)

fifo_body :
    (r : List ℕ)
    → All IsU16 r
    → length r ≤ 31
    → decode reference (fifo_front (length r) ++ words_bytes r) ≡ ok (read_fifo_queue r)
unfolding decode fifo_values check_range reference Function.decode
fifo_body r hr h = ground (
  arith,
  length-words_bytes r,
  take-all (length r * 2) (words_bytes r),
  drop-all (length r * 2) (words_bytes r),
  registers-eq-words (words_bytes r),
  words_from_bytes-words_bytes r hr,
)

pub fifo_decode :
    (r bs : List ℕ)
    → All IsU16 r
    → encode (read_fifo_queue r) ≡ ok bs
    → decode reference bs ≡ ok (read_fifo_queue r)
fifo_decode r bs hr h =
    let bound = fifo_bound r bs h in rw (fifo_bytes r bs bound h) (fifo_body r hr bound)
