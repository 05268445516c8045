-- ===== src/Frame/Pdu/Response/EncodeLogs.antt =====
-- Encoding the responses that the bodies of the event log and the FIFO queue decode to
-- (src/frame/pdu.rs).
use rust_modbus.Prelude.{
  ℕ, ◌+◌, ◌-◌, ◌*◌, ◌≤◌, ◌≡◌, List, [], ◌∷◌, ◌++◌, arith, length, All, length-drop, ok, take-all,
}
use rust_modbus.Buffer.{◌>>=◌}
use rust_modbus.Parse.Stream.{Input}
use rust_modbus.Parse.Reference.{reference}
use rust_modbus.Frame.Bytes.{IsByte, u8_saturated-small, u32_saturated-small}
use rust_modbus.Frame.Code.{FunctionCode}
use rust_modbus.Frame.Pdu.Words.{
  push_registers_lem, words_from_bytes, words_bytes, length-words_bytes,
  words_bytes-words_from_bytes, registers-eq-words,
}
use rust_modbus.Frame.Pdu.Limits.{check_range, check_event_log_bytes}
use rust_modbus.Frame.Pdu.Encode.{sized, quantity_of-in_range}
use rust_modbus.Frame.Pdu.Decode.{fifo_values}
use rust_modbus.Frame.Pdu.Response.{ResponsePdu, decode_body, event_log}
use rust_modbus.Frame.Pdu.Response.DecodeLogs.{log_front, fifo_front}
use rust_modbus.Frame.Pdu.Response.Write.{encode}
use rust_modbus.Frame.Pdu.Response.EncodeBodies.{Reencodes}

log_encode :
    (s c m : ℕ) (events : List ℕ)
    → length events ≤ 64
    → encode (ResponsePdu.get_comm_event_log s c m events)
      ≡ ok (log_front (6 + length events) s c m ++ events)
unfolding encode sized check_event_log_bytes ◌>>=◌
log_encode s c m events l = ground (
  arith,
  u32_saturated-small (6 + length events) (omega arith),
  u8_saturated-small (6 + length events) (omega arith),
)

log_read :
    (n x y z u v t : ℕ) (s : Input) (pdu : ResponsePdu)
    → decode_body reference FunctionCode.get_comm_event_log (n ∷ x ∷ y ∷ z ∷ u ∷ v ∷ t ∷ s)
      ≡ ok (pdu, [])
    → (length s ≤ 64)
      × (n ≡ 6 + length s)
      × (pdu ≡ ResponsePdu.get_comm_event_log (x * 256 + y) (z * 256 + u) (v * 256 + t) s)
unfolding decode_body event_log check_event_log_bytes reference
log_read n x y z u v t s pdu h = ground (arith, length-drop (n - 6) s, take-all (n - 6) s)

pub log_again : (s : Input) → Reencodes FunctionCode.get_comm_event_log 12 s
unfolding decode_body event_log reference
log_again (n ∷ x ∷ y ∷ z ∷ u ∷ v ∷ t ∷ s) pdu hb hl h =
    let (l, e, same) = log_read n x y z u v t s pdu h in
    ground (arith, log_encode (x * 256 + y) (z * 256 + u) (v * 256 + t) s l)
log_again s pdu hb hl h = absurd (ground arith)

fifo_encode :
    (r : List ℕ)
    → length r ≤ 31
    → encode (ResponsePdu.read_fifo_queue r) ≡ ok (fifo_front (length r) ++ words_bytes r)
unfolding encode sized ◌>>=◌
fifo_encode r l = ground (
  arith,
  quantity_of-in_range "FIFO count" (length r) 0 31 (omega arith) l (omega arith),
  length-words_bytes r,
  push_registers_lem r (fifo_front (length r)),
)

fifo_read :
    (a b c d : ℕ) (s : Input) (pdu : ResponsePdu)
    → All IsByte (a ∷ b ∷ c ∷ d ∷ s)
    → decode_body reference FunctionCode.read_fifo_queue (a ∷ b ∷ c ∷ d ∷ s) ≡ ok (pdu, [])
    → (c * 256 + d ≤ 31)
      × (a * 256 + b ≡ (c * 256 + d) * 2 + 2)
      × (length s ≡ (c * 256 + d) * 2)
      × (pdu ≡ ResponsePdu.read_fifo_queue (words_from_bytes s))
unfolding decode_body fifo_values check_range reference
fifo_read a b c d s pdu hb h =
    ground (
      arith,
      length-drop ((c * 256 + d) * 2) s,
      take-all ((c * 256 + d) * 2) s,
      registers-eq-words s,
    )

pub fifo_again : (s : Input) → Reencodes FunctionCode.read_fifo_queue 24 s
unfolding decode_body fifo_values reference
fifo_again (a ∷ b ∷ c ∷ d ∷ s) pdu hb hl h =
    let (l, e, n, same) = fifo_read a b c d s pdu hb h in
    ground (
      arith,
      words_bytes-words_from_bytes s,
      length-words_bytes (words_from_bytes s),
      fifo_encode (words_from_bytes s),
    )
fifo_again s pdu hb hl h = absurd (ground arith)
