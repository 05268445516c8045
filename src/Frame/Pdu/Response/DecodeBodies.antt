-- ===== src/Frame/Pdu/Response/DecodeBodies.antt =====
-- Decoding the response bodies that count their bytes (src/frame/pdu.rs).
use rust_modbus.Prelude.{
  ℕ, ◌+◌, ◌*◌, ◌/◌, ◌<◌, ◌≡◌, Bool, List, [], ◌∷◌, arith, length, All, ok, take-all, drop-all,
}
use rust_modbus.Buffer.{◌>>=◌}
use rust_modbus.Parse.Reference.{reference}
use rust_modbus.Frame.Bytes.{IsU16}
use rust_modbus.Frame.Function
use rust_modbus.Frame.Pdu.Bits.{packed_len}
use rust_modbus.Frame.Pdu.Bits.RoundTrip.{push_bits_lem, pack, length-pack, bits-pack}
use rust_modbus.Frame.Pdu.Words.{
  push_registers_lem, words_bytes, length-words_bytes, words_from_bytes-words_bytes,
  registers-eq-words,
}
use rust_modbus.Frame.Pdu.Encode.{encode_counted}
use rust_modbus.Frame.Pdu.Decode.{counted_bytes, registers}
use rust_modbus.Frame.Pdu.Response.{
  read_coils, read_discrete_inputs, read_holding_registers, read_input_registers,
  read_write_multiple_registers, report_server_id, decode,
}
use rust_modbus.Frame.Pdu.Response.Write.{encode}
use rust_modbus.Frame.Pdu.Response.Typed.{padded_bits}

-- The counted bodies.
pub coils_decode :
    (l : List Bool) (bs : List ℕ)
    → encode (read_coils l) ≡ ok bs
    → decode reference bs ≡ ok (read_coils (padded_bits l))
unfolding encode encode_counted decode counted_bytes reference Function.decode ◌>>=◌ packed_len
coils_decode l bs h = ground (
  arith,
  push_bits_lem l (1 ∷ (length l + 7) / 8 ∷ []),
  length-pack l,
  take-all ((length l + 7) / 8) (pack l),
  drop-all ((length l + 7) / 8) (pack l),
  bits-pack l,
)

pub inputs_decode :
    (l : List Bool) (bs : List ℕ)
    → encode (read_discrete_inputs l) ≡ ok bs
    → decode reference bs ≡ ok (read_discrete_inputs (padded_bits l))
unfolding encode encode_counted decode counted_bytes reference Function.decode ◌>>=◌ packed_len
inputs_decode l bs h = ground (
  arith,
  push_bits_lem l (2 ∷ (length l + 7) / 8 ∷ []),
  length-pack l,
  take-all ((length l + 7) / 8) (pack l),
  drop-all ((length l + 7) / 8) (pack l),
  bits-pack l,
)

-- The four bodies of registers: three function codes and the same counted body.
counted_registers_decode :
    (r : List ℕ)
    → All IsU16 r
    → length r * 2 < 256
    → registers reference (length r * 2 ∷ words_bytes r) ≡ ok (r, [])
unfolding registers counted_bytes reference
counted_registers_decode r hr h = ground (
  arith,
  length-words_bytes r,
  take-all (length r * 2) (words_bytes r),
  drop-all (length r * 2) (words_bytes r),
  registers-eq-words (words_bytes r),
  words_from_bytes-words_bytes r hr,
)

pub holding_decode :
    (r bs : List ℕ)
    → All IsU16 r
    → encode (read_holding_registers r) ≡ ok bs
    → decode reference bs ≡ ok (read_holding_registers r)
unfolding encode encode_counted decode reference Function.decode ◌>>=◌
holding_decode r bs hr h = ground (
  arith,
  push_registers_lem r (3 ∷ length r * 2 ∷ []),
  length-words_bytes r,
  counted_registers_decode r hr,
)

pub input_decode :
    (r bs : List ℕ)
    → All IsU16 r
    → encode (read_input_registers r) ≡ ok bs
    → decode reference bs ≡ ok (read_input_registers r)
unfolding encode encode_counted decode reference Function.decode ◌>>=◌
input_decode r bs hr h = ground (
  arith,
  push_registers_lem r (4 ∷ length r * 2 ∷ []),
  length-words_bytes r,
  counted_registers_decode r hr,
)

pub read_write_decode :
    (r bs : List ℕ)
    → All IsU16 r
    → encode (read_write_multiple_registers r) ≡ ok bs
    → decode reference bs ≡ ok (read_write_multiple_registers r)
unfolding encode encode_counted decode reference Function.decode ◌>>=◌
read_write_decode r bs hr h = ground (
  arith,
  push_registers_lem r (23 ∷ length r * 2 ∷ []),
  length-words_bytes r,
  counted_registers_decode r hr,
)

pub server_id_decode :
    (body bs : List ℕ)
    → encode (report_server_id body) ≡ ok bs
    → decode reference bs ≡ ok (report_server_id body)
unfolding encode encode_counted decode counted_bytes reference Function.decode ◌>>=◌
server_id_decode body bs h =
    ground (arith, take-all (length body) body, drop-all (length body) body)
