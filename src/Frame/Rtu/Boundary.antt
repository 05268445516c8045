-- ===== src/Frame/Rtu/Boundary.antt =====
-- Where an ADU over a byte stream ends (src/frame/rtu.rs).
use rust_modbus.Prelude.{
  ℕ, ◌+◌, ◌*◌, ◌/◌, ◌%◌, ◌≤◌, ◌≡◌, Bool, true, false, List, [], ◌∷◌, ◌++◌, append_assoc, arith,
  length, length-append, ok,
}
use rust_modbus.Frame.Framing.{request, complete}
use rust_modbus.Frame.Rtu.Extent.{derive_extent}
use rust_modbus.Frame.Rtu.Adu.{adu, length-adu, trailer}
use rust_modbus.Parse.Region.{all_bytes}
use rust_modbus.Frame.File.Items.{read_bytes, write_bytes}
use rust_modbus.Buffer.{◌>>=◌}
use rust_modbus.Frame.Mei.{MeiRequest}
use rust_modbus.Frame.Mei.RoundTrip.{request_bytes, encode_request_into-bytes}
use rust_modbus.Frame.File.{FileRecordRead, FileRecordWrite}
use rust_modbus.Frame.File.RoundTrip.{
  encode_read_requests_into-bytes, encode_write_records_into-bytes, encode_read_requests_into-fits,
  encode_write_records_into-fits,
}
use rust_modbus.Frame.File.Encode.Relative.{
  encode_read_requests_into-IsRelative, encode_write_records_into-IsRelative,
}
use rust_modbus.Frame.Pdu.Bits.RoundTrip.{push_bits_lem, pack, length-pack}
use rust_modbus.Frame.Pdu.Bits.{packed_len}
use rust_modbus.Frame.Pdu.Words.{push_registers_lem, words_bytes, length-words_bytes}
use rust_modbus.Frame.Pdu.Encode.{
  encode_read, encode_single, encode_quantified, quantity_of, encode_body, encode_bare, sized,
}
use rust_modbus.Frame.Pdu.Request.{
  RequestPdu, read_coils, read_discrete_inputs, read_holding_registers, read_input_registers,
  write_single_coil, write_single_register, write_multiple_coils, write_multiple_registers,
  mask_write_register, read_write_multiple_registers, read_exception_status, diagnostics,
  get_comm_event_counter, get_comm_event_log, report_server_id, read_file_record, write_file_record,
  read_fifo_queue, encapsulated_interface_transport, custom,
}
use rust_modbus.Frame.Pdu.Request.Write.{encode}
use rust_modbus.Frame.Pdu.Request.DecodeBodies.{read_write_bounds, read_write_bytes}

-- The requests whose length their own bytes determine.
abbrev pub IsDeterminate : RequestPdu → Type 0
IsDeterminate (diagnostics sub_function words) = ⊥
IsDeterminate (custom code body) = ⊥
IsDeterminate (encapsulated_interface_transport (MeiRequest.can_open body)) = ⊥
IsDeterminate (encapsulated_interface_transport (MeiRequest.other mei_type body)) = ⊥
IsDeterminate _ = Unit {0}

-- A stream that starts with the address and the bytes of a PDU, and has two bytes more at least.
abbrev Ends : List ℕ → Type 0
Ends bs =
    (address : ℕ) (rest : List ℕ)
    → 2 ≤ length rest
    → derive_extent request (address ∷ bs ++ rest) ≡ ok (complete (length bs + 3))

coils_end :
    (a : ℕ) (l : List Bool) (bs : List ℕ) → encode (write_multiple_coils a l) ≡ ok bs → Ends bs
unfolding encode encode_quantified quantity_of derive_extent ◌>>=◌ packed_len
coils_end a l bs h address rest r =
    let n = (length l + 7) / 8 in
    ground (
      arith,
      push_bits_lem l
          (15 ∷ a / 256 % 256 ∷ a % 256 ∷ length l / 256 % 256 ∷ length l % 256 ∷ n ∷ []),
      length-pack l,
      length-append (pack l) rest,
    )

registers_end : (a : ℕ) (l bs : List ℕ) → encode (write_multiple_registers a l) ≡ ok bs → Ends bs
unfolding encode encode_quantified quantity_of derive_extent ◌>>=◌
registers_end a l bs h address rest r =
    let n = length l in
    ground (
      arith,
      push_registers_lem l (16 ∷ a / 256 % 256 ∷ a % 256 ∷ n / 256 % 256 ∷ n % 256 ∷ n * 2 ∷ []),
      length-words_bytes l,
      length-append (words_bytes l) rest,
    )

read_write_end :
    (a q b : ℕ) (l bs : List ℕ) → encode (read_write_multiple_registers a q b l) ≡ ok bs → Ends bs
unfolding derive_extent
read_write_end a q b l bs h address rest r =
    let bounds = read_write_bounds a q b l bs h in
    ground (
      arith,
      bounds,
      read_write_bytes a q b l bs bounds h,
      length-words_bytes l,
      length-append (words_bytes l) rest,
    )

reads_end : (l : List FileRecordRead) (bs : List ℕ) → encode (read_file_record l) ≡ ok bs → Ends bs
unfolding encode encode_body derive_extent ◌>>=◌
reads_end l bs h address rest r = ground (
  arith,
  (encode_read_requests_into-IsRelative l).at (20 ∷ []),
  encode_read_requests_into-fits l,
  encode_read_requests_into-bytes l,
  length-append (all_bytes read_bytes l) rest,
)

writes_end :
    (l : List FileRecordWrite) (bs : List ℕ) → encode (write_file_record l) ≡ ok bs → Ends bs
unfolding encode encode_body derive_extent ◌>>=◌
writes_end l bs h address rest r = ground (
  arith,
  (encode_write_records_into-IsRelative l).at (21 ∷ []),
  encode_write_records_into-fits l,
  encode_write_records_into-bytes l,
  length-append (all_bytes write_bytes l) rest,
)

request-Ends : (pdu : RequestPdu) (bs : List ℕ) → IsDeterminate pdu → encode pdu ≡ ok bs → Ends bs
unfolding encode encode_read encode_single encode_bare encode_body sized derive_extent request_bytes
    ◌>>=◌
request-Ends (read_coils a q) bs d h address rest r = ground arith
request-Ends (read_discrete_inputs a q) bs d h address rest r = ground arith
request-Ends (read_holding_registers a q) bs d h address rest r = ground arith
request-Ends (read_input_registers a q) bs d h address rest r = ground arith
request-Ends (write_single_coil a true) bs d h address rest r = ground arith
request-Ends (write_single_coil a false) bs d h address rest r = ground arith
request-Ends (write_single_register a v) bs d h address rest r = ground arith
request-Ends (mask_write_register a m n) bs d h address rest r = ground arith
request-Ends read_exception_status bs d h address rest r = ground arith
request-Ends get_comm_event_counter bs d h address rest r = ground arith
request-Ends get_comm_event_log bs d h address rest r = ground arith
request-Ends report_server_id bs d h address rest r = ground arith
request-Ends (read_fifo_queue a) bs d h address rest r = ground arith
request-Ends (write_multiple_coils a l) bs d h address rest r = coils_end a l bs h address rest r
request-Ends (write_multiple_registers a l) bs d h address rest r =
    registers_end a l bs h address rest r
request-Ends (read_write_multiple_registers a q b l) bs d h address rest r =
    read_write_end a q b l bs h address rest r
request-Ends (read_file_record l) bs d h address rest r = reads_end l bs h address rest r
request-Ends (write_file_record l) bs d h address rest r = writes_end l bs h address rest r
request-Ends (encapsulated_interface_transport (MeiRequest.read_device_identification code id)) bs d
      h address rest r =
    ground
      (arith, encode_request_into-bytes (MeiRequest.read_device_identification code id) (43 ∷ []))
request-Ends (encapsulated_interface_transport (MeiRequest.can_open body)) bs d h address rest r =
    absurd d
request-Ends (encapsulated_interface_transport (MeiRequest.other t body)) bs d h address rest r =
    absurd d
request-Ends (diagnostics sub words) bs d h address rest r = absurd d
request-Ends (custom code body) bs d h address rest r = absurd d

-- Whatever follows it in the stream, the ADU of every request whose own bytes give its length ends
-- where `derive_extent` says.
pub derive_extent-adu :
    (crc16 : List ℕ → ℕ) (address : ℕ) (pdu : RequestPdu) (bs more : List ℕ)
    → IsDeterminate pdu
    → encode pdu ≡ ok bs
    → derive_extent request (adu crc16 address bs ++ more)
      ≡ ok (complete (length (adu crc16 address bs)))
derive_extent-adu crc16 address pdu bs more d h =
    rw (length-adu crc16 address bs, append_assoc bs (trailer crc16 (address ∷ bs)) more)
      (request-Ends pdu bs d h address (trailer crc16 (address ∷ bs) ++ more) (omega arith))
