-- ===== src/Frame/File/Encode.antt =====
-- Encoding file record bodies (src/frame/file.rs).
use rust_modbus.Prelude.{ℕ, ◌+◌, ◌-◌, ◌*◌, String, List, ltb, if◌then◌else◌, length, ok, err}
pub mod Relative
pub mod Body
use rust_modbus.Error.{Result, out_of_range}
use rust_modbus.Buffer.{Writer, len, lift, extend, push, patch, for_each, ◌>>=◌, ◌>>◌}
use rust_modbus.Frame.Bytes.{be_bytes, u8_saturated, u32_saturated}
use rust_modbus.Frame.Pdu.Limits.{check_bounds}
use rust_modbus.Frame.Pdu.Words.{push_registers}
use rust_modbus.Frame.File.{
  FileRecordRead, FileRecordReadResponse, FileRecordWrite, file_reference_type, check_numbers,
  min_read_byte_count, max_read_byte_count, min_read_data_len, max_read_data_len,
  min_write_data_len, max_write_data_len,
}

-- `FileRecordRead::encode_into`
unfoldable pub encode_read : FileRecordRead → Writer (Unit {0})
encode_read r = do
  lift (check_numbers r.file_number r.record_number)
  push file_reference_type
  extend (be_bytes r.file_number)
  extend (be_bytes r.record_number)
  extend (be_bytes r.record_length)

-- `FileRecordReadResponse::encode_into`
unfoldable pub response_length : ℕ → Result ℕ
response_length n =
    if ltb n 256
    then ok n
    else err (out_of_range "file response length" (u32_saturated n) 1 max_read_data_len)

unfoldable pub encode_read_response : FileRecordReadResponse → Writer (Unit {0})
unfolding response_length
encode_read_response r = do
  length_byte ← lift (response_length (length r.values * 2 + 1))
  push length_byte
  push file_reference_type
  push_registers r.values

-- `FileRecordWrite::encode_into`
unfoldable pub write_length : ℕ → Result ℕ
write_length n =
    if ltb n 65536
    then ok n
    else err (out_of_range "record length" (u32_saturated n) 0 max_write_data_len)

unfoldable pub encode_write : FileRecordWrite → Writer (Unit {0})
unfolding write_length
encode_write r = do
  lift (check_numbers r.file_number r.record_number)
  record_length ← lift (write_length (length r.values))
  push file_reference_type
  extend (be_bytes r.file_number)
  extend (be_bytes r.record_number)
  extend (be_bytes record_length)
  push_registers r.values

-- The length byte goes down as a placeholder and is patched behind the records.
unfoldable pub body {ℓ} :
    {A : Type ℓ} → String → ℕ → ℕ → (A → Writer (Unit {0})) → List A → Writer (Unit {0})
unfolding for_each
body field lo hi encode records = do
  start ← len
  push 0
  for_each encode records
  end ← len
  let length_byte = u32_saturated (end - start - 1)
  lift (check_bounds field length_byte lo hi)
  patch start (u8_saturated length_byte)

unfoldable pub encode_read_requests_into : List FileRecordRead → Writer (Unit {0})
unfolding body encode_read
encode_read_requests_into =
    body "request byte count" min_read_byte_count max_read_byte_count encode_read

unfoldable pub encode_read_responses_into : List FileRecordReadResponse → Writer (Unit {0})
unfolding body encode_read_response
encode_read_responses_into =
    body "response data length" min_read_data_len max_read_data_len encode_read_response

unfoldable pub encode_write_records_into : List FileRecordWrite → Writer (Unit {0})
unfolding body encode_write
encode_write_records_into =
    body "request data length" min_write_data_len max_write_data_len encode_write
