-- ===== src/Frame/File.antt =====
-- File record access bodies (src/frame/file.rs).
use rust_modbus.Prelude.{ℕ, ◌-◌, ◌*◌, ◌%◌, not, ◌||◌, List, ◌==◌, if◌then◌else◌, ok, err, and_then}
use rust_modbus.Error.{Result, illegal_value, reference_type}
use rust_modbus.Parse.{lift, ensure, run_all}
use rust_modbus.Parse.Stream.{Winnow, Parser, ◌>>=◌, ◌>>◌, pure}
use rust_modbus.Frame.Bytes.{u16_saturated}
use rust_modbus.Frame.Pdu.Limits.{check_bounds}
use rust_modbus.Frame.Pdu.Words.{registers_from_bytes}
pub mod Encode
pub mod Items
pub mod RoundTrip
pub mod ReadResponses

abbrev pub file_reference_type : ℕ
file_reference_type = 6

abbrev pub max_record_number : ℕ
max_record_number = 9999

abbrev pub read_subrequest_len : ℕ
read_subrequest_len = 7

abbrev pub min_read_byte_count : ℕ
min_read_byte_count = 7

abbrev pub max_read_byte_count : ℕ
max_read_byte_count = 245

abbrev pub min_read_data_len : ℕ
min_read_data_len = 7

abbrev pub max_read_data_len : ℕ
max_read_data_len = 245

abbrev pub min_write_data_len : ℕ
min_write_data_len = 9

abbrev pub max_write_data_len : ℕ
max_write_data_len = 251

pub record FileRecordRead : Type 0 where
  pub file_number : ℕ
  pub record_number : ℕ
  pub record_length : ℕ

pub record FileRecordReadResponse : Type 0 where
  pub values : List ℕ

pub record FileRecordWrite : Type 0 where
  pub file_number : ℕ
  pub record_number : ℕ
  pub values : List ℕ

unfoldable pub check_numbers : ℕ → ℕ → Result (Unit {0})
unfolding check_bounds
check_numbers file_number record_number =
    and_then (check_bounds "file number" file_number 1 65535)
      (λ _. check_bounds "record number" record_number 0 max_record_number)

-- The length checks that the three bodies hand to `region`.
unfoldable pub check_read_requests : ℕ → Result (Unit {0})
unfolding check_bounds
check_read_requests count =
    and_then (check_bounds "request byte count" count min_read_byte_count max_read_byte_count) (λ _.
      if count % read_subrequest_len == 0
      then ok tt
      else err (illegal_value "request byte count" (u16_saturated count)))

module _ (w : Winnow) where
  unfoldable pub parse_reference_type : Parser (Unit {0})
  unfolding ensure
  parse_reference_type = do
    byte ← w.be_u8
    ensure (byte == file_reference_type) (reference_type byte)

  -- `FileRecordRead::parse`
  unfoldable pub parse_read : Parser FileRecordRead
  unfolding parse_reference_type lift check_numbers
  parse_read = do
    parse_reference_type
    file_number ← w.be_u16
    record_number ← w.be_u16
    record_length ← w.be_u16
    lift (check_numbers file_number record_number)
    pure (record {
      file_number = file_number;
      record_number = record_number;
      record_length = record_length;
    })

  -- `FileRecordReadResponse::parse`
  unfoldable pub parse_read_response : Parser FileRecordReadResponse
  unfolding parse_reference_type ensure
  parse_read_response = do
    length_byte ← w.be_u8
    ensure (not (length_byte == 0 || length_byte % 2 == 0))
        (illegal_value "file response length" length_byte)
    parse_reference_type
    bytes ← w.take (length_byte - 1)
    pure (record { values = registers_from_bytes bytes })

  -- `FileRecordWrite::parse`
  unfoldable pub parse_write : Parser FileRecordWrite
  unfolding parse_reference_type lift check_numbers
  parse_write = do
    parse_reference_type
    file_number ← w.be_u16
    record_number ← w.be_u16
    record_length ← w.be_u16
    lift (check_numbers file_number record_number)
    bytes ← w.take (record_length * 2)
    pure (record {
      file_number = file_number;
      record_number = record_number;
      values = registers_from_bytes bytes;
    })

  unfoldable pub region : (ℕ → Result (Unit {0})) → Parser (List ℕ)
  unfolding lift
  region check = do length_byte ← w.be_u8; lift (check length_byte); w.take length_byte

  unfoldable pub decode_read_requests : Parser (List FileRecordRead)
  unfolding region lift
  decode_read_requests = do bytes ← region check_read_requests; lift (run_all w bytes parse_read)

  unfoldable pub decode_read_responses : Parser (List FileRecordReadResponse)
  unfolding region lift
  decode_read_responses = do
    bytes ← region (λ n. check_bounds "response data length" n min_read_data_len max_read_data_len)
    lift (run_all w bytes parse_read_response)

  unfoldable pub decode_write_records : Parser (List FileRecordWrite)
  unfolding region lift
  decode_write_records = do
    bytes ← region (λ n. check_bounds "request data length" n min_write_data_len max_write_data_len)
    lift (run_all w bytes parse_write)
