-- ===== src/Frame/File/RoundTrip.antt =====
-- The bodies of the file record requests: what is encoded decodes, and the other way round.
use rust_modbus.Prelude.{
  ℕ, ◌*◌, ◌≤◌, ◌≡◌, refl, List, [], ◌∷◌, arith, length, All, length-drop, ok, take-all, drop-all,
}
use rust_modbus.Parse.Stream.{Input}
use rust_modbus.Parse.Reference.{reference}
use rust_modbus.Parse.Region.{all_bytes, run_all-all_bytes, run_all-items}
use rust_modbus.Frame.Bytes.{IsByte}
use rust_modbus.Frame.Pdu.Limits.{check_bounds}
use rust_modbus.Frame.File.{
  FileRecordRead, FileRecordWrite, decode_read_requests, decode_write_records, check_read_requests,
}
use rust_modbus.Frame.File.Items.{
  read_bytes, ReadFits, ReadIsTyped, read_item, write_bytes, WriteFits, WriteIsTyped, write_item,
}
use rust_modbus.Frame.File.Encode.{encode_read_requests_into, encode_write_records_into}
use rust_modbus.Frame.File.Encode.Body.{body-writes, body-checks}

pub length-read_bytes :
    (records : List FileRecordRead) → length (all_bytes read_bytes records) ≡ 7 * length records
length-read_bytes [] = refl
length-read_bytes (r ∷ records) = omega (arith, length-read_bytes records)

-- The counted bytes of records.
abbrev pub counted : List ℕ → List ℕ
counted bytes = length bytes ∷ bytes

abbrev pub ReadsFit : List FileRecordRead → Type 0
ReadsFit records =
    All ReadFits records
    × (7 ≤ length (all_bytes read_bytes records))
    × (length (all_bytes read_bytes records) ≤ 245)

abbrev pub WritesFit : List FileRecordWrite → Type 0
WritesFit records =
    All WriteFits records
    × (9 ≤ length (all_bytes write_bytes records))
    × (length (all_bytes write_bytes records) ≤ 251)

pub encode_read_requests_into-bytes :
    (records : List FileRecordRead)
    → ReadsFit records
    → encode_read_requests_into records [] ≡ (ok tt, counted (all_bytes read_bytes records))
unfolding encode_read_requests_into
encode_read_requests_into-bytes records (h, l, u) =
    body-writes read_item "request byte count" 7 245 records h l u (omega arith)

pub encode_read_requests_into-fits :
    (records : List FileRecordRead)
    → (encode_read_requests_into records []).0 ≡ ok tt
    → ReadsFit records
unfolding encode_read_requests_into
encode_read_requests_into-fits records h =
    body-checks read_item "request byte count" 7 245 records (omega arith) h

pub encode_write_records_into-bytes :
    (records : List FileRecordWrite)
    → WritesFit records
    → encode_write_records_into records [] ≡ (ok tt, counted (all_bytes write_bytes records))
unfolding encode_write_records_into
encode_write_records_into-bytes records (h, l, u) =
    body-writes write_item "request data length" 9 251 records h l u (omega arith)

pub encode_write_records_into-fits :
    (records : List FileRecordWrite)
    → (encode_write_records_into records []).0 ≡ ok tt
    → WritesFit records
unfolding encode_write_records_into
encode_write_records_into-fits records h =
    body-checks write_item "request data length" 9 251 records (omega arith) h

pub decode_read_requests-bytes :
    (records : List FileRecordRead)
    → ReadsFit records
    → All ReadIsTyped records
    → decode_read_requests reference (counted (all_bytes read_bytes records)) ≡ ok (records, [])
unfolding decode_read_requests check_read_requests reference
decode_read_requests-bytes records (h, l, u) t =
    let bytes = all_bytes read_bytes records in
    ground (
      arith,
      length-read_bytes records,
      take-all (length bytes) bytes (omega arith),
      drop-all (length bytes) bytes (omega arith),
      run_all-all_bytes read_item records h t,
    )

pub decode_write_records-bytes :
    (records : List FileRecordWrite)
    → WritesFit records
    → All WriteIsTyped records
    → decode_write_records reference (counted (all_bytes write_bytes records)) ≡ ok (records, [])
unfolding decode_write_records check_bounds reference
decode_write_records-bytes records (h, l, u) t =
    let bytes = all_bytes write_bytes records in
    ground (
      arith,
      take-all (length bytes) bytes (omega arith),
      drop-all (length bytes) bytes (omega arith),
      run_all-all_bytes write_item records h t,
    )

pub bytes-decode_read_requests :
    (s : Input) (records : List FileRecordRead)
    → All IsByte s
    → decode_read_requests reference s ≡ ok (records, [])
    → (s ≡ counted (all_bytes read_bytes records)) × ReadsFit records × All ReadIsTyped records
unfolding decode_read_requests check_read_requests reference
bytes-decode_read_requests [] records hb h = absurd (cc)
bytes-decode_read_requests (n ∷ s) records hb h =
    ground (arith, length-drop n s, take-all n s, run_all-items read_item s records hb.1)

pub bytes-decode_write_records :
    (s : Input) (records : List FileRecordWrite)
    → All IsByte s
    → decode_write_records reference s ≡ ok (records, [])
    → (s ≡ counted (all_bytes write_bytes records)) × WritesFit records × All WriteIsTyped records
unfolding decode_write_records check_bounds reference
bytes-decode_write_records [] records hb h = absurd (cc)
bytes-decode_write_records (n ∷ s) records hb h =
    ground (arith, length-drop n s, take-all n s, run_all-items write_item s records hb.1)
