-- ===== src/Frame/File/ReadResponses.antt =====
-- The records of a file read response: their bytes, and that the parser and the encoder agree.
use rust_modbus.Prelude.{
  ℕ, ◌+◌, ◌-◌, ◌*◌, ◌≤◌, ◌<◌, ◌≡◌, List, [], ◌∷◌, ◌++◌, arith, length, take, All, length-append,
  take-append-drop, length-take, length-drop, take-length-append, drop-length-append, All-take, ok,
  take-all, drop-all,
}
use rust_modbus.Buffer.{◌>>=◌}
use rust_modbus.Parse.Region.{IsItem, all_bytes, run_all-all_bytes, run_all-items}
use rust_modbus.Parse.Reference.{reference}
use rust_modbus.Parse.Stream.{Input}
use rust_modbus.Frame.Bytes.{IsByte, IsU16}
use rust_modbus.Frame.Pdu.Limits.{check_bounds}
use rust_modbus.Frame.Pdu.Words.{
  words_bytes, words_from_bytes, length-words_bytes, words_from_bytes-words_bytes,
  words_bytes-words_from_bytes, words_from_bytes-IsU16, registers-eq-words, push_registers_lem,
}
use rust_modbus.Frame.File.{FileRecordReadResponse, parse_read_response, decode_read_responses}
use rust_modbus.Frame.File.Encode.{encode_read_response, encode_read_responses_into}
use rust_modbus.Frame.File.Encode.Relative.{encode_read_response-IsRelative}
use rust_modbus.Frame.File.Encode.Body.{body-writes, body-checks}
use rust_modbus.Frame.File.RoundTrip.{counted}

abbrev pub response_bytes : FileRecordReadResponse → List ℕ
response_bytes r = (length r.values * 2 + 1) ∷ 6 ∷ words_bytes r.values

abbrev pub ResponseFits : FileRecordReadResponse → Type 0
ResponseFits r = length r.values * 2 + 1 < 256

abbrev pub ResponseIsTyped : FileRecordReadResponse → Type 0
ResponseIsTyped r = All IsU16 r.values

response_writes :
    (r : FileRecordReadResponse)
    → ResponseFits r
    → encode_read_response r [] ≡ (ok tt, response_bytes r)
unfolding encode_read_response ◌>>=◌
response_writes r h =
    ground (arith, push_registers_lem r.values ((length r.values * 2 + 1) ∷ 6 ∷ []))

response_checks :
    (r : FileRecordReadResponse) → (encode_read_response r []).0 ≡ ok tt → ResponseFits r
unfolding encode_read_response ◌>>=◌
response_checks r h = ground arith

response_parses :
    (r : FileRecordReadResponse) (s : Input)
    → ResponseFits r
    → ResponseIsTyped r
    → parse_read_response reference (response_bytes r ++ s) ≡ ok (r, s)
unfolding parse_read_response reference
response_parses r s h t = ground (
  arith,
  length-words_bytes r.values,
  length-append {0} (words_bytes r.values) s,
  take-length-append (words_bytes r.values) s,
  drop-length-append (words_bytes r.values) s,
  registers-eq-words (words_bytes r.values),
  words_from_bytes-words_bytes r.values t,
)

response_parsed :
    (s : Input) (r : FileRecordReadResponse) (s' : Input)
    → All IsByte s
    → parse_read_response reference s ≡ ok (r, s')
    → (s ≡ response_bytes r ++ s') × ResponseFits r × ResponseIsTyped r
unfolding parse_read_response reference
response_parsed (n ∷ x ∷ s) r s' hb h = ground (
  arith,
  length-take (n - 1) s,
  registers-eq-words (take (n - 1) s),
  length-words_bytes (words_from_bytes (take (n - 1) s)),
  words_bytes-words_from_bytes (take (n - 1) s) (All-take IsByte (n - 1) s (ground arith)),
  take-append-drop (n - 1) s,
  words_from_bytes-IsU16 (take (n - 1) s) (All-take IsByte (n - 1) s (ground arith)),
)
response_parsed _ r s' hb h = absurd (ground arith)

pub response_item :
    IsItem
      (parse_read_response reference)
      encode_read_response
      response_bytes
      ResponseFits
      ResponseIsTyped
response_item = record {
  relative = encode_read_response-IsRelative;
  writes = response_writes;
  checks = response_checks;
  parses = response_parses;
  parsed = response_parsed;
  takes = λ r. omega arith;
}

abbrev pub ResponsesFit : List FileRecordReadResponse → Type 0
ResponsesFit records =
    All ResponseFits records
    × (7 ≤ length (all_bytes response_bytes records))
    × (length (all_bytes response_bytes records) ≤ 245)

pub encode_read_responses_into-bytes :
    (records : List FileRecordReadResponse)
    → ResponsesFit records
    → encode_read_responses_into records [] ≡ (ok tt, counted (all_bytes response_bytes records))
unfolding encode_read_responses_into
encode_read_responses_into-bytes records (h, l, u) =
    body-writes response_item "response data length" 7 245 records h l u (omega arith)

pub encode_read_responses_into-fits :
    (records : List FileRecordReadResponse)
    → (encode_read_responses_into records []).0 ≡ ok tt
    → ResponsesFit records
unfolding encode_read_responses_into
encode_read_responses_into-fits records h =
    body-checks response_item "response data length" 7 245 records (omega arith) h

pub decode_read_responses-bytes :
    (records : List FileRecordReadResponse)
    → ResponsesFit records
    → All ResponseIsTyped records
    → decode_read_responses reference (counted (all_bytes response_bytes records))
      ≡ ok (records, [])
unfolding decode_read_responses check_bounds reference
decode_read_responses-bytes records (h, l, u) t =
    let bytes = all_bytes response_bytes records in
    ground (
      arith,
      take-all (length bytes) bytes (omega arith),
      drop-all (length bytes) bytes (omega arith),
      run_all-all_bytes response_item records h t,
    )

pub bytes-decode_read_responses :
    (s : Input) (records : List FileRecordReadResponse)
    → All IsByte s
    → decode_read_responses reference s ≡ ok (records, [])
    → (s ≡ counted (all_bytes response_bytes records))
      × ResponsesFit records
      × All ResponseIsTyped records
unfolding decode_read_responses check_bounds reference
bytes-decode_read_responses [] records hb h = absurd (cc)
bytes-decode_read_responses (n ∷ s) records hb h =
    ground (arith, length-drop n s, take-all n s, run_all-items response_item s records hb.1)
