-- ===== src/Frame/File/Items.antt =====
-- Each kind of file record: its bytes, and that its parser and its encoder agree on them.
use rust_modbus.Prelude.{
  ℕ, ◌+◌, ◌*◌, ◌≤◌, ◌<◌, ◌≡◌, List, [], ◌∷◌, ◌++◌, arith, length, take, All, length-append,
  take-append-drop, length-take, take-length-append, drop-length-append, All-take, ok,
}
use rust_modbus.Buffer.{◌>>=◌}
use rust_modbus.Parse.Region.{IsItem}
use rust_modbus.Parse.Reference.{reference}
use rust_modbus.Parse.Stream.{Input}
use rust_modbus.Frame.Bytes.{IsByte, IsU16, be_bytes}
use rust_modbus.Frame.Pdu.Words.{
  words_bytes, length-words_bytes, words_from_bytes-words_bytes, words_bytes-words_from_bytes,
  words_from_bytes-IsU16, registers-eq-words, push_registers_lem,
}
use rust_modbus.Frame.File.{FileRecordRead, FileRecordWrite, check_numbers, parse_read, parse_write}
use rust_modbus.Frame.File.Encode.{encode_read, encode_write}
use rust_modbus.Frame.File.Encode.Relative.{encode_read-IsRelative, encode_write-IsRelative}

abbrev pub AreNumbers : ℕ → ℕ → Type 0
AreNumbers file_number record_number =
    (1 ≤ file_number) × (file_number ≤ 65535) × (record_number ≤ 9999)

abbrev pub read_bytes : FileRecordRead → List ℕ
read_bytes r = 6 ∷ be_bytes r.file_number ++ (be_bytes r.record_number ++ be_bytes r.record_length)

abbrev pub ReadFits : FileRecordRead → Type 0
ReadFits r = AreNumbers r.file_number r.record_number

abbrev pub ReadIsTyped : FileRecordRead → Type 0
ReadIsTyped r = IsU16 r.record_length

read_writes : (r : FileRecordRead) → ReadFits r → encode_read r [] ≡ (ok tt, read_bytes r)
unfolding encode_read check_numbers ◌>>=◌
read_writes r h = ground arith

read_checks : (r : FileRecordRead) → (encode_read r []).0 ≡ ok tt → ReadFits r
unfolding encode_read check_numbers ◌>>=◌
read_checks r h = ground arith

read_parses :
    (r : FileRecordRead) (s : Input)
    → ReadFits r
    → ReadIsTyped r
    → parse_read reference (read_bytes r ++ s) ≡ ok (r, s)
unfolding parse_read reference
read_parses r s h t = ground arith

read_parsed :
    (s : Input) (r : FileRecordRead) (s' : Input)
    → All IsByte s
    → parse_read reference s ≡ ok (r, s')
    → (s ≡ read_bytes r ++ s') × ReadFits r × ReadIsTyped r
unfolding parse_read reference
read_parsed (x ∷ a ∷ b ∷ c ∷ d ∷ e ∷ f ∷ s) r s' hb h = ground arith
read_parsed _ r s' hb h = absurd (ground arith)

pub read_item : IsItem (parse_read reference) encode_read read_bytes ReadFits ReadIsTyped
read_item = record {
  relative = encode_read-IsRelative;
  writes = read_writes;
  checks = read_checks;
  parses = read_parses;
  parsed = read_parsed;
  takes = λ r. omega arith;
}

abbrev pub write_bytes : FileRecordWrite → List ℕ
write_bytes r =
    6 ∷ be_bytes r.file_number
    ++ (be_bytes r.record_number ++ (be_bytes (length r.values) ++ words_bytes r.values))

abbrev pub WriteFits : FileRecordWrite → Type 0
WriteFits r = AreNumbers r.file_number r.record_number × (length r.values < 65536)

abbrev pub WriteIsTyped : FileRecordWrite → Type 0
WriteIsTyped r = All IsU16 r.values

write_front : FileRecordWrite → List ℕ
write_front r =
    6 ∷ be_bytes r.file_number ++ (be_bytes r.record_number ++ be_bytes (length r.values))

write_writes : (r : FileRecordWrite) → WriteFits r → encode_write r [] ≡ (ok tt, write_bytes r)
unfolding encode_write check_numbers write_front ◌>>=◌
write_writes r h = ground (arith, push_registers_lem r.values (write_front r))

write_checks : (r : FileRecordWrite) → (encode_write r []).0 ≡ ok tt → WriteFits r
unfolding encode_write check_numbers write_front ◌>>=◌
write_checks r h = ground (arith, push_registers_lem r.values (write_front r))

write_parses :
    (r : FileRecordWrite) (s : Input)
    → WriteFits r
    → WriteIsTyped r
    → parse_write reference (write_bytes r ++ s) ≡ ok (r, s)
unfolding parse_write reference
write_parses r s h t = ground (
  arith,
  length-words_bytes r.values,
  length-append {0} (words_bytes r.values) s,
  take-length-append (words_bytes r.values) s,
  drop-length-append (words_bytes r.values) s,
  registers-eq-words (words_bytes r.values),
  words_from_bytes-words_bytes r.values t,
)

write_parsed :
    (s : Input) (r : FileRecordWrite) (s' : Input)
    → All IsByte s
    → parse_write reference s ≡ ok (r, s')
    → (s ≡ write_bytes r ++ s') × WriteFits r × WriteIsTyped r
unfolding parse_write reference
write_parsed (x ∷ a ∷ b ∷ c ∷ d ∷ e ∷ f ∷ s) r s' hb h =
    let n : ℕ = (e * 256 + f) * 2 in
    ground (
      arith,
      length-take n s,
      registers-eq-words (take n s),
      words_bytes-words_from_bytes (take n s) (All-take IsByte n s (ground arith)),
      take-append-drop n s,
      words_from_bytes-IsU16 (take n s) (All-take IsByte n s (ground arith)),
    )
write_parsed _ r s' hb h = absurd (ground arith)

pub write_item : IsItem (parse_write reference) encode_write write_bytes WriteFits WriteIsTyped
write_item = record {
  relative = encode_write-IsRelative;
  writes = write_writes;
  checks = write_checks;
  parses = write_parses;
  parsed = write_parsed;
  takes = λ r. omega arith;
}
