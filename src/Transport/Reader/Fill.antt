-- ===== src/Transport/Reader/Fill.antt =====
-- What a byte stream does, read by read, and reading up to a length that is known (`read_more`,
-- `take`, `fill_to`, `check_buffer_bound` and `read_prefixed`, in src/transport/mod.rs). A read
-- that is not in the list is still to come.
use rust_modbus.Prelude.{
  ℕ, Bool, true, false, not, Option, none, some, List, [], ◌∷◌, ◌++◌, ltb, leb, ◌==◌, if◌then◌else◌,
  length, take, drop, ok, err, stuck,
}
use rust_modbus.Error.{Error, Result, io, connection_closed, adu_too_large}
use rust_modbus.Server.Exchange.{unexpected_eof}

-- A read returns bytes, none of them at the end of the stream, or fails. `elapsed` is a while in
-- which nothing comes, longer than the interval that the reader waits for, where it does.
pub data Read : Type 0 where
  chunk : List ℕ → Read
  failed : Error → Read
  elapsed : Read

-- How a function of the reader ends, with the buffer and the reads left: `none` when it waits for
-- more reads.
pub record Reading (A : Type 0) : Type 0 where
  pub result : Option (Result A)
  pub buffer : List ℕ
  pub reads : List Read

abbrev pub returns : {A : Type 0} → Result A → List ℕ → List Read → Reading A
returns result buffer reads = record { result = some result; buffer = buffer; reads = reads }

abbrev pub waits : {A : Type 0} → List ℕ → Reading A
waits buffer = record { result = none; buffer = buffer; reads = [] }

-- The error of `read_more` when a read returns nothing.
unfoldable pub end_of_stream : (mid_adu : Bool) → Error
end_of_stream true = connection_closed
end_of_stream false = io unexpected_eof none

abbrev pub is_empty : List ℕ → Bool
is_empty bytes = length bytes == 0

-- `take`, whose `drain` panics past the end of the buffer.
unfoldable pub cut : ℕ → List ℕ → List Read → Reading (List ℕ)
cut len buffer reads =
    if ltb (length buffer) len
    then returns stuck buffer reads
    else returns (ok (take len buffer)) (drop len buffer) reads

-- The loop of `fill_to`, without a timer.
unfoldable pub fill : ℕ → List ℕ → List Read → Reading (Unit {0})
unfolding end_of_stream
fill len buffer [] = if ltb (length buffer) len then waits buffer else returns (ok tt) buffer []
fill len buffer (chunk bytes ∷ reads) =
    let rest = fill len (buffer ++ bytes) reads in
    if ltb (length buffer) len
    then (if is_empty bytes
        then returns (err (end_of_stream (not (is_empty buffer)))) buffer reads
        else rest)
    else returns (ok tt) buffer (chunk bytes ∷ reads)
fill len buffer (failed error ∷ reads) =
    if ltb (length buffer) len
    then returns (err error) buffer reads
    else returns (ok tt) buffer (failed error ∷ reads)
fill len buffer (elapsed ∷ reads) =
    let rest = fill len buffer reads in
    if ltb (length buffer) len then rest else returns (ok tt) buffer (elapsed ∷ reads)

unfoldable pub fill_to : (max_adu_len : ℕ) → ℕ → List ℕ → List Read → Reading (Unit {0})
unfolding fill
fill_to max_adu_len len buffer reads =
    if ltb max_adu_len len
    then returns (err (adu_too_large len max_adu_len)) buffer reads
    else fill len buffer reads

-- What `?` passes on from a function of the reader.
unfoldable pub then_read :
    {A B : Type 0} → Reading A → (A → List ℕ → List Read → Reading B) → Reading B
then_read reading next = elim reading.result [
  | none ↦ waits reading.buffer
  | some (ok a) ↦ next a reading.buffer reading.reads
  | some (err error) ↦ returns (err error) reading.buffer reading.reads
  | some stuck ↦ returns stuck reading.buffer reading.reads
]

-- `read_prefixed` once the head is there, by what `total` made of it.
unfoldable pub read_total : (max_adu_len : ℕ) → Result ℕ → List ℕ → List Read → Reading (List ℕ)
unfolding fill_to then_read cut
read_total max_adu_len (ok len) buffer reads =
    then_read (fill_to max_adu_len len buffer reads) (λ done buffer reads. cut len buffer reads)
read_total max_adu_len (err error) buffer reads = returns (err error) buffer reads
read_total max_adu_len stuck buffer reads = returns stuck buffer reads

unfoldable pub read_prefixed :
    (max_adu_len : ℕ) → ℕ → (List ℕ → Result ℕ) → List ℕ → List Read → Reading (List ℕ)
unfolding fill_to then_read read_total
read_prefixed max_adu_len prefix total buffer reads =
    then_read (fill_to max_adu_len prefix buffer reads)
      (λ done buffer reads. read_total max_adu_len (total (take prefix buffer)) buffer reads)

-- The bound on the buffer, before the rest of a pass.
unfoldable pub within :
    {A : Type 0} → (max_adu_len : ℕ) → List ℕ → List Read → Reading A → Reading A
within max_adu_len buffer reads rest =
    if leb max_adu_len (length buffer)
    then returns (err (adu_too_large (length buffer) max_adu_len)) buffer reads
    else rest
