-- ===== src/Transport/Reader/Silence.antt =====
-- ADUs that silence ends (`read_until_silence` of src/transport/mod.rs).
use rust_modbus.Prelude.{ℕ, false, List, [], ◌∷◌, ◌++◌, if◌then◌else◌, length, err}
use rust_modbus.Error.{connection_closed}
use rust_modbus.Transport.Reader.Fill.{
  Read, chunk, failed, elapsed, Reading, returns, waits, end_of_stream, is_empty, cut, within,
}

-- `read_until_silence`
unfoldable pub read_until_silence : (max_adu_len : ℕ) → List ℕ → List Read → Reading (List ℕ)
unfolding within end_of_stream cut
read_until_silence max_adu_len buffer [] =
    if is_empty buffer then waits buffer else within max_adu_len buffer [] (waits buffer)
read_until_silence max_adu_len buffer (chunk bytes ∷ reads) =
    let rest = read_until_silence max_adu_len (buffer ++ bytes) reads in
    if is_empty buffer
    then (if is_empty bytes then returns (err (end_of_stream false)) buffer reads else rest)
    else within max_adu_len buffer (chunk bytes ∷ reads)
        (if is_empty bytes then cut (length buffer) buffer reads else rest)
read_until_silence max_adu_len buffer (failed connection_closed ∷ reads) =
    if is_empty buffer
    then returns (err connection_closed) buffer reads
    else within max_adu_len buffer (failed connection_closed ∷ reads)
        (cut (length buffer) buffer reads)
read_until_silence max_adu_len buffer (failed error ∷ reads) =
    if is_empty buffer
    then returns (err error) buffer reads
    else within max_adu_len buffer (failed error ∷ reads) (returns (err error) buffer reads)
read_until_silence max_adu_len buffer (elapsed ∷ reads) =
    let rest = read_until_silence max_adu_len buffer reads in
    if is_empty buffer
    then rest
    else within max_adu_len buffer (elapsed ∷ reads) (cut (length buffer) buffer reads)
