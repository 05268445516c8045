-- ===== src/Transport/Reader/Content.antt =====
-- ADUs whose content tells their length (`read_content_length` of src/transport/mod.rs).
use rust_modbus.Prelude.{ℕ, true, List, [], ◌∷◌, ◌++◌, if◌then◌else◌, ok, err, stuck}
use rust_modbus.Error.{Result}
use rust_modbus.Frame.Framing.{Extent, need_more, complete}
use rust_modbus.Transport.Reader.Fill.{
  Read, chunk, failed, elapsed, Reading, returns, waits, end_of_stream, is_empty, cut, fill_to,
  then_read, within,
}

-- The loop of `read_content_length`: what `extent` makes of the buffer, and the rest of the pass.
unfoldable pub by_extent : Result Extent → List ℕ → List Read → Reading (List ℕ) → Reading (List ℕ)
unfolding cut
by_extent (ok (complete len)) buffer reads rest = cut len buffer reads
by_extent (ok need_more) buffer reads rest = rest
by_extent (err error) buffer reads rest = returns (err error) buffer reads
by_extent stuck buffer reads rest = returns stuck buffer reads

module _ (max_adu_len : ℕ) (extent : List ℕ → Result Extent) where
  unfoldable pub read_extent : List ℕ → List Read → Reading (List ℕ)
  unfolding by_extent within end_of_stream
  read_extent buffer [] =
      by_extent (extent buffer) buffer [] (within max_adu_len buffer [] (waits buffer))
  read_extent buffer (chunk bytes ∷ reads) =
      let rest = read_extent (buffer ++ bytes) reads in
      let grown =
        if is_empty bytes then returns (err (end_of_stream true)) buffer reads else rest in
      by_extent (extent buffer) buffer (chunk bytes ∷ reads)
        (within max_adu_len buffer (chunk bytes ∷ reads) grown)
  read_extent buffer (failed error ∷ reads) =
      by_extent (extent buffer) buffer (failed error ∷ reads)
        (within max_adu_len buffer (failed error ∷ reads) (returns (err error) buffer reads))
  read_extent buffer (elapsed ∷ reads) =
      let rest = read_extent buffer reads in
      by_extent (extent buffer) buffer (elapsed ∷ reads)
        (within max_adu_len buffer (elapsed ∷ reads) rest)

  unfoldable pub read_content_length : ℕ → List ℕ → List Read → Reading (List ℕ)
  unfolding fill_to then_read read_extent
  read_content_length min buffer reads =
      then_read (fill_to max_adu_len min buffer reads) (λ done. read_extent)
