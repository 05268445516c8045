-- ===== src/Transport/Reader/Delimited.antt =====
-- ADUs between a start byte and a terminator (`read_delimited` and `find` of
-- src/transport/mod.rs).
use rust_modbus.Prelude.{
  ℕ, ◌+◌, ◌-◌, Bool, true, false, not, ◌&&◌, Option, none, some, List, [], ◌∷◌, ◌++◌, ltb, ◌==◌,
  if◌then◌else◌, length, drop, err,
}
use rust_modbus.Error.{timeout}
use rust_modbus.Transport.Reader.Fill.{
  Read, chunk, failed, elapsed, Reading, returns, waits, end_of_stream, is_empty, cut, within,
}

-- An offset further on.
abbrev pub shifted : ℕ → Option ℕ → Option ℕ
shifted by none = none
shifted by (some offset) = some (offset + by)

-- `position` of a byte, and `find`.
unfoldable pub position : ℕ → List ℕ → Option ℕ
position byte [] = none
position byte (b ∷ bytes) = if b == byte then some 0 else shifted 1 (position byte bytes)

unfoldable pub starts_with : (needle haystack : List ℕ) → Bool
starts_with [] haystack = true
starts_with (b ∷ needle) [] = false
starts_with (b ∷ needle) (h ∷ haystack) = b == h && starts_with needle haystack

unfoldable pub window : (needle haystack : List ℕ) → Option ℕ
unfolding starts_with
window needle [] = none
window needle (h ∷ haystack) =
    if starts_with needle (h ∷ haystack) then some 0 else shifted 1 (window needle haystack)

unfoldable pub find : (haystack needle : List ℕ) → ℕ → Option ℕ
unfolding window
find haystack needle from =
    if ltb (length haystack) from then none else shifted from (window needle (drop from haystack))

-- One search of `read_delimited`: what is left of the buffer, from where to search the next time,
-- and where the terminator is.
unfoldable pub seek : ℕ → List ℕ → List ℕ → ℕ → List ℕ × ℕ × Option ℕ
unfolding position find
seek start end buffer searched = elim (position start buffer) [
  | none ↦ ([], 0, none)
  | some offset ↦
      let kept = drop offset buffer in
      let from = if ltb 0 offset then 0 else searched in
      (kept, length kept - (length end - 1), find kept end from)
]

-- A search that found the terminator, or the rest of the pass.
unfoldable pub found : List ℕ → Option ℕ → List ℕ → List Read → Reading (List ℕ) → Reading (List ℕ)
unfolding cut
found end (some at) buffer reads rest = cut (at + length end) buffer reads
found end none buffer reads rest = rest

module _ (max_adu_len start : ℕ) (end : List ℕ) where
  unfoldable pub read_delimited : ℕ → List ℕ → List Read → Reading (List ℕ)
  unfolding seek found within end_of_stream
  read_delimited searched buffer [] =
      let (kept, from, at) = seek start end buffer searched in
      found end at kept [] (within max_adu_len kept [] (waits kept))
  read_delimited searched buffer (chunk bytes ∷ reads) =
      let (kept, from, at) = seek start end buffer searched in
      let rest = read_delimited from (kept ++ bytes) reads in
      let grown =
        if is_empty bytes
        then returns (err (end_of_stream (not (is_empty kept)))) kept reads
        else rest in
      found end at kept (chunk bytes ∷ reads) (within max_adu_len kept (chunk bytes ∷ reads) grown)
  read_delimited searched buffer (failed error ∷ reads) =
      let (kept, from, at) = seek start end buffer searched in
      found end at kept (failed error ∷ reads)
        (within max_adu_len kept (failed error ∷ reads) (returns (err error) kept reads))
  read_delimited searched buffer (elapsed ∷ reads) =
      let (kept, from, at) = seek start end buffer searched in
      let rest = read_delimited from kept reads in
      let waited =
        if is_empty kept
        then rest
        else returns (err (timeout "ascii inter-character")) kept reads in
      found end at kept (elapsed ∷ reads) (within max_adu_len kept (elapsed ∷ reads) waited)
