-- ===== src/Frame/Rtu/Extent.antt =====
-- The extent of an ADU in a byte stream (src/frame/rtu.rs).
use rust_modbus.Prelude.{
  ℕ, zero, suc, ◌+◌, ◌*◌, bit_and, not, ◌&&◌, ◌||◌, Option, none, some, List, ltb, leb, ◌==◌,
  if◌then◌else◌, length, get_or, ok, err, and_then,
}
use rust_modbus.Error.{Result, indeterminate_length, adu_too_large}
use rust_modbus.Frame.Framing.{Direction, request, response, Extent, need_more, complete}
use rust_modbus.Frame.Rtu.Split.{max_adu_len}

abbrev address_len : ℕ
address_len = 1

abbrev crc_len : ℕ
crc_len = 2

abbrev at : List ℕ → ℕ → ℕ
at bytes i = get_or bytes i 0

-- `if bytes.len() < needed { return Ok(Extent::NeedMore) }` in front of a length: `none`.
abbrev with_bytes : ℕ → List ℕ → ℕ → Result (Option ℕ)
with_bytes needed bytes length_ = if ltb (length bytes) needed then ok none else ok (some length_)

-- The length of the PDU of a request, `none` where more bytes are needed.
abbrev mei_pdu_len : List ℕ → Result (Option ℕ)
mei_pdu_len bytes =
    if ltb (length bytes) 3
    then ok none
    else if at bytes 2 == 14
    then ok (some 4)
    else err (indeterminate_length 43)

unfoldable request_pdu_len : ℕ → List ℕ → Result (Option ℕ)
request_pdu_len fc bytes =
    if leb 1 fc && leb fc 6
    then ok (some 5)
    else if fc == 7 || fc == 11 || fc == 12 || fc == 17
    then ok (some 1)
    else if fc == 22
    then ok (some 7)
    else if fc == 24
    then ok (some 3)
    else if fc == 15 || fc == 16
    then with_bytes 8 bytes (6 + at bytes 6)
    else if fc == 20 || fc == 21
    then with_bytes 4 bytes (2 + at bytes 2)
    else if fc == 23
    then with_bytes 11 bytes (10 + at bytes 10)
    else if fc == 43
    then mei_pdu_len bytes
    else err (indeterminate_length fc)

-- The length of the PDU of a response, but for the objects of function 43.
unfoldable response_pdu_len : ℕ → List ℕ → Result (Option ℕ)
response_pdu_len fc bytes =
    if fc == 5 || fc == 6 || fc == 15 || fc == 16 || fc == 11
    then ok (some 5)
    else if fc == 7
    then ok (some 2)
    else if fc == 22
    then ok (some 7)
    else if leb 1 fc && leb fc 4 || fc == 12 || fc == 17 || fc == 20 || fc == 21 || fc == 23
    then with_bytes 4 bytes (2 + at bytes 2)
    else if fc == 24
    then with_bytes 5 bytes (3 + (at bytes 2 * 256 + at bytes 3))
    else err (indeterminate_length fc)

-- The end of both derivations: the bound on the ADU, and whether it is there as a whole.
unfoldable pub total_extent : List ℕ → ℕ → Result Extent
total_extent bytes pdu_len =
    let total_len = address_len + pdu_len + crc_len in
    if ltb max_adu_len total_len
    then err (adu_too_large total_len max_adu_len)
    else if ltb (length bytes) total_len
    then ok need_more
    else ok (complete total_len)

-- The walk over the objects, `none` where more bytes are needed.
unfoldable walk_objects : ℕ → ℕ → List ℕ → Option ℕ
walk_objects zero pdu_offset bytes = some pdu_offset
walk_objects (suc count) pdu_offset bytes =
    let rest =
      walk_objects count (pdu_offset + (2 + at bytes (address_len + pdu_offset + 1))) bytes in
    if ltb (length bytes) (address_len + pdu_offset + 2) then none else rest

abbrev header_pdu_bytes : ℕ
header_pdu_bytes = 7

unfoldable pub derive_fc43_mei14_response_length : List ℕ → Result Extent
unfolding walk_objects total_extent
derive_fc43_mei14_response_length bytes =
    if ltb (length bytes) (address_len + header_pdu_bytes + crc_len)
    then ok need_more
    else elim (walk_objects (at bytes (address_len + 6)) header_pdu_bytes bytes) [
      | none ↦ ok need_more
      | some pdu_offset ↦ total_extent bytes pdu_offset
    ]

abbrev from_pdu_len : List ℕ → Result (Option ℕ) → Result Extent
from_pdu_len bytes r =
    and_then r (λ o. elim o [ none ↦ ok need_more | some pdu_len ↦ total_extent bytes pdu_len ])

unfoldable mei_response_extent : List ℕ → Result Extent
unfolding derive_fc43_mei14_response_length
mei_response_extent bytes =
    if ltb (length bytes) 3
    then ok need_more
    else if at bytes 2 == 14
    then derive_fc43_mei14_response_length bytes
    else err (indeterminate_length 43)

unfoldable response_extent : ℕ → List ℕ → Result Extent
unfolding response_pdu_len mei_response_extent
response_extent fc bytes =
    if fc == 43 then mei_response_extent bytes else from_pdu_len bytes (response_pdu_len fc bytes)

unfoldable pub derive_extent : Direction → List ℕ → Result Extent
unfolding request_pdu_len response_extent total_extent
derive_extent direction bytes =
    let fc = at bytes 1 in
    if ltb (length bytes) 4
    then ok need_more
    else if not (bit_and fc 128 == 0)
    then total_extent bytes 2
    else elim direction [
      | request ↦ from_pdu_len bytes (request_pdu_len fc bytes)
      | response ↦ response_extent fc bytes
    ]
