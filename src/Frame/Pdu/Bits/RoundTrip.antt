-- ===== src/Frame/Pdu/Bits/RoundTrip.antt =====
-- Packing and unpacking whole bit lists.
use rust_modbus.Prelude.{
  ℕ, zero, suc, ◌+◌, ◌-◌, ◌*◌, ◌/◌, ◌%◌, ◌≤◌, ◌<◌, ◌≡◌, refl, sym, ap, ap₂, ◌∙◌, Bool, false, List,
  [], ◌∷◌, ◌++◌, append-nil, append_assoc, arith, length, take, drop, All, length-take,
  take-length-append, drop-length-append, ok, and_then, take-all,
}
use rust_modbus.Buffer.{owned}
use rust_modbus.Buffer.{◌>>=◌}
use rust_modbus.Buffer.Relative.{IsRelative, relative_rules, bind-IsRelative, push-IsRelative}
use rust_modbus.Frame.Bytes.{IsByte}
use rust_modbus.Frame.Pdu.Bits.{
  byte_bits, bits_from_bytes, any_set, packed_bits, chunk_byte, chunks, push_chunks, push_bits,
  packed_len,
}
use rust_modbus.Frame.Pdu.Bits.Chunk.{padding, byte_bits-chunk_byte, chunk_byte-byte_bits}

pack_chunks : List (List Bool) → List ℕ
pack_chunks [] = []
pack_chunks (chunk ∷ rest) = chunk_byte chunk ∷ pack_chunks rest

-- The bytes that a bit list packs into.
unfoldable pub pack : List Bool → List ℕ
unfolding pack_chunks chunks
pack bits = pack_chunks (chunks bits)

push_chunks_lem :
    (l : List (List Bool)) (out : List ℕ) → push_chunks l out ≡ (ok tt, out ++ pack_chunks l)
unfolding push_chunks pack_chunks ◌>>=◌
push_chunks_lem [] out = ap (λ (o : List ℕ). (ok tt, o)) (sym (append-nil out))
push_chunks_lem (chunk ∷ rest) out =
    push_chunks_lem rest _
    ∙ ap (λ (o : List ℕ). (ok tt, o)) (append_assoc out (chunk_byte chunk ∷ []) _)

pub push_bits_lem : (l : List Bool) (out : List ℕ) → push_bits l out ≡ (ok tt, out ++ pack l)
unfolding push_bits pack
push_bits_lem l out = push_chunks_lem (chunks l) out

push_chunks-IsRelative : (l : List (List Bool)) → IsRelative (push_chunks l)
unfolding push_chunks
push_chunks-IsRelative [] = search relative_rules
push_chunks-IsRelative (chunk ∷ rest) =
    bind-IsRelative _ _ (push-IsRelative _) (λ _. push_chunks-IsRelative rest)

pub push_bits-IsRelative : (l : List Bool) → IsRelative (push_bits l)
unfolding push_bits
push_bits-IsRelative l = push_chunks-IsRelative (chunks l)

pub length-pack : (l : List Bool) → length (pack l) ≡ packed_len (length l)
unfolding pack packed_len
length-pack (a ∷ b ∷ c ∷ d ∷ e ∷ f ∷ g ∷ h ∷ rest) = omega (arith, length-pack rest)
length-pack [] = refl
length-pack short = refl

pub pack-IsByte : (l : List Bool) → All IsByte (pack l)
unfolding pack
pack-IsByte (a ∷ b ∷ c ∷ d ∷ e ∷ f ∷ g ∷ h ∷ rest) =
    ((byte_bits-chunk_byte (a ∷ b ∷ c ∷ d ∷ e ∷ f ∷ g ∷ h ∷ []) (omega arith)).1, pack-IsByte rest)
pack-IsByte [] = tt
pack-IsByte short = ((byte_bits-chunk_byte short (omega arith)).1, tt)

abbrev pub spare : ℕ → ℕ
spare n = 8 * ((n + 7) / 8) - n

pub bits-pack : (l : List Bool) → bits_from_bytes (pack l) ≡ l ++ padding (spare (length l))
unfolding pack bits_from_bytes
bits-pack (a ∷ b ∷ c ∷ d ∷ e ∷ f ∷ g ∷ h ∷ rest) =
    let n : ℕ = length rest in
    let same : spare (8 + n) ≡ spare n = omega arith in
    rw ((byte_bits-chunk_byte (a ∷ b ∷ c ∷ d ∷ e ∷ f ∷ g ∷ h ∷ []) (omega arith)).0, bits-pack rest)
      (ap (λ (k : ℕ). a ∷ b ∷ c ∷ d ∷ e ∷ f ∷ g ∷ h ∷ (rest ++ padding k)) (sym (omega arith)))
bits-pack [] = refl
bits-pack short = append-nil _ ∙ (byte_bits-chunk_byte short (omega arith)).0

any_set-padding : (n : ℕ) → any_set (padding n) ≡ false
unfolding any_set
any_set-padding zero = refl
any_set-padding (suc n) = any_set-padding n

-- Unpacking what was packed gives the bits back, for any number of them.
pub packed_bits-pack : (l : List Bool) → packed_bits (pack l) (length l) ≡ ok l
unfolding packed_bits
packed_bits-pack l = ground (
  arith,
  bits-pack l,
  drop-length-append l (padding (spare (length l))),
  take-length-append l (padding (spare (length l))),
  any_set-padding (spare (length l)),
)

-- A whole number of bytes has no padding at all.
pub bits-pack_whole : (l : List Bool) → length l % 8 ≡ 0 → bits_from_bytes (pack l) ≡ l
bits-pack_whole l h =
    let none_spare : spare (length l) ≡ 0 = omega arith in
    bits-pack l ∙ rw none_spare (append-nil l)

pub length-bits_from_bytes : (bytes : List ℕ) → length (bits_from_bytes bytes) ≡ 8 * length bytes
unfolding bits_from_bytes byte_bits
length-bits_from_bytes [] = refl
length-bits_from_bytes (b ∷ bytes) = omega (arith, length-bits_from_bytes bytes)

-- Packing the first `n` of the bits gives the bytes back if the bits behind are zero.
pack-take :
    (bytes : List ℕ) (n : ℕ)
    → All IsByte bytes
    → n ≤ 8 * length bytes
    → 8 * length bytes < n + 8
    → any_set (drop n (bits_from_bytes bytes)) ≡ false
    → pack (take n (bits_from_bytes bytes)) ≡ bytes
unfolding pack bits_from_bytes byte_bits any_set
pack-take [] zero hs lo hi z = refl
pack-take [] (suc n) hs lo hi z = absurd (omega arith)
pack-take (b ∷ bytes) zero hs lo hi z = absurd (omega arith)
pack-take (b ∷ bytes) (suc (suc (suc (suc (suc (suc (suc (suc n)))))))) (hb, hs) lo hi z =
    ap₂ (λ (x : ℕ) (l : List ℕ). x ∷ l) (chunk_byte-byte_bits 8 b (omega arith) hb refl)
      (pack-take bytes n hs (omega arith) (omega arith) z)
pack-take (b ∷ []) n (hb, hs) lo hi z =
    ap (λ (x : ℕ). x ∷ []) (chunk_byte-byte_bits n b (omega arith) hb z)
pack-take (b ∷ c ∷ bytes) n hs lo hi z = absurd (omega arith)

pub pack-packed_bits :
    (bytes : List ℕ) (n : ℕ) (l : List Bool)
    → All IsByte bytes
    → length bytes ≡ (n + 7) / 8
    → packed_bits bytes n ≡ ok l
    → (pack l ≡ bytes) × (length l ≡ n)
unfolding packed_bits
pack-packed_bits bytes n l hs e h = ground (
  arith,
  pack-take bytes n hs (omega arith) (omega arith),
  length-bits_from_bytes bytes,
  length-take n (bits_from_bytes bytes),
)

any_set-drop : (l : List Bool) → any_set (drop (length l) l) ≡ false
unfolding any_set
any_set-drop [] = refl
any_set-drop (b ∷ l) = any_set-drop l

pub pack-bits_from_bytes :
    (bytes : List ℕ) → All IsByte bytes → pack (bits_from_bytes bytes) ≡ bytes
pack-bits_from_bytes bytes hs =
    let l = bits_from_bytes bytes in
    let n : length l ≡ 8 * length bytes = length-bits_from_bytes bytes in
    rw (take-all (length l) l (omega arith)) at
      (pack-take bytes (length l) hs (omega arith) (omega arith) (any_set-drop l))

-- The bits that `push_bits` packs are read back by `packed_bits`, for a list of any length.
pub packed_bits-push_bits :
    (l : List Bool) → and_then (owned (push_bits l)) (λ bytes. packed_bits bytes (length l)) ≡ ok l
unfolding owned
packed_bits-push_bits l = rw (push_bits_lem l []) (packed_bits-pack l)
