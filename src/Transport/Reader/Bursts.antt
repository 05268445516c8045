-- ===== src/Transport/Reader/Bursts.antt =====
-- A burst of reads and then silence (`read_until_silence` of src/transport/mod.rs).
use rust_modbus.Prelude.{
  ℕ, ◌≤◌, ◌<◌, ◌≡◌, refl, sym, ap, ◌∙◌, subst, inl, inr, true, false, some, List, [], ◌∷◌, ◌++◌,
  append-nil, append_assoc, arith, ltb, leb, Bool-cases, length, All, length-append, ok, err,
  take-all, drop-all,
}
use rust_modbus.Error.{Error, adu_too_large}
use rust_modbus.Transport.Reader.Fill.{
  Read, chunk, failed, elapsed, Reading, returns, is_empty, cut, within,
}
use rust_modbus.Transport.Reader.Silence.{read_until_silence}

unfoldable pub burst : List (List ℕ) → List Read → List Read
burst [] reads = elapsed ∷ reads
burst (bytes ∷ chunks) reads = chunk bytes ∷ burst chunks reads

unfoldable pub joined : List (List ℕ) → List ℕ
joined [] = []
joined (bytes ∷ chunks) = bytes ++ joined chunks

unfoldable pub BringsBytes : List ℕ → Type 0
BringsBytes bytes = is_empty bytes ≡ false

module _ (max_adu_len : ℕ) where
  silent-cut :
      (buffer : List ℕ) (reads : List Read)
      → 1 ≤ length buffer
      → length buffer < max_adu_len
      → read_until_silence max_adu_len buffer (elapsed ∷ reads) ≡ returns (ok buffer) [] reads
  unfolding read_until_silence within cut
  silent-cut buffer reads some_bytes short =
      let filled : is_empty buffer ≡ false = ground arith in
      let below : leb max_adu_len (length buffer) ≡ false = ground arith in
      let whole : ltb (length buffer) (length buffer) ≡ false = ground arith in
      rw
        (
          filled,
          below,
          whole,
          take-all (length buffer) buffer (omega arith),
          drop-all (length buffer) buffer (omega arith),
        )
        refl

  chunk-kept :
      (buffer bytes : List ℕ) (reads : List Read)
      → BringsBytes bytes
      → length buffer < max_adu_len
      → read_until_silence max_adu_len buffer (chunk bytes ∷ reads)
        ≡ read_until_silence max_adu_len (buffer ++ bytes) reads
  unfolding read_until_silence within BringsBytes
  chunk-kept buffer bytes reads brings short =
      let below : leb max_adu_len (length buffer) ≡ false = ground arith in
      elim (Bool-cases (is_empty buffer)) [
        | inl e ↦ rw (e, brings) refl
        | inr e ↦ rw (e, below, brings) refl
      ]

  -- Bytes that come in a burst, behind what is buffered and however they are cut into reads, are
  -- returned with it at the silence that follows as one ADU, and nothing of them stays, when they
  -- are fewer in all than the maximum ADU length.
  pub read_until_silence-burst :
      (chunks : List (List ℕ)) (buffer : List ℕ) (reads : List Read)
      → All BringsBytes chunks
      → 1 ≤ length (buffer ++ joined chunks)
      → length (buffer ++ joined chunks) < max_adu_len
      → read_until_silence max_adu_len buffer (burst chunks reads)
        ≡ returns (ok (buffer ++ joined chunks)) [] reads
  unfolding burst joined
  read_until_silence-burst [] buffer reads h some_bytes short =
      let whole = append-nil buffer in
      rw whole (
        silent-cut buffer reads (subst (λ (bs : List ℕ). 1 ≤ length bs) whole some_bytes)
          (subst (λ (bs : List ℕ). length bs < max_adu_len) whole short))
  read_until_silence-burst (bytes ∷ chunks) buffer reads (h, hs) some_bytes short =
      let all : (buffer ++ bytes) ++ joined chunks ≡ buffer ++ (bytes ++ joined chunks) =
        append_assoc buffer bytes (joined chunks) in
      chunk-kept buffer bytes (burst chunks reads) h
        (omega (arith, length-append buffer (bytes ++ joined chunks)))
      ∙ read_until_silence-burst chunks (buffer ++ bytes) reads hs
          (subst (λ (bs : List ℕ). 1 ≤ length bs) (sym all) some_bytes)
          (subst (λ (bs : List ℕ). length bs < max_adu_len) (sym all) short)
      ∙ ap (λ bs. returns (ok bs) [] reads) all

  -- The reading failed on a buffer that had reached the limit.
  unfoldable pub IsTooLarge : Reading (List ℕ) → Type 0
  IsTooLarge reading =
      (len : ℕ) × (reading.result ≡ some (err (adu_too_large len max_adu_len)))
      × (max_adu_len ≤ len)

  by_read :
      (buffer : List ℕ) (read : Read) (reads : List Read)
      → is_empty buffer ≡ false
      → leb max_adu_len (length buffer) ≡ true
      → max_adu_len ≤ length buffer
      → IsTooLarge (read_until_silence max_adu_len buffer (read ∷ reads))
  unfolding read_until_silence within IsTooLarge
  by_read buffer (chunk bytes) reads filled over long =
      rw (filled, over) (length buffer, refl, long)
  by_read buffer (failed Error.connection_closed) reads filled over long =
      rw (filled, over) (length buffer, refl, long)
  by_read buffer (failed error) reads filled over long =
      rw (filled, over) (length buffer, refl, long)
  by_read buffer elapsed reads filled over long = rw (filled, over) (length buffer, refl, long)

  over-limit :
      (buffer : List ℕ) (read : Read) (reads : List Read)
      → 1 ≤ max_adu_len
      → max_adu_len ≤ length buffer
      → IsTooLarge (read_until_silence max_adu_len buffer (read ∷ reads))
  over-limit buffer read reads limit long =
      let filled : is_empty buffer ≡ false = ground arith in
      let over : leb max_adu_len (length buffer) ≡ true = ground arith in
      by_read buffer read reads filled over long

  -- Bytes that come in a burst before silence, behind what is buffered and however they are cut
  -- into reads, are refused as too large when they are in all as many as the maximum ADU length,
  -- which is not 0, or more.
  pub read_until_silence-refused :
      (chunks : List (List ℕ)) (buffer : List ℕ) (reads : List Read)
      → All BringsBytes chunks
      → 1 ≤ max_adu_len
      → max_adu_len ≤ length (buffer ++ joined chunks)
      → IsTooLarge (read_until_silence max_adu_len buffer (burst chunks reads))
  unfolding burst joined
  read_until_silence-refused [] buffer reads h limit long =
      over-limit buffer elapsed reads limit
        (subst (λ (bs : List ℕ). max_adu_len ≤ length bs) (append-nil buffer) long)
  read_until_silence-refused (bytes ∷ chunks) buffer reads (h, hs) limit long =
      elim (Bool-cases (leb max_adu_len (length buffer))) [
        | inl e ↦ over-limit buffer (chunk bytes) (burst chunks reads) limit (ground arith)
        | inr e ↦
            let all : (buffer ++ bytes) ++ joined chunks ≡ buffer ++ (bytes ++ joined chunks) =
              append_assoc buffer bytes (joined chunks) in
            rw (chunk-kept buffer bytes (burst chunks reads) h (ground arith)) (
              read_until_silence-refused chunks (buffer ++ bytes) reads hs limit
                (subst (λ (bs : List ℕ). max_adu_len ≤ length bs) (sym all) long))
      ]
