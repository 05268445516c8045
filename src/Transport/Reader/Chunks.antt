-- ===== src/Transport/Reader/Chunks.antt =====
-- A stream cut anywhere: an ADU with its length in front (`read_prefixed` of src/transport/mod.rs).
use rust_modbus.Prelude.{
  ℕ, zero, suc, ◌≤◌, ◌≡◌, refl, sym, ap, ◌∙◌, subst, inl, inr, false, some, List, [], ◌∷◌, ◌++◌,
  append-nil, append_assoc, arith, ltb, Bool-cases, length, take, drop, length-append,
  take-length-append, drop-length-append, ok,
}
use rust_modbus.Error.{Result}
use rust_modbus.Transport.Reader.Fill.{
  Read, chunk, failed, elapsed, Reading, is_empty, cut, fill, fill_to, then_read, read_total,
  read_prefixed,
}

-- The bytes that the reads bring.
unfoldable pub content : List Read → List ℕ
content [] = []
content (chunk bytes ∷ reads) = bytes ++ content reads
content (failed error ∷ reads) = content reads
content (elapsed ∷ reads) = content reads

-- Every read brings bytes, or takes its time.
unfoldable pub AreFlowing : List Read → Type 0
AreFlowing [] = Unit
AreFlowing (chunk bytes ∷ reads) = (is_empty bytes ≡ false) × AreFlowing reads
AreFlowing (failed error ∷ reads) = ⊥
AreFlowing (elapsed ∷ reads) = AreFlowing reads

-- A function of the reader returned this, and left these bytes, in the buffer or yet to be read.
unfoldable pub Leaves : {A : Type 0} → A → List ℕ → Reading A → Type 0
unfolding AreFlowing content
Leaves a bytes reading =
    (reading.result ≡ some (ok a))
    × (reading.buffer ++ content reading.reads ≡ bytes)
    × AreFlowing reading.reads

-- The buffer has grown to the length that was asked for, over the same bytes.
fill-filled :
    (len : ℕ) (buffer : List ℕ) (reads : List Read)
    → AreFlowing reads
    → len ≤ length (buffer ++ content reads)
    → Leaves tt (buffer ++ content reads) (fill len buffer reads)
      × (len ≤ length (fill len buffer reads).buffer)
unfolding fill content AreFlowing Leaves
fill-filled len buffer [] h enough =
    let size = ap length (append-nil buffer) in
    let full : ltb (length buffer) len ≡ false = ground arith in
    rw full ((refl, refl, tt), ground arith)
fill-filled len buffer (chunk bytes ∷ reads) (h, hs) enough =
    elim (Bool-cases (ltb (length buffer) len)) [
      | inl e ↦
          let all : (buffer ++ bytes) ++ content reads ≡ buffer ++ (bytes ++ content reads) =
            append_assoc buffer bytes (content reads) in
          let again =
            fill-filled len (buffer ++ bytes) reads hs
              (subst (λ (bs : List ℕ). len ≤ length bs) (sym all) enough) in
          rw (e, h)
            (subst
              (λ (bs : List ℕ).
                Leaves tt bs (fill len (buffer ++ bytes) reads)
                × (len ≤ length (fill len (buffer ++ bytes) reads).buffer))
              all again)
      | inr e ↦ rw e ((refl, refl, (h, hs)), ground arith)
    ]
fill-filled len buffer (elapsed ∷ reads) h enough = elim (Bool-cases (ltb (length buffer) len)) [
  | inl e ↦ rw e (fill-filled len buffer reads h enough)
  | inr e ↦ rw e ((refl, refl, h), ground arith)
]
fill-filled len buffer (failed error ∷ reads) h enough = absurd h

fill_to-filled :
    (max_adu_len len : ℕ) (buffer : List ℕ) (reads : List Read) (bytes : List ℕ)
    → AreFlowing reads
    → buffer ++ content reads ≡ bytes
    → len ≤ length bytes
    → len ≤ max_adu_len
    → Leaves tt bytes (fill_to max_adu_len len buffer reads)
      × (len ≤ length (fill_to max_adu_len len buffer reads).buffer)
unfolding fill_to
fill_to-filled max_adu_len len buffer reads bytes h all enough small =
    let fits : ltb max_adu_len len ≡ false = ground arith in
    rw (fits, sym all)
      (fill-filled len buffer reads h (subst (λ (bs : List ℕ). len ≤ length bs) (sym all) enough))

take-front : (n : ℕ) (xs ys : List ℕ) → n ≤ length xs → take n (xs ++ ys) ≡ take n xs
take-front zero xs ys h = refl
take-front (suc n) [] ys h = absurd (omega arith)
take-front (suc n) (x ∷ xs) ys h = ap (λ l. x ∷ l) (take-front n xs ys (omega arith))

drop-front : (n : ℕ) (xs ys : List ℕ) → n ≤ length xs → drop n (xs ++ ys) ≡ drop n xs ++ ys
drop-front zero xs ys h = refl
drop-front (suc n) [] ys h = absurd (omega arith)
drop-front (suc n) (x ∷ xs) ys h = drop-front n xs ys (omega arith)

-- What is cut off a buffer that holds the whole ADU.
cut-adu :
    (adu more buffer : List ℕ) (reads : List Read)
    → AreFlowing reads
    → buffer ++ content reads ≡ adu ++ more
    → length adu ≤ length buffer
    → Leaves adu more (cut (length adu) buffer reads)
unfolding cut Leaves
cut-adu adu more buffer reads h all enough =
    let whole : ltb (length buffer) (length adu) ≡ false = ground arith in
    let front : take (length adu) buffer ≡ adu =
      sym (take-front (length adu) buffer (content reads) enough)
      ∙ ap (take (length adu)) all
      ∙ take-length-append adu more in
    let back : drop (length adu) buffer ++ content reads ≡ more =
      sym (drop-front (length adu) buffer (content reads) enough)
      ∙ ap (drop (length adu)) all
      ∙ drop-length-append adu more in
    rw whole (ap (λ (bs : List ℕ). some (ok bs)) front, back, h)

then_read-Leaves :
    {A B : Type 0} (a : A) (b : B) (bytes left : List ℕ) (reading : Reading A)
    (next : A → List ℕ → List Read → Reading B)
    → Leaves a bytes reading
    → (reading.buffer ++ content reading.reads ≡ bytes
        → AreFlowing reading.reads
        → Leaves b left (next a reading.buffer reading.reads))
    → Leaves b left (then_read reading next)
unfolding then_read Leaves
then_read-Leaves a b bytes left reading next (e, all, h) k = rw (e, then_read) (k all h)

read_total-Leaves :
    (max_adu_len : ℕ) (adu more buffer : List ℕ) (reads : List Read)
    → AreFlowing reads
    → buffer ++ content reads ≡ adu ++ more
    → length adu ≤ max_adu_len
    → Leaves adu more (read_total max_adu_len (ok (length adu)) buffer reads)
unfolding read_total
read_total-Leaves max_adu_len adu more buffer reads h all small =
    let long : length adu ≤ length (adu ++ more) = omega (arith, length-append adu more) in
    let (filled, enough) =
      fill_to-filled max_adu_len (length adu) buffer reads (adu ++ more) h all long small in
    then_read-Leaves tt adu (adu ++ more) more (fill_to max_adu_len (length adu) buffer reads)
      (λ done buffer reads. cut (length adu) buffer reads) filled
      (λ all h.
        cut-adu adu more (fill_to max_adu_len (length adu) buffer reads).buffer
          (fill_to max_adu_len (length adu) buffer reads).reads h all enough)

-- Where a stream holds an ADU and more behind it, the ADU not longer than the limit and its length
-- told by its first bytes, the reader returns that ADU, however the stream is cut into reads and
-- whatever part of it is already buffered; what is behind it stays, in the buffer and the reads
-- to come.
pub read_prefixed-chunks :
    (max_adu_len prefix : ℕ) (total : List ℕ → Result ℕ) (adu more buffer : List ℕ)
    (reads : List Read)
    → AreFlowing reads
    → buffer ++ content reads ≡ adu ++ more
    → prefix ≤ length adu
    → length adu ≤ max_adu_len
    → total (take prefix adu) ≡ ok (length adu)
    → Leaves adu more (read_prefixed max_adu_len prefix total buffer reads)
unfolding read_prefixed
read_prefixed-chunks max_adu_len prefix total adu more buffer reads h all long small told =
    let first : Reading (Unit {0}) = fill_to max_adu_len prefix buffer reads in
    let (filled, enough) =
      fill_to-filled max_adu_len prefix buffer reads (adu ++ more) h all
        (omega (arith, length-append adu more)) (omega arith) in
    then_read-Leaves tt adu (adu ++ more) more first
      (λ done buffer reads. read_total max_adu_len (total (take prefix buffer)) buffer reads) filled
      (λ all h.
        let head : take prefix first.buffer ≡ take prefix adu =
          sym (take-front prefix first.buffer (content first.reads) enough)
          ∙ ap (take prefix) all
          ∙ take-front prefix adu more long in
        subst
          (λ (len : Result ℕ).
            Leaves adu more (read_total max_adu_len len first.buffer first.reads))
          (sym (ap total head ∙ told))
          (read_total-Leaves max_adu_len adu more first.buffer first.reads h all small))
