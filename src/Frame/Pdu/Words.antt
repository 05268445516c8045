-- ===== src/Frame/Pdu/Words.antt =====
-- Big-endian 16-bit words in a PDU body (src/frame/pdu.rs).
use rust_modbus.Prelude.{
  ℕ, ◌+◌, ◌*◌, ◌/◌, ◌%◌, ◌≡◌, refl, sym, ap, ◌∙◌, List, [], ◌∷◌, ◌++◌, append-nil, append_assoc,
  arith, length, All, ok,
}
use rust_modbus.Buffer.{Writer, extend, lift, ◌>>=◌, ◌>>◌}
use rust_modbus.Buffer.Relative.{IsRelative, lift-IsRelative, bind-IsRelative, extend-IsRelative}
use rust_modbus.Frame.Bytes.{IsByte, IsU16, be_bytes}

-- `as_chunks::<2>()` leaves an odd byte at the end out.
unfoldable pub words_from_bytes : List ℕ → List ℕ
words_from_bytes [] = []
words_from_bytes (x ∷ []) = []
words_from_bytes (hi ∷ lo ∷ rest) = (hi * 256 + lo) ∷ words_from_bytes rest

-- The register form of the same function: a `RegisterValue` is its number.
unfoldable pub registers_from_bytes : List ℕ → List ℕ
unfolding words_from_bytes
registers_from_bytes [] = []
registers_from_bytes (x ∷ []) = []
registers_from_bytes (hi ∷ lo ∷ rest) = (hi * 256 + lo) ∷ registers_from_bytes rest

unfoldable pub push_words : List ℕ → Writer (Unit {0})
push_words [] = lift (ok tt)
push_words (word ∷ words) = do extend (be_bytes word); push_words words

unfoldable pub push_registers : List ℕ → Writer (Unit {0})
push_registers [] = lift (ok tt)
push_registers (register ∷ registers) = do extend (be_bytes register); push_registers registers

-- The bytes of the words, in order.
unfoldable pub words_bytes : List ℕ → List ℕ
words_bytes [] = []
words_bytes (word ∷ words) = (word / 256 % 256) ∷ (word % 256) ∷ words_bytes words

pub registers-eq-words : (bytes : List ℕ) → registers_from_bytes bytes ≡ words_from_bytes bytes
unfolding words_from_bytes registers_from_bytes
registers-eq-words [] = refl
registers-eq-words (x ∷ []) = refl
registers-eq-words (hi ∷ lo ∷ rest) =
    ap (λ (l : List ℕ). (hi * 256 + lo) ∷ l) (registers-eq-words rest)

pub push_words_lem : (words out : List ℕ) → push_words words out ≡ (ok tt, out ++ words_bytes words)
unfolding push_words words_bytes ◌>>=◌
push_words_lem [] out = ap (λ (o : List ℕ). (ok tt, o)) (sym (append-nil out))
push_words_lem (word ∷ words) out =
    push_words_lem words _ ∙ ap (λ (o : List ℕ). (ok tt, o)) (append_assoc out (be_bytes word) _)

pub push_registers_lem :
    (words out : List ℕ) → push_registers words out ≡ (ok tt, out ++ words_bytes words)
unfolding push_registers words_bytes ◌>>=◌
push_registers_lem [] out = ap (λ (o : List ℕ). (ok tt, o)) (sym (append-nil out))
push_registers_lem (word ∷ words) out =
    push_registers_lem words _
    ∙ ap (λ (o : List ℕ). (ok tt, o)) (append_assoc out (be_bytes word) _)

pub push_words-IsRelative : (words : List ℕ) → IsRelative (push_words words)
unfolding push_words
push_words-IsRelative [] = lift-IsRelative (ok tt)
push_words-IsRelative (word ∷ words) =
    bind-IsRelative _ _ (extend-IsRelative _) (λ _. push_words-IsRelative words)

pub push_registers-IsRelative : (words : List ℕ) → IsRelative (push_registers words)
unfolding push_registers
push_registers-IsRelative [] = lift-IsRelative (ok tt)
push_registers-IsRelative (word ∷ words) =
    bind-IsRelative _ _ (extend-IsRelative _) (λ _. push_registers-IsRelative words)

pub length-words_bytes : (words : List ℕ) → length (words_bytes words) ≡ 2 * length words
unfolding words_bytes
length-words_bytes [] = omega arith
length-words_bytes (word ∷ words) = omega (arith, length-words_bytes words)

pub words_bytes-IsByte : (words : List ℕ) → All IsByte (words_bytes words)
unfolding words_bytes
words_bytes-IsByte [] = tt
words_bytes-IsByte (word ∷ words) = (omega arith, (omega arith, words_bytes-IsByte words))

pub words_from_bytes-words_bytes :
    (words : List ℕ) → All IsU16 words → words_from_bytes (words_bytes words) ≡ words
unfolding words_from_bytes words_bytes
words_from_bytes-words_bytes [] h = refl
words_from_bytes-words_bytes (word ∷ words) (h, hs) =
    ground (arith, words_from_bytes-words_bytes words hs)

pub words_bytes-words_from_bytes :
    (bytes : List ℕ)
    → All IsByte bytes
    → length bytes % 2 ≡ 0
    → (words_bytes (words_from_bytes bytes) ≡ bytes)
      × All IsU16 (words_from_bytes bytes)
      × (2 * length (words_from_bytes bytes) ≡ length bytes)
unfolding words_from_bytes words_bytes
words_bytes-words_from_bytes [] h e = (refl, tt, omega arith)
words_bytes-words_from_bytes (x ∷ []) h e = absurd (omega arith)
words_bytes-words_from_bytes (hi ∷ lo ∷ rest) (hhi, (hlo, hs)) e =
    ground (arith, words_bytes-words_from_bytes rest hs (omega arith))

pub words_from_bytes-IsU16 :
    (bytes : List ℕ) → All IsByte bytes → All IsU16 (words_from_bytes bytes)
unfolding words_from_bytes
words_from_bytes-IsU16 [] h = tt
words_from_bytes-IsU16 (x ∷ []) h = tt
words_from_bytes-IsU16 (hi ∷ lo ∷ rest) (hhi, (hlo, hs)) =
    (omega arith, words_from_bytes-IsU16 rest hs)
