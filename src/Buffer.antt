-- ===== src/Buffer.antt =====
-- The caller's output buffer, `&mut Vec<u8>`: a step returns a result and leaves the buffer behind,
-- also where it fails. `reserve` changes no content and is left out.
use rust_modbus.Prelude.{ℕ, List, [], ◌∷◌, ◌++◌, length, take, ok, err, stuck, map_ok, set}
pub mod Relative
use rust_modbus.Error.{Result}

abbrev pub Buffer : Type 0
Buffer = List ℕ

abbrev pub Writer {ℓ} : Type ℓ → Type ℓ
Writer A = Buffer → Result A × Buffer

abbrev pub continue {ℓ κ} : {A : Type ℓ} {B : Type κ} → Result A → (A → Writer B) → Writer B
continue (ok a) f out = f a out
continue (err e) f out = (err e, out)
continue stuck f out = (stuck, out)

unfoldable pub lift {ℓ} : {A : Type ℓ} → Result A → Writer A
lift r out = (r, out)

-- `out.len()`
unfoldable pub len : Writer ℕ
len out = (ok (length out), out)

-- `out.extend_from_slice(bytes)`
unfoldable pub extend : List ℕ → Writer (Unit {0})
extend bytes out = (ok tt, out ++ bytes)

-- `out.push(byte)`
unfoldable pub push : ℕ → Writer (Unit {0})
push byte out = (ok tt, out ++ byte ∷ [])

infixl 5 ◌>>=◌ ◌>>◌
-- Opening this opens the steps above too.
unfoldable pub ◌>>=◌ {ℓ κ} : {A : Type ℓ} {B : Type κ} → Writer A → (A → Writer B) → Writer B
unfolding lift len extend push
◌>>=◌ m f out = let (r, out') = m out in continue r f out'

abbrev pub ◌>>◌ {ℓ κ} : {A : Type ℓ} {B : Type κ} → Writer A → Writer B → Writer B
m >> n = m >>= λ _. n

-- `*out.get_mut(at)… = byte`: overwrite a placeholder.
unfoldable pub patch : ℕ → ℕ → Writer (Unit {0})
patch start byte out = (ok tt, set out start byte)

-- A failure truncates the buffer to the length that it had.
unfoldable pub restore : ℕ → Result (Unit {0}) × Buffer → Result (Unit {0}) × Buffer
restore start (ok a, out) = (ok a, out)
restore start (err e, out) = (err e, take start out)
restore start (stuck, out) = (stuck, take start out)

-- What the encoders do around their `write`: the failure contract of `encode_into`, and the owning
-- `encode` over a new buffer.
unfoldable pub guarded : Writer (Unit {0}) → Writer (Unit {0})
unfolding restore
guarded write out = restore (length out) (write out)

unfoldable pub owned : Writer (Unit {0}) → Result (List ℕ)
owned encode_into = let (r, out) = encode_into [] in map_ok (λ _. out) r

-- `for item in items { write(item, out)?; }`
unfoldable pub for_each {ℓ} : {A : Type ℓ} → (A → Writer (Unit {0})) → List A → Writer (Unit {0})
for_each write [] = lift (ok tt)
for_each write (item ∷ items) = do write item; for_each write items
