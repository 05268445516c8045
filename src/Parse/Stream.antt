-- ===== src/Parse/Stream.antt =====
-- What src/parse.rs and the decoders use of the crate `winnow`: its error modes, and four parsers
-- over a partial stream, with the behaviour that its documentation gives them.
use rust_modbus.Prelude.{
  ℕ, ◌+◌, ◌-◌, ◌*◌, ◌≤◌, ◌<◌, ◌≡◌, Bool, true, false, Option, List, [], ◌∷◌, length, take, drop,
  Outcome, ok, err, stuck,
}
use rust_modbus.Error.{Error}

pub data Needed : Type 0 where
  unknown : Needed
  size : ℕ → Needed

-- The crate's own `ParseFailure(Option<Error>)`.
pub record ParseFailure : Type 0 where
  pub cause : Option Error

pub data ErrMode : Type 0 where
  incomplete : Needed → ErrMode
  backtrack cut : ParseFailure → ErrMode

-- The bytes not yet consumed.
abbrev pub Input : Type 0
Input = List ℕ

abbrev pub ParseResult {ℓ} : Type ℓ → Type ℓ
ParseResult A = Outcome ErrMode A

-- A step on `&mut Input`. No caller reads the input again after an error.
abbrev pub Parser {ℓ} : Type ℓ → Type ℓ
Parser A = Input → ParseResult (A × Input)

pub record Winnow : Type 0 where
  pub be_u8 : Parser ℕ
  pub be_u16 : Parser ℕ
  pub take : ℕ → Parser (List ℕ)
  pub rest : Parser (List ℕ)
  pub eof_offset : Input → ℕ

-- The documented behaviour: a parser of a fixed width on a partial stream names the bytes missing.
pub record IsWinnow (w : Winnow) : Type 0 where
  pub be_u8-nil : w.be_u8 [] ≡ err (incomplete (size 1))
  pub be_u8-cons : (b : ℕ) (s : Input) → w.be_u8 (b ∷ s) ≡ ok (b, s)
  pub be_u16-nil : w.be_u16 [] ≡ err (incomplete (size 2))
  pub be_u16-one : (b : ℕ) → w.be_u16 (b ∷ []) ≡ err (incomplete (size 1))
  pub be_u16-cons : (b c : ℕ) (s : Input) → w.be_u16 (b ∷ c ∷ s) ≡ ok (b * 256 + c, s)
  pub take-enough : (n : ℕ) (s : Input) → n ≤ length s → w.take n s ≡ ok (take n s, drop n s)
  pub take-short :
      (n : ℕ) (s : Input) → length s < n → w.take n s ≡ err (incomplete (size (n - length s)))
  pub rest_all : (s : Input) → w.rest s ≡ ok (s, [])
  pub eof_offset_length : (s : Input) → w.eof_offset s ≡ length s

infixl 5 ◌>>=◌ ◌>>◌
abbrev pub ◌>>=◌ {ℓ κ} : {A : Type ℓ} {B : Type κ} → Parser A → (A → Parser B) → Parser B
◌>>=◌ p f input = elim (p input) [ ok (a, input') ↦ f a input' | err e ↦ err e | stuck ↦ stuck ]

abbrev pub ◌>>◌ {ℓ κ} : {A : Type ℓ} {B : Type κ} → Parser A → Parser B → Parser B
p >> q = p >>= λ _. q

abbrev pub pure {ℓ} : {A : Type ℓ} → A → Parser A
pure a input = ok (a, input)

-- A branch on a test, made where the input is known.
abbrev pub branch {ℓ} : {A : Type ℓ} → Bool → Parser A → Parser A → Parser A
branch true p q input = p input
branch false p q input = q input
