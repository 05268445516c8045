-- ===== src/Parse/Reference.antt =====
-- Concrete operations with the documented behaviour of `winnow`. There is just one such record, so
-- a statement that holds of `reference` holds of every implementation that keeps to it.
use rust_modbus.Prelude.{
  ℕ, ◌+◌, ◌-◌, ◌*◌, ◌≡◌, refl, sym, subst, inl, inr, Bool, true, false, List, [], ◌∷◌, arith, leb,
  Bool-cases, length, take, drop, ok, err,
}
use rust_modbus.Parse.Stream.{size, incomplete, Input, Parser, Winnow, IsWinnow}
use mathlib.Core.Path.{fun_ext}

ref_u8 : Parser ℕ
ref_u8 [] = err (incomplete (size 1))
ref_u8 (b ∷ s) = ok (b, s)

ref_u16 : Parser ℕ
ref_u16 [] = err (incomplete (size 2))
ref_u16 (b ∷ []) = err (incomplete (size 1))
ref_u16 (b ∷ c ∷ s) = ok (b * 256 + c, s)

take_if : Bool → ℕ → Parser (List ℕ)
take_if true n s = ok (take n s, drop n s)
take_if false n s = err (incomplete (size (n - length s)))

ref_take : ℕ → Parser (List ℕ)
unfolding take_if
ref_take n s = take_if (leb n (length s)) n s

ref_rest : Parser (List ℕ)
ref_rest s = ok (s, [])

unfoldable pub reference : Winnow
unfolding ref_u8 ref_u16 ref_take ref_rest
reference = record {
  be_u8 = ref_u8;
  be_u16 = ref_u16;
  take = ref_take;
  rest = ref_rest;
  eof_offset = length;
}

pub reference-IsWinnow : IsWinnow reference
unfolding reference
reference-IsWinnow = record {
  be_u8-nil = refl;
  be_u8-cons = λ b s. refl;
  be_u16-nil = refl;
  be_u16-one = λ b. refl;
  be_u16-cons = λ b c s. refl;
  take-enough = λ n s h. ground arith;
  take-short = λ n s h. ground arith;
  rest_all = λ s. refl;
  eof_offset_length = λ s. refl;
}

module _ {w : Winnow} (h : IsWinnow w) where
  same_u8 : (s : Input) → ref_u8 s ≡ w.be_u8 s
  unfolding ref_u8
  same_u8 [] = sym h.be_u8-nil
  same_u8 (b ∷ s) = sym (h.be_u8-cons b s)

  same_u16 : (s : Input) → ref_u16 s ≡ w.be_u16 s
  unfolding ref_u16
  same_u16 [] = sym h.be_u16-nil
  same_u16 (b ∷ []) = sym (h.be_u16-one b)
  same_u16 (b ∷ c ∷ s) = sym (h.be_u16-cons b c s)

  same_take : (n : ℕ) (s : Input) → ref_take n s ≡ w.take n s
  unfolding ref_take
  same_take n s = elim (Bool-cases (leb n (length s))) [
    | inl e ↦ rw e (sym (h.take-enough n s (ground arith)))
    | inr e ↦ rw e (sym (h.take-short n s (ground arith)))
  ]

  unique : reference ≡ w
  unfolding reference
  unique = λ i. record {
    be_u8 = fun_ext same_u8 i;
    be_u16 = fun_ext same_u16 i;
    take = fun_ext (λ n. fun_ext (same_take n)) i;
    rest = fun_ext {A = Input} (λ s. sym (h.rest_all s)) i;
    eof_offset = fun_ext {A = Input} (λ s. sym (h.eof_offset_length s)) i;
  }

-- What holds of the reference holds of every `winnow` with the documented behaviour.
pub by_reference {ℓ} : (P : Winnow → Type ℓ) → P reference → {w : Winnow} → IsWinnow w → P w
by_reference P p h = subst P (unique h) p
