-- ===== src/Parse.antt =====
-- The parsing primitives (src/parse.rs). The crate `winnow` is a parameter, the record `Winnow`;
-- `Parse/Reference.antt` has the concrete operations that its documentation determines.
use rust_modbus.Prelude.{
  ℕ, zero, suc, ◌+◌, Bool, true, false, none, some, List, [], ◌∷◌, ◌++◌, ◌==◌, if◌then◌else◌,
  length, ok, err, stuck,
}
pub mod Stream
pub mod Reference
pub mod Region
use rust_modbus.Error.{Error, Result, truncated, trailing_bytes, malformed}
use rust_modbus.Parse.Stream.{
  Needed, unknown, size, ParseFailure, ErrMode, incomplete, backtrack, cut, Input, ParseResult,
  Parser, Winnow,
}

-- `ParseFailure::into_error`
unfoldable pub into_error : ParseFailure → Error
into_error failure = elim failure.cause [ none ↦ malformed | some e ↦ e ]

unfoldable pub lift {ℓ} : {A : Type ℓ} → Result A → Parser A
lift (ok a) input = ok (a, input)
lift (err e) input = err (cut (record { cause = some e }))
lift stuck input = stuck

unfoldable pub fail {ℓ} : {A : Type ℓ} → Error → Parser A
unfolding lift
fail e = lift (err e)

-- `if !test { return parse::fail(error); }`
unfoldable pub ensure : Bool → Error → Parser (Unit {0})
ensure true e input = ok (tt, input)
ensure false e input = err (cut (record { cause = some e }))

unfoldable pub missing : Needed → ℕ
missing (size n) = n
missing unknown = 1

-- The position that `saturating_add` guards is a length in memory, which never saturates.
unfoldable pub convert : ErrMode → ℕ → Error
unfolding missing into_error
convert (incomplete needed) supplied = truncated (supplied + missing needed) supplied
convert (backtrack failure) supplied = into_error failure
convert (cut failure) supplied = into_error failure

module _ {ℓ} {A : Type ℓ} (w : Winnow) where
  -- The match of `run` on what the parser returned.
  finish_run : ℕ → ParseResult (A × Input) → Result A
  unfolding convert
  finish_run supplied (ok (value, input)) =
      let extra = w.eof_offset input in if extra == 0 then ok value else err (trailing_bytes extra)
  finish_run supplied (err e) = err (convert e supplied)
  finish_run supplied stuck = stuck

  unfoldable pub run : List ℕ → Parser A → Result A
  unfolding finish_run
  run bytes parser = finish_run (length bytes) (parser bytes)

  -- One round each for the items; an item takes a byte at least, so `length bytes` rounds suffice.
  unfoldable pub run_all_loop : ℕ → ℕ → Parser A → Input → List A → Result (List A)
  unfolding convert
  run_all_loop zero supplied parser input items = elim (w.eof_offset input) [
    | zero ↦ ok items
    | suc more ↦ stuck
  ]
  run_all_loop (suc fuel) supplied parser input items = elim (w.eof_offset input) [
    | zero ↦ ok items
    | suc more ↦ elim (parser input) [
      | ok (item, input') ↦ run_all_loop fuel supplied parser input' (items ++ item ∷ [])
      | err e ↦ err (convert e supplied)
      | stuck ↦ stuck
    ]
  ]

  unfoldable pub run_all : List ℕ → Parser A → Result (List A)
  unfolding run_all_loop
  run_all bytes parser = run_all_loop (length bytes) (length bytes) parser bytes []
