-- ===== src/Parse/Region.antt =====
-- The item loop of src/parse.rs over a region of items, against the items' encoder.
use rust_modbus.Prelude.{
  ℕ, zero, suc, ◌≤◌, ◌<◌, ◌≡◌, refl, sym, ap, ◌∙◌, subst, inl, inr, List, [], ◌∷◌, ◌++◌, append-nil,
  append_assoc, arith, length, All, length-append, ok, err, stuck, Outcome-cases,
}
use rust_modbus.Error.{Result}
use rust_modbus.Buffer.{Writer, for_each, continue, ◌>>=◌}
use rust_modbus.Buffer.Relative.{IsRelative}
use rust_modbus.Parse.{run_all_loop, run_all}
use rust_modbus.Parse.Stream.{Parser, Input}
use rust_modbus.Parse.Reference.{reference}
use rust_modbus.Frame.Bytes.{IsByte}

-- A parser and an encoder of one item agree on its bytes. `Fits` is what the encoder checks,
-- `IsTyped` what the Rust types of the fields give.
pub record IsItem {A : Type 0} (parse : Parser A) (encode : A → Writer (Unit {0}))
    (bytes : A → List ℕ) (Fits IsTyped : A → Type 0) : Type 0 where
  pub relative : (a : A) → IsRelative (encode a)
  pub writes : (a : A) → Fits a → encode a [] ≡ (ok tt, bytes a)
  pub checks : (a : A) → (encode a []).0 ≡ ok tt → Fits a
  pub parses : (a : A) (s : Input) → Fits a → IsTyped a → parse (bytes a ++ s) ≡ ok (a, s)
  pub parsed :
      (s : Input) (a : A) (s' : Input)
      → All IsByte s
      → parse s ≡ ok (a, s')
      → (s ≡ bytes a ++ s') × Fits a × IsTyped a
  pub takes : (a : A) → 0 < length (bytes a)

abbrev pub all_bytes {ℓ} : {A : Type ℓ} → (A → List ℕ) → List A → List ℕ
all_bytes bytes [] = []
all_bytes bytes (a ∷ items) = bytes a ++ all_bytes bytes items

All-right : (xs ys : List ℕ) → All IsByte (xs ++ ys) → All IsByte ys
All-right [] ys h = h
All-right (x ∷ xs) ys (h, hs) = All-right xs ys hs

module _ {A : Type 0} {parse : Parser A} {encode : A → Writer (Unit {0})} {bytes : A → List ℕ}
    {Fits IsTyped : A → Type 0} (item : IsItem parse encode bytes Fits IsTyped) where
  item-writes : (a : A) (out : List ℕ) → Fits a → encode a out ≡ (ok tt, out ++ bytes a)
  item-writes a out h =
      (item.relative a).at out
      ∙ ap (λ (r : Result (Unit {0}) × List ℕ). (r.0, out ++ r.1)) (item.writes a h)

  item-checks : (a : A) (out : List ℕ) → (encode a out).0 ≡ ok tt → Fits a
  item-checks a out h =
      item.checks a
        (sym (ap (λ (r : Result (Unit {0}) × List ℕ). r.0) ((item.relative a).at out)) ∙ h)

  pub for_each-writes :
      (items : List A) (out : List ℕ)
      → All Fits items
      → for_each encode items out ≡ (ok tt, out ++ all_bytes bytes items)
  unfolding for_each ◌>>=◌
  for_each-writes [] out h = ap (λ (o : List ℕ). (ok tt, o)) (sym (append-nil out))
  for_each-writes (a ∷ items) out (h, hs) = rw (item-writes a out h) (
      for_each-writes items (out ++ bytes a) hs
      ∙ ap (λ (o : List ℕ). (ok tt, o)) (append_assoc out (bytes a) (all_bytes bytes items)))

  first_ok :
      (r : Result (Unit {0})) (f : Unit {0} → Writer (Unit {0})) (out : List ℕ)
      → (continue r f out).0 ≡ ok tt
      → (r ≡ ok tt) × ((f tt out).0 ≡ ok tt)
  first_ok (ok tt) f out h = (refl, h)
  first_ok (err e) f out h = cc
  first_ok stuck f out h = cc

  pub for_each-checks :
      (items : List A) (out : List ℕ) → (for_each encode items out).0 ≡ ok tt → All Fits items
  unfolding for_each ◌>>=◌
  for_each-checks [] out h = tt
  for_each-checks (a ∷ items) out h =
      let (first, more) =
        first_ok (encode a out).0 (λ _. for_each encode items) (encode a out).1 h in
      (item-checks a out first, for_each-checks items (encode a out).1 more)

  loop_step :
      (fuel supplied : ℕ) (s s' : Input) (acc : List A) (a : A)
      → 0 < length s
      → parse s ≡ ok (a, s')
      → run_all_loop reference (suc fuel) supplied parse s acc
        ≡ run_all_loop reference fuel supplied parse s' (acc ++ a ∷ [])
  unfolding run_all_loop reference
  loop_step fuel supplied [] s' acc a h e = absurd (omega arith)
  loop_step fuel supplied (x ∷ s) s' acc a h e = rw e

  loop_inv :
      (fuel supplied x : ℕ) (s : Input) (acc items : List A)
      → run_all_loop reference (suc fuel) supplied parse (x ∷ s) acc ≡ ok items
      → (a : A) × (s' : Input) × (parse (x ∷ s) ≡ ok (a, s'))
        × (run_all_loop reference fuel supplied parse s' (acc ++ a ∷ []) ≡ ok items)
  unfolding run_all_loop reference
  loop_inv fuel supplied x s acc items h = elim (Outcome-cases (parse (x ∷ s))) [
    | inl ((a, s'), e) ↦
        (a, s', e, sym (loop_step fuel supplied (x ∷ s) s' acc a (omega arith) e) ∙ h)
    | inr (inl (f, e)) ↦ absurd (ground arith)
    | inr (inr e) ↦ absurd (ground arith)
  ]

  loop-all_bytes :
      (items : List A) (fuel supplied : ℕ) (acc : List A)
      → All Fits items
      → All IsTyped items
      → length (all_bytes bytes items) ≤ fuel
      → run_all_loop reference fuel supplied parse (all_bytes bytes items) acc ≡ ok (acc ++ items)
  unfolding run_all_loop reference
  loop-all_bytes [] zero supplied acc h t f = ap ok (sym (append-nil acc))
  loop-all_bytes [] (suc fuel) supplied acc h t f = ap ok (sym (append-nil acc))
  loop-all_bytes (a ∷ items) zero supplied acc (h, hs) (t, ts) f =
      absurd (omega (arith, item.takes a, length-append {0} (bytes a) (all_bytes bytes items)))
  loop-all_bytes (a ∷ items) (suc fuel) supplied acc (h, hs) (t, ts) f =
      let size = length-append {0} (bytes a) (all_bytes bytes items) in
      loop_step fuel supplied _ _ acc a (omega (arith, size, item.takes a))
        (item.parses a (all_bytes bytes items) h t)
      ∙ loop-all_bytes items fuel supplied (acc ++ a ∷ []) hs ts (omega (arith, size, item.takes a))
      ∙ ap ok (append_assoc acc (a ∷ []) items)

  pub run_all-all_bytes :
      (items : List A)
      → All Fits items
      → All IsTyped items
      → run_all reference (all_bytes bytes items) parse ≡ ok items
  unfolding run_all
  run_all-all_bytes items h t = loop-all_bytes items _ _ [] h t (omega arith)

  loop-items :
      (fuel supplied : ℕ) (s : Input) (acc items : List A)
      → All IsByte s
      → run_all_loop reference fuel supplied parse s acc ≡ ok items
      → (rest : List A) × (items ≡ acc ++ rest)
        × (s ≡ all_bytes bytes rest)
        × All Fits rest
        × All IsTyped rest
  unfolding run_all_loop reference
  loop-items zero supplied [] acc items hb h = ([], nothing_more, refl, tt, tt)
    where
      nothing_more : items ≡ acc ++ []
      nothing_more = ground (arith, append-nil acc)
  loop-items zero supplied (x ∷ s) acc items hb h = absurd (cc)
  loop-items (suc fuel) supplied [] acc items hb h = ([], nothing_more, refl, tt, tt)
    where
      nothing_more : items ≡ acc ++ []
      nothing_more = ground (arith, append-nil acc)
  loop-items (suc fuel) supplied (x ∷ s) acc items hb h =
      let (a, s', e, more) = loop_inv fuel supplied x s acc items h in
      let (front, fits, typed) = item.parsed (x ∷ s) a s' hb e in
      let hs' : All IsByte s' = All-right (bytes a) s' (subst (All IsByte) front hb) in
      let (rest, same, back, all_fit, all_typed) =
        loop-items fuel supplied s' (acc ++ a ∷ []) items hs' more in
      (
        a ∷ rest,
        same ∙ append_assoc acc (a ∷ []) rest,
        front ∙ ap (λ (l : List ℕ). bytes a ++ l) back,
        (fits, all_fit),
        (typed, all_typed),
      )

  pub run_all-items :
      (s : List ℕ) (items : List A)
      → All IsByte s
      → run_all reference s parse ≡ ok items
      → (s ≡ all_bytes bytes items) × All Fits items × All IsTyped items
  unfolding run_all
  run_all-items s items hb h =
      let (rest, same, front, fits, typed) = loop-items (length s) (length s) s [] items hb h in
      (rw same front, rw same fits, rw same typed)
