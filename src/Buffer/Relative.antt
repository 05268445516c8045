-- ===== src/Buffer/Relative.antt =====
-- A writer is relative if it appends the same bytes, with the same result, behind whatever the
-- buffer holds already.
use rust_modbus.Prelude.{
  ℕ, ◌≡◌, refl, sym, ap, Bool, true, false, List, [], ◌∷◌, ◌++◌, append-nil, append_assoc,
  if◌then◌else◌, length, take-length-append, ok, err, stuck, map_ok,
}
use rust_modbus.Error.{Result}
use rust_modbus.Buffer.{
  Buffer, Writer, continue, ◌>>=◌, lift, extend, push, restore, guarded, owned, for_each,
}

pub record IsRelative {ℓ} {A : Type ℓ} (m : Writer A) : Type ℓ where
  pub at : (out : Buffer) → m out ≡ ((m []).0, out ++ (m []).1)

module _ {ℓ} {A : Type ℓ} where
  pub lift-IsRelative : (r : Result A) → IsRelative (lift r)
  unfolding lift
  lift-IsRelative r = record { at = λ out. ap (λ (o : Buffer). (r, o)) (sym (append-nil out)) }

  pub if-IsRelative :
      (b : Bool) {m n : Writer A} → IsRelative m → IsRelative n → IsRelative (if b then m else n)
  if-IsRelative true h k = h
  if-IsRelative false h k = k

pub extend-IsRelative : (bytes : List ℕ) → IsRelative (extend bytes)
unfolding extend
extend-IsRelative bytes = record { at = λ out. refl }

pub push-IsRelative : (byte : ℕ) → IsRelative (push byte)
unfolding push
push-IsRelative byte = record { at = λ out. refl }

module _ {ℓ} {A B : Type ℓ} where
  continue-relative :
      (r : Result A) (f : A → Writer B)
      → ((a : A) → IsRelative (f a))
      → (out bytes : Buffer)
      → continue r f (out ++ bytes) ≡ ((continue r f bytes).0, out ++ (continue r f bytes).1)
  continue-relative (ok a) f h out bytes =
      rw ((h a).at (out ++ bytes), (h a).at bytes)
        (ap (λ (o : Buffer). ((f a []).0, o)) (append_assoc out bytes (f a []).1))
  continue-relative (err e) f h out bytes = refl
  continue-relative stuck f h out bytes = refl

  pub bind-IsRelative :
      (m : Writer A) (f : A → Writer B)
      → IsRelative m
      → ((a : A) → IsRelative (f a))
      → IsRelative (m >>= f)
  unfolding ◌>>=◌
  bind-IsRelative m f h k = record {
    at = λ out. rw (h.at out) (continue-relative (m []).0 f k out (m []).1);
  }

-- The outcome of an append: the bytes behind the buffer, or the buffer as it was.
abbrev pub appended : Buffer → Result (List ℕ) → Result (Unit {0}) × Buffer
appended out (ok bytes) = (ok tt, out ++ bytes)
appended out (err e) = (err e, out)
appended out stuck = (stuck, out)

restore-relative :
    (r : Result (Unit {0})) (out bytes : Buffer)
    → restore (length out) (r, out ++ bytes)
      ≡ appended out (map_ok (λ _. (restore 0 (r, bytes)).1) (restore 0 (r, bytes)).0)
unfolding restore
restore-relative (ok tt) out bytes = refl
restore-relative (err e) out bytes = ap (λ (o : Buffer). (err e, o)) (take-length-append out bytes)
restore-relative stuck out bytes = ap (λ (o : Buffer). (stuck, o)) (take-length-append out bytes)

-- A guarded writer appends what the owning form returns, and a failure leaves the buffer as it was.
pub guarded_lem :
    (write : Writer (Unit {0})) (out : Buffer)
    → IsRelative write
    → guarded write out ≡ appended out (owned (guarded write))
unfolding guarded owned
guarded_lem write out h = rw (h.at out) (restore-relative (write []).0 out (write []).1)

pub for_each-IsRelative {ℓ} :
    {A : Type ℓ} (write : A → Writer (Unit {0}))
    → ((a : A) → IsRelative (write a))
    → (items : List A) → IsRelative (for_each write items)
unfolding for_each
for_each-IsRelative write h [] = lift-IsRelative (ok tt)
for_each-IsRelative write h (item ∷ items) =
    bind-IsRelative _ _ (h item) (λ _. for_each-IsRelative write h items)

pub ruleset relative_rules =
    (lift-IsRelative, if-IsRelative, extend-IsRelative, push-IsRelative, bind-IsRelative)
