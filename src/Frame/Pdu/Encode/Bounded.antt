-- ===== src/Frame/Pdu/Encode/Bounded.antt =====
-- A writer is bounded if a PDU that it writes into an empty buffer has 253 bytes at most.
use rust_modbus.Prelude.{ℕ, ◌≤◌, ◌≡◌, refl, List, [], arith, length, ok, err, stuck}
use rust_modbus.Error.{Result}
use rust_modbus.Buffer.{Buffer, Writer, continue, guarded, owned, lift, ◌>>=◌}
use rust_modbus.Frame.Pdu.Encode.{finish, sized}

pub record IsBounded (m : Writer (Unit {0})) : Type 0 where
  pub within : (m []).0 ≡ ok tt → length (m []).1 ≤ 253

continue-finish_bounded :
    (r : Result (Unit {0})) (bytes : Buffer)
    → (continue r (λ _. finish 0) bytes).0 ≡ ok tt
    → length (continue r (λ _. finish 0) bytes).1 ≤ 253
unfolding finish
continue-finish_bounded (ok a) bytes h = ground arith
continue-finish_bounded (err e) bytes h = absurd (cc)
continue-finish_bounded stuck bytes h = absurd (cc)

pub sized-IsBounded : (write : Writer (Unit {0})) → IsBounded (sized write)
unfolding sized ◌>>=◌
sized-IsBounded write = record { within = continue-finish_bounded (write []).0 (write []).1 }

module _ {A : Type 0} where
  continue-IsBounded :
      (r : Result A) (f : A → Writer (Unit {0}))
      → ((a : A) → IsBounded (f a))
      → (continue r f []).0 ≡ ok tt
      → length (continue r f []).1 ≤ 253
  continue-IsBounded (ok a) f h e = (h a).within e
  continue-IsBounded (err x) f h e = absurd (cc)
  continue-IsBounded stuck f h e = absurd (cc)

  -- A check in front of a bounded writer.
  pub lift-IsBounded :
      (r : Result A) (f : A → Writer (Unit {0}))
      → ((a : A) → IsBounded (f a))
      → IsBounded (lift r >>= f)
  unfolding ◌>>=◌
  lift-IsBounded r f h = record { within = continue-IsBounded r f h }

-- What the owning form of a bounded writer returns.
owned-bounded_lem :
    (r : Result (Unit {0})) (out : Buffer) (bs : List ℕ)
    → (r ≡ ok tt → length out ≤ 253)
    → owned (guarded (λ o. (r, out))) ≡ ok bs
    → length bs ≤ 253
unfolding owned guarded
owned-bounded_lem (ok a) out bs h e = ground (arith, h refl)
owned-bounded_lem (err x) out bs h e = absurd (cc)
owned-bounded_lem stuck out bs h e = absurd (cc)

pub owned-bounded :
    (write : Writer (Unit {0})) (bs : List ℕ)
    → IsBounded write
    → owned (guarded write) ≡ ok bs
    → length bs ≤ 253
unfolding owned guarded
owned-bounded write bs h e = owned-bounded_lem (write []).0 (write []).1 bs h.within e

pub ruleset bounded_rules = (sized-IsBounded, lift-IsBounded)
