-- ===== src/Prelude/Table.antt =====
-- Facts over a small range, checked at every value by evaluation.
use Prim.Native.Nat.{ℕ, zero, suc, ◌<◌}
use mathlib.Core.Path.{◌≡◌}
use mathlib.Core.Bool.{Bool, true, false, ◌&&◌}
use mathlib.Core.List.{List, [], ◌∷◌}
use native.Mathlib.Omega.{arith}
use rust_modbus.Prelude.Lists.{length}
use rust_modbus.Prelude.Tests.{&&-left, &&-right}

-- The test holds at every number under the bound.
unfoldable pub holds_below : (bound : ℕ) → (test : ℕ → Bool) → Bool
holds_below zero test = true
holds_below (suc last) test = holds_below last test && test last

pub holds_below-at :
    (bound : ℕ) (test : ℕ → Bool) (i : ℕ)
    → holds_below bound test ≡ true
    → i < bound
    → test i ≡ true
unfolding holds_below
holds_below-at (suc last) test i held under = ground (arith, holds_below-at last test i)
holds_below-at zero test i held under = absurd (omega arith)

-- Every list of `n` Booleans.
unfoldable pub all_bits : ℕ → (List Bool → Bool) → Bool
all_bits zero p = p []
all_bits (suc n) p = all_bits n (λ l. p (true ∷ l)) && all_bits n (λ l. p (false ∷ l))

pub all_bits_sound :
    (l : List Bool) (p : List Bool → Bool) → all_bits (length l) p ≡ true → p l ≡ true
unfolding all_bits
all_bits_sound [] p h = h
all_bits_sound (true ∷ l) p h = all_bits_sound l (λ l. p (true ∷ l)) (&&-left _ _ h)
all_bits_sound (false ∷ l) p h =
    all_bits_sound l (λ l. p (false ∷ l)) (&&-right (all_bits (length l) (λ l. p (true ∷ l))) _ h)
