-- ===== src/Client/Transaction.antt =====
-- Transaction identifiers (`next` of src/client/mod.rs).
use rust_modbus.Prelude.{ℕ, zero, suc, ◌+◌, ◌-◌, ◌%◌, ◌≤◌, ◌≡◌, arith, ltb, if◌then◌else◌}

abbrev pub first_transaction : ℕ
first_transaction = 1

-- `checked_add(1)` on 16 bits
unfoldable pub next : ℕ → ℕ
next current = if ltb current 65535 then current + 1 else 1

-- The identifier after `n` allocations.
unfoldable pub allocated : ℕ → ℕ → ℕ
allocated zero current = current
allocated (suc n) current = allocated n (next current)

-- Every identifier that follows one in 1 to 65535 is in 1 to 65535 again, and `n` allocations go
-- `n` steps round the cycle of 65535 identifiers: none is 0, and none comes back sooner.
pub allocated_cycle :
    (n current : ℕ)
    → 1 ≤ current
    → current ≤ 65535
    → allocated n current ≡ (current - 1 + n) % 65535 + 1
unfolding allocated next
allocated_cycle zero current lo hi = omega arith
allocated_cycle (suc n) current lo hi =
    ground (arith, allocated_cycle n (current + 1), allocated_cycle n 1)
