-- ===== src/Transport/Serial/Rs485.antt =====
-- RS-485 kernel direction control (src/transport/rs485.rs). The call of the kernel and the numbers
-- of its errors are parameters.
use rust_modbus.Prelude.{
  ℕ, ◌+◌, ◌*◌, ◌/◌, ◌≤◌, ◌<◌, bit_and, bit_or, String, ◌≡◌, refl, inl, inr, not, ◌||◌, Option, none,
  some, List, [], ◌∷◌, arith, ltb, ◌==◌, if◌then◌else◌, ok, err, Outcome-cases,
}
use rust_modbus.Error.{Result, configuration, io, rs485_unsupported, ◌>>=◌}
use rust_modbus.Transport.Serial.{Rs485Config, RtsPolarity, high, low}

abbrev pub ser_rs485_enabled : ℕ
ser_rs485_enabled = 1

abbrev pub ser_rs485_rts_on_send : ℕ
ser_rs485_rts_on_send = 2

abbrev pub ser_rs485_rts_after_send : ℕ
ser_rs485_rts_after_send = 4

pub record KernelRs485 : Type 0 where
  pub flags : ℕ
  pub delay_rts_before_send : ℕ
  pub delay_rts_after_send : ℕ
  pub padding : List ℕ

-- `as_millis` of a duration in nanoseconds.
abbrev pub as_millis : ℕ → ℕ
as_millis delay = delay / 1000000

unfoldable pub truncate_to_millis : ℕ → String → Result ℕ
truncate_to_millis delay field =
    if ltb (as_millis delay) 4294967296 then ok (as_millis delay) else err (configuration field)

unfoldable pub rts_flags : RtsPolarity → ℕ
rts_flags high = bit_or ser_rs485_enabled ser_rs485_rts_on_send
rts_flags low = bit_or ser_rs485_enabled ser_rs485_rts_after_send

unfoldable pub build : Rs485Config → Result KernelRs485
unfolding truncate_to_millis rts_flags
build config = do
  before ← truncate_to_millis config.delay_before_send "delay_before_send"
  after ← truncate_to_millis config.delay_after_send "delay_after_send"
  ok (record {
    flags = rts_flags config.rts_on_send;
    delay_rts_before_send = before;
    delay_rts_after_send = after;
    padding = 0 ∷ 0 ∷ 0 ∷ 0 ∷ 0 ∷ [];
  })

-- The numbers of the errors that `libc` names, and how `ioctl` ends: `none` for the result 0, and
-- else the kind and the number of the last error.
module _ (enotty einval enosys : ℕ) (ioctl : KernelRs485 → Option (ℕ × ℕ)) where
  unfoldable pub issue_ioctl : KernelRs485 → Result (Unit {0})
  issue_ioctl kernel = elim (ioctl kernel) [
    | none ↦ ok tt
    | some (kind, code) ↦
        if code == enotty || code == einval || code == enosys
        then err rs485_unsupported
        else err (io kind (some code))
  ]

  -- On Linux.
  unfoldable pub apply : Rs485Config → Result (Unit {0})
  unfolding build issue_ioctl
  apply config = do kernel ← build config; issue_ioctl kernel

one_level :
    (polarity : RtsPolarity)
    → (bit_and (rts_flags polarity) 1 ≡ 1)
      × ((bit_and (rts_flags polarity) 2 == 0) ≡ not (bit_and (rts_flags polarity) 4 == 0))
unfolding rts_flags
one_level high = (refl, refl)
one_level low = (refl, refl)

truncated :
    (delay : ℕ) (field : String) (millis : ℕ)
    → truncate_to_millis delay field ≡ ok millis
    → (millis * 1000000 ≤ delay) × (delay < (millis + 1) * 1000000) × (millis < 4294967296)
unfolding truncate_to_millis
truncated delay field millis h = ground arith

-- The delays that `build` writes are those of the configuration, rounded down to milliseconds and
-- in 32 bits, direction control is enabled, and exactly one of the two levels is high: the one
-- after sending is the complement of the one while sending.
pub build-ok :
    (config : Rs485Config) (kernel : KernelRs485)
    → build config ≡ ok kernel
    → (kernel.delay_rts_before_send * 1000000 ≤ config.delay_before_send)
      × (config.delay_before_send < (kernel.delay_rts_before_send + 1) * 1000000)
      × (kernel.delay_rts_after_send * 1000000 ≤ config.delay_after_send)
      × (config.delay_after_send < (kernel.delay_rts_after_send + 1) * 1000000)
      × (kernel.delay_rts_before_send < 4294967296)
      × (kernel.delay_rts_after_send < 4294967296)
      × (bit_and kernel.flags 1 ≡ 1)
      × ((bit_and kernel.flags 2 == 0) ≡ not (bit_and kernel.flags 4 == 0))
unfolding build
build-ok config kernel h =
    let before = truncate_to_millis config.delay_before_send "delay_before_send" in
    let after = truncate_to_millis config.delay_after_send "delay_after_send" in
    elim (Outcome-cases before) [
      | inl (b, e) ↦ elim (Outcome-cases after) [
        | inl (a, f) ↦
            let (bl, bu, bw) = truncated config.delay_before_send "delay_before_send" b e in
            let (al, au, aw) = truncated config.delay_after_send "delay_after_send" a f in
            let (enabled, levels) = one_level config.rts_on_send in ground arith
        | inr (inl (x, f)) ↦ absurd (ground arith)
        | inr (inr f) ↦ absurd (ground arith)
      ]
      | inr (inl (x, e)) ↦ absurd (ground arith)
      | inr (inr e) ↦ absurd (ground arith)
    ]
