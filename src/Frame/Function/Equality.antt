-- ===== src/Frame/Function/Equality.antt =====
-- `PartialEq` of `FunctionCode`, as derived (src/frame/function.rs).
use rust_modbus.Prelude.{
  ℕ, suc, ◌+◌, ◌-◌, ◌≡◌, refl, sym, ap, ap₂, ◌∙◌, ◌↔◌, Bool, true, List, [], ◌∷◌, arith, ◌==◌,
  ==_iff, get_or,
}
use rust_modbus.Frame.Code.{
  FunctionCode, custom, read_coils, read_discrete_inputs, read_holding_registers,
  read_input_registers, write_single_coil, write_single_register, read_exception_status,
  diagnostics, get_comm_event_counter, get_comm_event_log, write_multiple_coils,
  write_multiple_registers, report_server_id, read_file_record, write_file_record,
  mask_write_register, read_write_multiple_registers, read_fifo_queue,
  encapsulated_interface_transport,
}

-- The variants in their order, and the byte of the last one.
discriminant : FunctionCode → ℕ
discriminant read_coils = 0
discriminant read_discrete_inputs = 1
discriminant read_holding_registers = 2
discriminant read_input_registers = 3
discriminant write_single_coil = 4
discriminant write_single_register = 5
discriminant read_exception_status = 6
discriminant diagnostics = 7
discriminant get_comm_event_counter = 8
discriminant get_comm_event_log = 9
discriminant write_multiple_coils = 10
discriminant write_multiple_registers = 11
discriminant report_server_id = 12
discriminant read_file_record = 13
discriminant write_file_record = 14
discriminant mask_write_register = 15
discriminant read_write_multiple_registers = 16
discriminant read_fifo_queue = 17
discriminant encapsulated_interface_transport = 18
discriminant (custom byte) = 19 + byte

variants : List FunctionCode
variants =
    read_coils ∷ read_discrete_inputs ∷ read_holding_registers ∷ read_input_registers
    ∷ write_single_coil ∷ write_single_register ∷ read_exception_status ∷ diagnostics
    ∷ get_comm_event_counter ∷ get_comm_event_log ∷ write_multiple_coils ∷ write_multiple_registers
    ∷ report_server_id ∷ read_file_record ∷ write_file_record ∷ mask_write_register
    ∷ read_write_multiple_registers ∷ read_fifo_queue ∷ encapsulated_interface_transport ∷ []

variant : ℕ → FunctionCode
unfolding variants
variant n = get_or variants n (custom (n - 19))

unfoldable pub same_function : FunctionCode → FunctionCode → Bool
unfolding discriminant
same_function a b = discriminant a == discriminant b

past : (byte : ℕ) → variant (19 + byte) ≡ custom byte
unfolding variant variants
past byte =
    let at : 19 + byte
        ≡ suc (
            suc (
              suc (
                suc (
                  suc (
                    suc (
                      suc (
                        suc (
                          suc (
                            suc
                              (suc (suc (suc (suc (suc (suc (suc (suc (suc byte)))))))))))))))))) =
      omega arith in
    let less : 19 + byte - 19 ≡ byte = omega arith in
    ap₂ (λ (n : ℕ) (m : ℕ). get_or variants n (custom m)) at less

variant-discriminant : (code : FunctionCode) → variant (discriminant code) ≡ code
unfolding variant discriminant variants
variant-discriminant read_coils = refl
variant-discriminant (custom byte) = past byte
variant-discriminant _ = refl

-- The test holds of two codes exactly when they are the same.
pub same_function_iff : (a b : FunctionCode) → (same_function a b ≡ true) ↔ (a ≡ b)
unfolding same_function
same_function_iff a b = (
  λ h.
      let same : discriminant a ≡ discriminant b = ground arith in
      sym (variant-discriminant a) ∙ ap variant same ∙ variant-discriminant b,
  λ e. (==_iff (discriminant a) (discriminant b)).1 (ap discriminant e),
)
