-- ===== src/Frame/Pdu/Encode/Sized.antt =====
-- The size check of a PDU counts only what this PDU wrote.
use rust_modbus.Prelude.{◌-◌, ◌≡◌, refl, [], ◌++◌, arith, length, length-append, ok, err, stuck}
use rust_modbus.Error.{Result}
use rust_modbus.Buffer.{Buffer, Writer, continue, ◌>>=◌}
use rust_modbus.Buffer.Relative.{IsRelative, relative_rules}
use rust_modbus.Frame.Pdu.Encode.{finish, sized}

finish-append :
    (out bytes : Buffer)
    → finish (length out) (out ++ bytes) ≡ ((finish 0 bytes).0, out ++ (finish 0 bytes).1)
unfolding finish
finish-append out bytes =
    let n : length (out ++ bytes) - length out ≡ length bytes - 0 =
      omega (arith, length-append {0} out bytes) in
    ground arith

continue-finish :
    (r : Result (Unit {0})) (out bytes : Buffer)
    → continue r (λ _. finish (length out)) (out ++ bytes)
      ≡ ((continue r (λ _. finish 0) bytes).0, out ++ (continue r (λ _. finish 0) bytes).1)
continue-finish (ok a) out bytes = finish-append out bytes
continue-finish (err e) out bytes = refl
continue-finish stuck out bytes = refl

pub sized-IsRelative : (write : Writer (Unit {0})) → IsRelative write → IsRelative (sized write)
unfolding sized ◌>>=◌
sized-IsRelative write h = record {
  at = λ out. rw (h.at out) (continue-finish (write []).0 out (write []).1);
}

pub ruleset writer_rules = (relative_rules, sized-IsRelative)
