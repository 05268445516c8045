-- ===== src/Client/Methods/Reads.antt =====
-- What the reads of a client return (src/client/mod.rs).
use rust_modbus.Prelude.{
  ℕ, zero, suc, ◌≤◌, ◌≡◌, refl, sym, subst, inl, inr, Bool, Option, none, some, List, [], ◌∷◌,
  arith, Bool-cases, length, ok, err, stuck, and_then-eq-ok,
}
use rust_modbus.Error.{Result}
use rust_modbus.Frame.Framing.{AduBoundary}
use rust_modbus.Frame.Pdu.Request.{RequestPdu}
use rust_modbus.Frame.Pdu.Response.{ResponsePdu, exception}
use rust_modbus.Client.Framing.{ClientFraming}
use rust_modbus.Client.Call.{Client, Turn, accepted, exchange, call}
use rust_modbus.Client.Call.Answer.{IsAnswered, call-IsAnswered}
use rust_modbus.Client.Methods.{
  ask, mismatch, read_coils, read_coils_of, truncate, read_holding_registers,
  read_holding_registers_of,
}

accepted-ok :
    (result : Result (Option ResponsePdu)) (response : ResponsePdu)
    → accepted result ≡ ok response
    → result ≡ ok (some response)
unfolding accepted
accepted-ok (ok none) response h = cc
accepted-ok (ok (some (exception e))) response h = cc
accepted-ok (ok (some answer)) response h = ground arith
accepted-ok (err error) response h = cc
accepted-ok stuck response h = cc

bits-read :
    (quantity : ℕ) (response : ResponsePdu) (bits : List Bool)
    → read_coils_of quantity response ≡ ok bits
    → (coils : List Bool) × (response ≡ ResponsePdu.read_coils coils)
      × (bits ≡ truncate quantity coils)
unfolding read_coils_of mismatch
bits-read quantity (ResponsePdu.read_coils coils) bits h = (coils, refl, cc)
bits-read quantity (exception e) bits h = cc
bits-read quantity _ bits h = cc

length-truncate : (quantity : ℕ) (bits : List Bool) → length (truncate quantity bits) ≤ quantity
length-truncate zero bits = omega arith
length-truncate (suc quantity) [] = omega arith
length-truncate (suc quantity) (bit ∷ bits) = omega (arith, length-truncate quantity bits)

words-read :
    (response : ResponsePdu) (words : List ℕ)
    → read_holding_registers_of response ≡ ok words
    → response ≡ ResponsePdu.read_holding_registers words
unfolding read_holding_registers_of mismatch
words-read (ResponsePdu.read_holding_registers values) words h = ground arith
words-read (exception e) words h = cc
words-read _ words h = cc

module _ {Header : Type 0} (framing : ClientFraming Header) (boundary : AduBoundary)
    (turn : Turn Header) (unit : ℕ) where
  exchange-ok :
      (request : RequestPdu) (client : Client) (response : ResponsePdu)
      → (exchange framing boundary turn unit request client).result ≡ ok response
      → (call framing boundary turn unit request client).result ≡ ok (some response)
  unfolding exchange
  exchange-ok request client response h = elim (Bool-cases (framing.is_broadcast unit)) [
    | inl e ↦ absurd (ground arith)
    | inr e ↦
        accepted-ok (call framing boundary turn unit request client).result response (ground arith)
  ]

  ask-ok :
      {A : Type 0} (request : RequestPdu) (of : ResponsePdu → Result A) (client : Client) (a : A)
      → (ask framing boundary turn unit request of client).result ≡ ok a
      → (response : ResponsePdu) × IsAnswered framing boundary turn unit request client response
          (call framing boundary turn unit request client)
        × (of response ≡ ok a)
  unfolding ask
  ask-ok request of client a h =
      let (response, e, taken) =
        and_then-eq-ok (exchange framing boundary turn unit request client).result of h in
      (
        response,
        call-IsAnswered framing boundary turn unit request client response
            (exchange-ok request client response e),
        taken,
      )

  -- When a client returns coils that it read, they are those of the response that answered its
  -- call, cut to the quantity that it asked for, and no more than that.
  pub read_coils-IsAnswered :
      (address quantity : ℕ) (client : Client) (bits : List Bool)
      → (read_coils framing boundary turn unit address quantity client).result ≡ ok bits
      → (coils : List Bool) × IsAnswered framing boundary turn unit
          (RequestPdu.read_coils address quantity)
          client
          (ResponsePdu.read_coils coils)
          (call framing boundary turn unit (RequestPdu.read_coils address quantity) client)
        × (bits ≡ truncate quantity coils)
        × (length bits ≤ quantity)
  unfolding read_coils
  read_coils-IsAnswered address quantity client bits h =
      let request : RequestPdu = RequestPdu.read_coils address quantity in
      let (response, answers, taken) = ask-ok request (read_coils_of quantity) client bits h in
      let (coils, same, cut) = bits-read quantity response bits taken in
      (
        coils,
        subst
            (λ (r : ResponsePdu).
              IsAnswered framing boundary turn unit request client r
                (call framing boundary turn unit request client))
            same answers,
        cut,
        subst (λ (bits : List Bool). length bits ≤ quantity) (sym cut)
            (length-truncate quantity coils),
      )

  -- When a client returns registers that it read, the response that answered its call holds them,
  -- all and in order.
  pub read_holding_registers-IsAnswered :
      (address quantity : ℕ) (client : Client) (words : List ℕ)
      → (read_holding_registers framing boundary turn unit address quantity client).result
        ≡ ok words
      → IsAnswered framing boundary turn unit
          (RequestPdu.read_holding_registers address quantity)
          client
          (ResponsePdu.read_holding_registers words)
          (call framing boundary turn unit
            (RequestPdu.read_holding_registers address quantity)
            client)
  unfolding read_holding_registers
  read_holding_registers-IsAnswered address quantity client words h =
      let request : RequestPdu = RequestPdu.read_holding_registers address quantity in
      let (response, answers, taken) = ask-ok request read_holding_registers_of client words h in
      subst
        (λ (r : ResponsePdu).
          IsAnswered framing boundary turn unit request client r
            (call framing boundary turn unit request client))
        (words-read response words taken) answers
