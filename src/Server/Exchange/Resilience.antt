-- ===== src/Server/Exchange/Resilience.antt =====
-- Bad frames on a framing that finds its own boundaries (`exchange` of src/server/mod.rs).
use rust_modbus.Prelude.{
  ◌≡◌, refl, ap, ◌∙◌, inl, inr, true, false, List, [], ◌∷◌, arith, if◌then◌else◌, Bool-cases, ok,
  err, stuck,
}
use rust_modbus.Error.{Error, Result, ends_stream, io}
use rust_modbus.Frame.Framing.{AduBoundary, is_self_locating}
use rust_modbus.Server.Framing.{ServerFraming}
use rust_modbus.Server.Service.{Service, Connection}
use rust_modbus.Server.Exchange.{
  ServerConfig, Pass, Progress, shutdown, received, is_eof, on_failure, pass, exchange, goes_on,
  after,
}

-- The passes without the frames that failed and left the stream usable.
unfoldable pub legible : {Header : Type 0} → List (Pass Header) → List (Pass Header)
unfolding ends_stream
legible [] = []
legible (shutdown ∷ passes) = shutdown ∷ legible passes
legible (received (ok frame) sent ∷ passes) = received (ok frame) sent ∷ legible passes
legible (received stuck sent ∷ passes) = received stuck sent ∷ legible passes
legible (received (err error) sent ∷ passes) =
    let rest = legible passes in
    if ends_stream error then received (err error) sent ∷ rest else rest

no-eof : (error : Error) → ends_stream error ≡ false → is_eof error ≡ false
unfolding ends_stream is_eof
no-eof (io kind code) h = cc
no-eof Error.malformed h = refl
no-eof _ h = ground arith

module _ {Header State : Type 0} (framing : ServerFraming Header) (boundary : AduBoundary)
    (service : Service State) (config : ServerConfig) (conn : Connection) where
  bad-frame :
      (error : Error) (sent : Result (Unit {0})) (state : State)
      → is_self_locating boundary ≡ true
      → ((error : Error) (state : State) → service.on_error conn error state ≡ state)
      → ends_stream error ≡ false
      → pass framing boundary service config conn (received (err error) sent) state
        ≡ goes_on state []
  unfolding pass on_failure
  bad-frame error sent state located quiet h =
      rw (no-eof error h, h, located, quiet error state) refl

  unfoldable Same : List (Pass Header) → List (Pass Header) → Type 0
  Same passes others =
      (state : State)
      → exchange framing boundary service config conn passes state
        ≡ exchange framing boundary service config conn others state

  exchange-cons :
      (p : Pass Header) (passes others : List (Pass Header))
      → Same passes others
      → Same (p ∷ passes) (p ∷ others)
  unfolding Same exchange
  exchange-cons p passes others h state =
      let now : Progress Header State = pass framing boundary service config conn p state in
      ap (after now) (h now.state)

  exchange-bad :
      (error : Error) (sent : Result (Unit {0})) (passes others : List (Pass Header))
      → is_self_locating boundary ≡ true
      → ((error : Error) (state : State) → service.on_error conn error state ≡ state)
      → ends_stream error ≡ false
      → Same passes others
      → Same (received (err error) sent ∷ passes) others
  unfolding Same exchange
  exchange-bad error sent passes others located quiet e h state =
      ap
        (λ (now : Progress Header State).
          after now (exchange framing boundary service config conn passes now.state))
        (bad-frame error sent state located quiet e)
      ∙ h state

  same :
      (passes : List (Pass Header))
      → is_self_locating boundary ≡ true
      → ((error : Error) (state : State) → service.on_error conn error state ≡ state)
      → Same passes (legible passes)
  unfolding legible Same
  same [] located quiet = λ state. refl
  same (shutdown ∷ passes) located quiet =
      exchange-cons shutdown passes (legible passes) (same passes located quiet)
  same (received (ok frame) sent ∷ passes) located quiet =
      exchange-cons (received (ok frame) sent) passes (legible passes) (same passes located quiet)
  same (received stuck sent ∷ passes) located quiet =
      exchange-cons (received stuck sent) passes (legible passes) (same passes located quiet)
  same (received (err error) sent ∷ passes) located quiet = elim (Bool-cases (ends_stream error)) [
    | inl e ↦ rw e (
        exchange-cons (received (err error) sent) passes (legible passes)
          (same passes located quiet))
    | inr e ↦ rw e (
        exchange-bad error sent passes (legible passes) located quiet e (same passes located quiet))
  ]

  -- Over a framing that finds its own boundaries, with a service that keeps its state when told of
  -- an error, frames that fail without ending the stream make no difference: the loop ends for the
  -- same reason and in the same state, with the same responses sent, as without them.
  pub exchange-legible :
      (passes : List (Pass Header)) (state : State)
      → is_self_locating boundary ≡ true
      → ((error : Error) (state : State) → service.on_error conn error state ≡ state)
      → exchange framing boundary service config conn passes state
        ≡ exchange framing boundary service config conn (legible passes) state
  unfolding Same
  exchange-legible passes state located quiet = same passes located quiet state
