-- ===== src/Driver/Interrupted.antt =====
-- apps/population_driver/machine.py: the two writes before the evidence adapter runs again.
use metering.Prelude.{
  ℕ, ◌+◌, ◌≡◌, refl, subst, ◌<◌, arith, ◌*◌, Bool, true, false, [], ◌∷◌, leb, ltb, if◌then◌else◌,
  ◌==◌,
}
use metering.Runtime.{after, require-eq-ok, ok, raise, require, driver_error}
use metering.Driver.Types.{DriverConfig}
use metering.Driver.Reservations.{
  Reserved, PendingRound, verify_reserved, evidence_writes, adapter_writes,
}

abbrev expected_reservation : DriverConfig → ℕ → ℕ
expected_reservation config n = (if leb 1 n then n else 1) * config.evidence_timeout

module _ {F : Type 0} (config : DriverConfig) where
  verify_reserved-same :
      (settled reserved : Reserved) (p : PendingRound F)
      → verify_reserved config.evidence_timeout settled p ≡ ok reserved
      → p.evidence_wall_reservation_seconds ≡ expected_reservation config p.evidence_attempts
  unfolding verify_reserved
  verify_reserved-same settled reserved p h =
      let same =
        p.evidence_wall_reservation_seconds == expected_reservation config p.evidence_attempts in
      after (require same driver_error) _ h
        λ u e k. ground (arith, require-eq-ok same driver_error e)

  verify_reserved-refused :
      (settled : Reserved) (p : PendingRound F)
      → (p.evidence_wall_reservation_seconds == expected_reservation config p.evidence_attempts)
        ≡ false
      → verify_reserved config.evidence_timeout settled p ≡ raise driver_error
  unfolding verify_reserved
  verify_reserved-refused settled p h = rw h refl

  writes-refused :
      (repeated limit_reached : Bool) (settled : Reserved) (p first second : PendingRound F)
      → leb 1 p.evidence_attempts ≡ repeated
      → 0 < config.evidence_timeout
      → p.evidence_wall_reservation_seconds ≡ expected_reservation config p.evidence_attempts
      → adapter_writes repeated limit_reached config p ≡ first ∷ second ∷ []
      → verify_reserved config.evidence_timeout settled first ≡ raise driver_error
  unfolding adapter_writes
  writes-refused false limit settled p first second e positive same h = cc
  writes-refused true true settled p first second e positive same h = cc
  writes-refused true false settled p first second e positive same h =
      let extended = record p {
        evidence_wall_reservation_seconds =
            p.evidence_wall_reservation_seconds + config.evidence_timeout;
      } in
      let is_first : extended ≡ first = cc in
      let differs : (p.evidence_wall_reservation_seconds + config.evidence_timeout
            == expected_reservation config p.evidence_attempts)
          ≡ false =
        ground (arith, same, positive) in
      subst
        (λ (q : PendingRound F).
          verify_reserved config.evidence_timeout settled q ≡ raise driver_error)
        is_first (verify_reserved-refused settled extended differs)

  -- Where the adapter runs again and its timeout is not 0, `run_evidence_adapter` writes the pending round
  -- twice, and replay refuses the first of the two: if the driver stops between the two writes, every later
  -- call raises PopulationDriverError.
  pub interrupted_adapter_refused :
      (settled reserved : Reserved) (pending first second : PendingRound F)
      → 0 < config.evidence_timeout
      → verify_reserved config.evidence_timeout settled pending ≡ ok reserved
      → evidence_writes config reserved pending ≡ first ∷ second ∷ []
      → verify_reserved config.evidence_timeout settled first ≡ raise driver_error
  unfolding evidence_writes
  interrupted_adapter_refused settled reserved pending first second positive v h =
      writes-refused (leb 1 pending.evidence_attempts)
        (ltb config.limits.max_wall_seconds
          (reserved.reserved_wall_seconds + config.evidence_timeout))
        settled pending first second refl positive (verify_reserved-same settled reserved pending v)
        h
