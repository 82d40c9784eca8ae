-- ===== src/Driver/Budget/Within.antt =====
-- apps/population_driver: each action of the driver keeps what is reserved within the limits.
use metering.Prelude.{
  ℕ, suc, ◌+◌, ◌≡◌, refl, ap, subst, sym, ◌∙◌, ◌≤◌, ◌<◌, arith, ◌*◌, Bool, true, false, none, some,
  List, [], ◌∷◌, length, leb, ltb, ◌==◌, ◌++◌, String, str_eq,
}
use metering.Runtime.{
  after, ok-injective, require-eq-ok, refuse-eq-ok, ok, require, refuse, driver_error, str,
  Platform,
}
use metering.AgentProtocol.{canonical_digest}
use native.Mathlib.Nat.{suc-mul}
use metering.Driver.Types.{Context, DriverConfig, controller_timeout_seconds}
use metering.Driver.Rounds.{CanStart, plan-start_round}
use metering.Driver.Attempts.{Attempt, new_attempt, attempt_identity}
use metering.Driver.Reservations.{
  Reserved, PendingRound, attempts_wall, reserve, replay_reserved, verify_reserved, evidence_writes,
  adapter_writes, start_pending, retry_pending, is_controller_pending,
}
use metering.Driver.Budget.{
  DriverCosts, last_written, Step, started, retried, marked, adapted, completed, Reachable, initial,
  then_step, PendingWithin, times_timeout, IsWithin,
}

module _ (P : Platform) (config : DriverConfig) where
  open P use {Float}

  new_attempt-wall :
      (intent_id : String) (ordinal : ℕ) (reason : String) (timeout : ℕ) {a : Attempt Float}
      → new_attempt P intent_id ordinal reason timeout ≡ ok a
      → a.wall_reservation_seconds ≡ timeout
  unfolding new_attempt
  new_attempt-wall intent_id ordinal reason timeout h =
      after (canonical_digest P (attempt_identity intent_id ordinal (str reason))) _ h
        λ id e k. sym (ap (λ (a : Attempt Float). a.wall_reservation_seconds) (ok-injective k))

  attempts_wall-append :
      (xs : List (Attempt Float)) (a : Attempt Float)
      → attempts_wall (xs ++ a ∷ []) ≡ attempts_wall xs + a.wall_reservation_seconds
  unfolding attempts_wall
  attempts_wall-append [] a = omega arith
  attempts_wall-append (x ∷ xs) a = omega (arith, attempts_wall-append xs a)

  length-append :
      (xs : List (Attempt Float)) (a : Attempt Float) → length (xs ++ a ∷ []) ≡ length xs + 1
  length-append [] a = refl
  length-append (x ∷ xs) a = omega (arith, length-append xs a)

  verify_reserved-totals :
      (settled reserved : Reserved) (pending : PendingRound Float)
      → verify_reserved config.evidence_timeout settled pending ≡ ok reserved
      → (reserved.proposal_calls ≡ settled.proposal_calls + length pending.attempts)
        × (reserved.reserved_wall_seconds
            ≡ settled.reserved_wall_seconds
              + attempts_wall pending.attempts
              + pending.evidence_wall_reservation_seconds)
        × (pending.evidence_wall_reservation_seconds
            ≡ times_timeout P config pending.evidence_attempts)
  unfolding verify_reserved reserve
  verify_reserved-totals settled reserved pending h =
      let expected = times_timeout P config pending.evidence_attempts in
      after (require (pending.evidence_wall_reservation_seconds == expected) driver_error) _ h
        λ u e k.
          let same : pending.evidence_wall_reservation_seconds ≡ expected = ground (
            arith,
            require-eq-ok (pending.evidence_wall_reservation_seconds == expected) driver_error e,
          ) in
          let calls = ap (λ (r : Reserved). r.proposal_calls) (ok-injective k) in
          let wall = ap (λ (r : Reserved). r.reserved_wall_seconds) (ok-injective k) in
          (
            sym calls,
            sym wall
                ∙ ap (λ n. settled.reserved_wall_seconds + attempts_wall pending.attempts + n)
                    (sym same),
            same,
          )

  started-IsWithin :
      (context : Context Float) (settled : Reserved) (intent_id : String)
      (pending : PendingRound Float)
      → context.config ≡ config
      → context.proposal_calls ≡ settled.proposal_calls
      → context.reserved_wall_seconds ≡ settled.reserved_wall_seconds
      → CanStart context
      → start_pending P config intent_id ≡ ok pending
      → PendingWithin P config settled (some pending)
  unfolding start_pending attempts_wall
  started-IsWithin context settled intent_id pending same calls wall can h =
      let timeout = controller_timeout_seconds config in
      after (new_attempt P intent_id 1 "initial bounded round attempt" timeout) _ h λ a e k.
        let one = new_attempt-wall intent_id 1 "initial bounded round attempt" timeout e in
        let proposals : settled.proposal_calls < config.limits.max_proposal_calls =
          subst (λ n. n < config.limits.max_proposal_calls) calls
            (subst (λ (c : DriverConfig). context.proposal_calls < c.limits.max_proposal_calls) same
              can.proposals) in
        let room : settled.reserved_wall_seconds + timeout + config.evidence_timeout
            ≤ config.limits.max_wall_seconds =
          subst (λ n. n + timeout + config.evidence_timeout ≤ config.limits.max_wall_seconds) wall
            (subst
              (λ (c : DriverConfig).
                context.reserved_wall_seconds + controller_timeout_seconds c + c.evidence_timeout
                ≤ c.limits.max_wall_seconds)
              same can.wall) in
        subst (λ (p : PendingRound Float). PendingWithin P config settled (some p)) (ok-injective k)
          (omega arith, omega (arith, proposals), omega (arith, room, one))

  retried-IsWithin :
      (settled reserved : Reserved) (has_receipt final unmoved : Bool) (intent_id reason : String)
      (pending next : PendingRound Float)
      → verify_reserved config.evidence_timeout settled pending ≡ ok reserved
      → retry_pending P config reserved has_receipt final unmoved intent_id reason pending ≡ ok next
      → PendingWithin P config settled (some next)
  unfolding retry_pending
  retried-IsWithin settled reserved has_receipt final unmoved intent_id reason pending next v h =
      let (calls, wall, same) = verify_reserved-totals settled reserved pending v in
      let timeout = controller_timeout_seconds config in
      let spent = leb config.limits.max_proposal_calls reserved.proposal_calls in
      let full = ltb config.limits.max_wall_seconds (reserved.reserved_wall_seconds + timeout) in
      after (require (str_eq pending.intent_id intent_id) driver_error) _ h λ u₁ e₁ h₁.
        after (require (is_controller_pending pending.stage) driver_error) _ h₁ λ u₂ e₂ h₂.
          after (refuse has_receipt driver_error) _ h₂ λ u₃ e₃ h₃.
            after (refuse final driver_error) _ h₃ λ u₄ e₄ h₄.
              after (require unmoved driver_error) _ h₄ λ u₅ e₅ h₅.
                after (refuse spent driver_error) _ h₅ λ u₆ e₆ h₆.
                  after (refuse full driver_error) _ h₆ λ u₇ e₇ h₇.
                    after
                      (new_attempt P pending.intent_id (length pending.attempts + 1) reason timeout)
                      _ h₇
                      λ a e₈ h₈.
                        let below : reserved.proposal_calls < config.limits.max_proposal_calls =
                          ground (arith, refuse-eq-ok spent driver_error e₆) in
                        let room : reserved.reserved_wall_seconds + timeout
                            ≤ config.limits.max_wall_seconds =
                          ground (arith, refuse-eq-ok full driver_error e₇) in
                        let one =
                          new_attempt-wall pending.intent_id (length pending.attempts + 1) reason
                            timeout e₈ in
                        let more = length-append pending.attempts a in
                        let walls = attempts_wall-append pending.attempts a in
                        subst (λ (p : PendingRound Float). PendingWithin P config settled (some p))
                          (ok-injective h₈)
                          (
                            same,
                            omega (arith, below, calls, more),
                            omega (arith, room, wall, one, walls),
                          )

  adapter_writes-IsWithin :
      (repeated limit_reached : Bool) (settled reserved : Reserved) (pending : PendingRound Float)
      → leb 1 pending.evidence_attempts ≡ repeated
      → ltb config.limits.max_wall_seconds
          (reserved.reserved_wall_seconds + config.evidence_timeout)
        ≡ limit_reached
      → PendingWithin P config settled (some pending)
      → verify_reserved config.evidence_timeout settled pending ≡ ok reserved
      → PendingWithin P config settled
          (some (last_written pending (adapter_writes repeated limit_reached config pending)))
  unfolding adapter_writes last_written
  adapter_writes-IsWithin false limit settled reserved pending first e (same, calls, wall) v =
      let none_yet : pending.evidence_attempts ≡ 0 = ground (arith, first) in
      (rw none_yet (ground (arith, same, first)), calls, wall)
  adapter_writes-IsWithin true true settled reserved pending repeated e w v = w
  adapter_writes-IsWithin true false settled reserved pending repeated room (same, calls, wall) v =
      let (total_calls, total, again) = verify_reserved-totals settled reserved pending v in
      let fits : reserved.reserved_wall_seconds + config.evidence_timeout
          ≤ config.limits.max_wall_seconds =
        ground (arith, room) in
      let expected : pending.evidence_wall_reservation_seconds
          ≡ pending.evidence_attempts * config.evidence_timeout =
        ground (arith, same, repeated) in
      let next = suc-mul pending.evidence_attempts config.evidence_timeout in
      let some_attempt : leb 1 (suc pending.evidence_attempts) ≡ true = ground arith in
      (
        rw some_attempt (ap (λ n. n + config.evidence_timeout) expected ∙ sym next),
        calls,
        omega (arith, fits, total),
      )

  adapted-IsWithin :
      (settled reserved : Reserved) (pending : PendingRound Float)
      → PendingWithin P config settled (some pending)
      → verify_reserved config.evidence_timeout settled pending ≡ ok reserved
      → PendingWithin P config settled
          (some (last_written pending (evidence_writes config reserved pending)))
  unfolding evidence_writes
  adapted-IsWithin settled reserved pending w v =
      adapter_writes-IsWithin (leb 1 pending.evidence_attempts)
        (ltb config.limits.max_wall_seconds
          (reserved.reserved_wall_seconds + config.evidence_timeout))
        settled reserved pending refl refl w v

  completed-IsWithin :
      (settled reserved : Reserved) (pending : PendingRound Float)
      → PendingWithin P config settled (some pending)
      → replay_reserved config.evidence_timeout settled pending ≡ ok reserved
      → PendingWithin P config reserved none
  unfolding replay_reserved reserve
  completed-IsWithin settled reserved pending (same, calls, wall) h =
      let expected = pending.evidence_attempts * config.evidence_timeout in
      after (require (leb 1 pending.evidence_attempts) driver_error) _ h λ u e₁ h₁.
        after (require (pending.evidence_wall_reservation_seconds == expected) driver_error) _ h₁
          λ w e₂ h₂.
            let equal : pending.evidence_wall_reservation_seconds ≡ expected = ground (
              arith,
              require-eq-ok (pending.evidence_wall_reservation_seconds == expected) driver_error e₂,
            ) in
            subst (λ (r : Reserved). PendingWithin P config r none) (ok-injective h₂)
              (calls, omega (arith, wall, equal))

  Step-IsWithin :
      (s t : DriverCosts Float) → IsWithin P config s → Step P config s t → IsWithin P config t
  Step-IsWithin s t w (started context allow settled intent_id pending same calls wall planned h) =
      started-IsWithin context settled intent_id pending same calls wall
        (plan-start_round context allow planned) h
  Step-IsWithin s t w
        (retried settled reserved has_receipt final unmoved intent_id reason pending next v h) =
      retried-IsWithin settled reserved has_receipt final unmoved intent_id reason pending next v h
  Step-IsWithin s t w (marked settled pending stage) = w
  Step-IsWithin s t w (adapted settled reserved pending v) =
      adapted-IsWithin settled reserved pending w v
  Step-IsWithin s t w (completed settled reserved pending h) =
      completed-IsWithin settled reserved pending w h

  -- In every state that the driver comes to, in whatever order it starts rounds, accepts retries, marks
  -- stages, runs the evidence adapter again to the last of its writes and completes rounds, the proposal
  -- calls and the reserved wall seconds, those of the pending round included, are within the limits of the
  -- configuration, and the evidence reservation of the pending round is the one that replay expects of it.
  pub Reachable-IsWithin : (s : DriverCosts Float) → Reachable P config s → IsWithin P config s
  Reachable-IsWithin s initial = (omega arith, omega arith)
  Reachable-IsWithin u (then_step s t r step) = Step-IsWithin s t (Reachable-IsWithin s r) step
