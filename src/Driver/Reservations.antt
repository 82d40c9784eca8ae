-- ===== src/Driver/Reservations.antt =====
-- apps/population_driver/machine.py, runtime.py and replay.py: the proposal calls and the wall seconds that
-- a round reserves. A pending round has here the fields that the reservations are made of.
use metering.Prelude.{
  ℕ, suc, ◌+◌, ◌*◌, Bool, true, false, List, [], ◌∷◌, length, leb, ltb, if◌then◌else◌, ◌==◌, ◌++◌,
  String, str_eq,
}
use metering.Runtime.{Result, ok, ◌>>=◌, ◌>>◌, require, refuse, driver_error, Platform}
use metering.Driver.Types.{DriverConfig, Stage, controller_pending, controller_timeout_seconds}
use metering.Driver.Attempts.{Attempt, new_attempt}

-- `proposal_calls` and `reserved_wall_seconds` of the cursor
pub record Reserved : Type 0 where
  pub proposal_calls : ℕ
  pub reserved_wall_seconds : ℕ

pub record PendingRound (F : Type 0) : Type 0 where
  pub attempts : List (Attempt F)
  pub evidence_attempts : ℕ
  pub evidence_wall_reservation_seconds : ℕ
  pub intent_id : String
  pub stage : Stage

pub is_controller_pending : Stage → Bool
is_controller_pending controller_pending = true
is_controller_pending other = false

module _ {F : Type 0} where
  -- `sum(int(attempt["wall_reservation_seconds"]) for attempt in attempts)`
  unfoldable pub attempts_wall : List (Attempt F) → ℕ
  attempts_wall [] = 0
  attempts_wall (a ∷ attempts) = a.wall_reservation_seconds + attempts_wall attempts

  -- The cursor's additions for a round: its attempts, their walls and the evidence reservation.
  unfoldable pub reserve : Reserved → List (Attempt F) → ℕ → Reserved
  unfolding attempts_wall
  reserve cursor attempts evidence = record {
    proposal_calls = cursor.proposal_calls + length attempts;
    reserved_wall_seconds = cursor.reserved_wall_seconds + attempts_wall attempts + evidence;
  }

  -- The reservations of a completed round.
  unfoldable pub replay_reserved : ℕ → Reserved → PendingRound F → Result Reserved
  unfolding reserve
  replay_reserved evidence_timeout cursor round = do
    require (leb 1 round.evidence_attempts) driver_error
    require (round.evidence_wall_reservation_seconds == round.evidence_attempts * evidence_timeout)
        driver_error
    ok (reserve cursor round.attempts (round.evidence_attempts * evidence_timeout))

  -- Those of a pending round: `max(1, evidence_attempts) * evidence_timeout`
  unfoldable pub verify_reserved : ℕ → Reserved → PendingRound F → Result Reserved
  unfolding reserve
  verify_reserved evidence_timeout cursor pending = do
    let expected =
        (if leb 1 pending.evidence_attempts then pending.evidence_attempts else 1)
        * evidence_timeout
    require (pending.evidence_wall_reservation_seconds == expected) driver_error
    ok (reserve cursor pending.attempts expected)

  -- The pending rounds with other reservations that `run_evidence_adapter` writes before it runs the adapter,
  -- in order: none where the adapter has run before and the limit is reached, which it only notes as the
  -- last error.
  unfoldable pub adapter_writes :
      Bool → Bool → DriverConfig → PendingRound F → List (PendingRound F)
  adapter_writes false limit_reached config pending =
      record pending { evidence_attempts = suc pending.evidence_attempts } ∷ []
  adapter_writes true true config pending = []
  adapter_writes true false config pending =
      let extended = record pending {
        evidence_wall_reservation_seconds =
            pending.evidence_wall_reservation_seconds + config.evidence_timeout;
      } in
      extended ∷ record extended { evidence_attempts = suc pending.evidence_attempts } ∷ []

  unfoldable pub evidence_writes : DriverConfig → Reserved → PendingRound F → List (PendingRound F)
  unfolding adapter_writes
  evidence_writes config reserved pending =
      adapter_writes (leb 1 pending.evidence_attempts)
        (ltb config.limits.max_wall_seconds
          (reserved.reserved_wall_seconds + config.evidence_timeout))
        config pending

module _ (P : Platform) where
  open P use {Float}

  -- `start_pending`, from the intent of the round
  unfoldable pub start_pending : DriverConfig → String → Result (PendingRound Float)
  start_pending config intent_id = do
    attempt ←
        new_attempt P intent_id 1 "initial bounded round attempt"
          (controller_timeout_seconds config)
    ok (record {
      attempts = attempt ∷ [];
      evidence_attempts = 0;
      evidence_wall_reservation_seconds = config.evidence_timeout;
      intent_id = intent_id;
      stage = controller_pending;
    })

  -- `retry_population_driver` from the retry's intent and reason on. The arguments say whether a receipt
  -- exists, whether the final phase has started and whether the population is at the round's start.
  unfoldable pub retry_pending :
      DriverConfig
      → Reserved
      → Bool
      → Bool
      → Bool
      → String
      → String
      → PendingRound Float
      → Result (PendingRound Float)
  unfolding is_controller_pending
  retry_pending config reserved has_receipt final unmoved intent_id reason pending = do
    require (str_eq pending.intent_id intent_id) driver_error
    require (is_controller_pending pending.stage) driver_error
    refuse has_receipt driver_error
    refuse final driver_error
    require unmoved driver_error
    refuse (leb config.limits.max_proposal_calls reserved.proposal_calls) driver_error
    let controller_timeout = controller_timeout_seconds config
    refuse
        (ltb config.limits.max_wall_seconds (reserved.reserved_wall_seconds + controller_timeout))
        driver_error
    attempt ←
        new_attempt P pending.intent_id (length pending.attempts + 1) reason controller_timeout
    ok (record pending { attempts = pending.attempts ++ attempt ∷ [] })
