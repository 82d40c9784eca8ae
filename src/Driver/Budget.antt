-- ===== src/Driver/Budget.antt =====
-- apps/population_driver: whatever the driver does, in whatever order, it stays within its limits on proposal
-- calls and on reserved wall seconds.
pub mod Within
use metering.Prelude.{
  ℕ, suc, ◌+◌, ◌≡◌, refl, ap, subst, sym, ◌∙◌, ◌≤◌, ◌<◌, arith, ◌*◌, Bool, true, false, Option,
  none, some, List, [], ◌∷◌, length, leb, ltb, if◌then◌else◌, ◌==◌, ◌++◌, String, str_eq,
}
use metering.Runtime.{
  after, ok-injective, require-eq-ok, refuse-eq-ok, ok, require, refuse, driver_error, str,
  Platform,
}
use metering.AgentProtocol.{canonical_digest}
use native.Mathlib.Nat.{suc-mul}
use metering.Driver.Types.{Context, DriverConfig, Stage, controller_timeout_seconds, start_round}
use metering.Driver.Planner.{plan}
use metering.Driver.Rounds.{CanStart, plan-start_round}
use metering.Driver.Attempts.{Attempt, new_attempt, attempt_identity}
use metering.Driver.Reservations.{
  Reserved, PendingRound, attempts_wall, reserve, replay_reserved, verify_reserved, evidence_writes,
  adapter_writes, start_pending, retry_pending, is_controller_pending,
}

-- What the driver's files say of its reservations: those of the completed rounds, and the pending round.
pub record DriverCosts (F : Type 0) : Type 0 where
  pub settled : Reserved
  pub pending : Option (PendingRound F)

module _ {F : Type 0} where
  -- The pending round after a list of writes.
  unfoldable pub last_written : PendingRound F → List (PendingRound F) → PendingRound F
  last_written p [] = p
  last_written p (q ∷ written) = last_written q written

module _ (P : Platform) (config : DriverConfig) where
  open P use {Float}

  -- One action of the driver: it starts a round where the planner says so, accepts a retry, marks a stage,
  -- runs the evidence adapter, or completes the round. The writes before a run of the adapter are one action:
  -- the state between them, which replay refuses, is that of Driver.Interrupted.
  pub data Step : DriverCosts Float → DriverCosts Float → Type 0 where
    started :
        (context : Context Float) (allow_controller : Bool) (settled : Reserved)
        (intent_id : String) (pending : PendingRound Float)
        → context.config ≡ config
        → context.proposal_calls ≡ settled.proposal_calls
        → context.reserved_wall_seconds ≡ settled.reserved_wall_seconds
        → plan context allow_controller ≡ ok start_round
        → start_pending P config intent_id ≡ ok pending
        → Step
            (record { settled = settled; pending = none })
            (record { settled = settled; pending = some pending })
    retried :
        (settled reserved : Reserved) (has_receipt final unmoved : Bool) (intent_id reason : String)
        (pending next : PendingRound Float)
        → verify_reserved config.evidence_timeout settled pending ≡ ok reserved
        → retry_pending P config reserved has_receipt final unmoved intent_id reason pending
          ≡ ok next
        → Step
            (record { settled = settled; pending = some pending })
            (record { settled = settled; pending = some next })
    marked :
        (settled : Reserved) (pending : PendingRound Float) (stage : Stage)
        → Step
            (record { settled = settled; pending = some pending })
            (record { settled = settled; pending = some (record pending { stage = stage }) })
    adapted :
        (settled reserved : Reserved) (pending : PendingRound Float)
        → verify_reserved config.evidence_timeout settled pending ≡ ok reserved
        → Step
            (record { settled = settled; pending = some pending })
            (record {
              settled = settled;
              pending = some (last_written pending (evidence_writes config reserved pending));
            })
    completed :
        (settled reserved : Reserved) (pending : PendingRound Float)
        → replay_reserved config.evidence_timeout settled pending ≡ ok reserved
        → Step
            (record { settled = settled; pending = some pending })
            (record { settled = reserved; pending = none })

  -- The states that the driver comes to from an empty ledger.
  pub data Reachable : DriverCosts Float → Type 0 where
    initial : Reachable (record {
      settled = record { proposal_calls = 0; reserved_wall_seconds = 0 };
      pending = none;
    })
    then_step : (s t : DriverCosts Float) → Reachable s → Step s t → Reachable t

  abbrev pub times_timeout : ℕ → ℕ
  times_timeout n = (if leb 1 n then n else 1) * config.evidence_timeout

  abbrev WithinTotals : ℕ → ℕ → Type 0
  WithinTotals calls wall =
      (calls ≤ config.limits.max_proposal_calls) × (wall ≤ config.limits.max_wall_seconds)

  abbrev pub PendingWithin : Reserved → Option (PendingRound Float) → Type 0
  PendingWithin settled none = WithinTotals settled.proposal_calls settled.reserved_wall_seconds
  PendingWithin settled (some p) =
      (p.evidence_wall_reservation_seconds ≡ times_timeout p.evidence_attempts)
      × (settled.proposal_calls + length p.attempts ≤ config.limits.max_proposal_calls)
      × (settled.reserved_wall_seconds
            + attempts_wall p.attempts
            + p.evidence_wall_reservation_seconds
          ≤ config.limits.max_wall_seconds)

  -- The reservation of the pending round is the one that replay expects, and all that is reserved is within
  -- the limits.
  abbrev pub IsWithin : DriverCosts Float → Type 0
  IsWithin s = PendingWithin s.settled s.pending
