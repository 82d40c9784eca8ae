-- ===== src/Tests/Rounds.antt =====
-- The driver at a search of one candidate: a round that starts, a retry, an interrupted adapter, and an
-- ingestion that is repeated.
use metering.Prelude.{
  ℕ, ◌≡◌, refl, ap, arith, true, false, none, some, List, [], ◌∷◌, ltb, String, subset,
}
use metering.Runtime.{
  Result, ok, raise, ◌>>=◌, driver_error, str, arr, items, array, Fields, get, keys,
}
use metering.Runtime.Dict.{find}
use metering.AgentProtocol.{item, is_text, require_utf8, canonical_digest, canonical_json}
use metering.Runtime.{equals}
use metering.Runtime.Dict.{find}
use metering.Population.Types.{head_id, PopulationState}
use metering.Population.State.{empty_state}
use metering.Driver.Types.{
  Context, start_round, controller_pending, controller_complete, controller_timeout_seconds,
}
use metering.Driver.Costs.{total_cost, exceeds}
use metering.Driver.Planner.{
  plan, plan_pending, action_of, stop_status, stop_status_at, limit_status, resource_limit_status,
  final_phase_started, has_final_experiment, state_reaches_development_goal,
}
use metering.Driver.Attempts.{
  Attempt, attempt_identity, attempt_json, new_attempt, validate_attempts,
}
use metering.Driver.Attempts.Appended.{validate_attempts-new_attempt}
use metering.Driver.Reservations.{
  Reserved, PendingRound, reserve, attempts_wall, verify_reserved, evidence_writes, start_pending,
}
use metering.Driver.Budget.{DriverCosts, Step, Reachable, IsWithin}
use metering.Driver.Budget.Within.{Reachable-IsWithin}
use metering.Driver.Interrupted.{interrupted_adapter_refused}
use metering.Driver.Ingestion.{
  on_population_error, Population, Ensured, ensure_population_record, ensure_at, last_record,
}
use metering.Driver.Ingestion.Repeated.{ensure_population_record_idempotent}
use metering.Controller.Generations.{is_nonempty_text}
use metering.Tests.Samples.{toy, digest, candidate_document}
use metering.Tests.Ledgers.{
  header, ledger, empty_population, candidate_entry, with_candidate, appended,
}
use metering.Tests.Starts.{context}

abbrev fresh_context : Context ℕ
fresh_context = record context { proposal_calls = 0; reserved_wall_seconds = 0 }

abbrev attempt_at : ℕ → String → Attempt ℕ
attempt_at ordinal reason = record {
  attempt_id = digest;
  ordinal = ordinal;
  reason = str reason;
  retry = ltb 1 ordinal;
  wall_reservation_seconds = 100;
}

abbrev first_attempt : Attempt ℕ
first_attempt = attempt_at 1 "initial bounded round attempt"

abbrev nothing_reserved : Reserved
nothing_reserved = record { proposal_calls = 0; reserved_wall_seconds = 0 }

abbrev first_pending : PendingRound ℕ
first_pending = record {
  attempts = first_attempt ∷ [];
  evidence_attempts = 0;
  evidence_wall_reservation_seconds = 5;
  intent_id = "intent";
  stage = controller_pending;
}

abbrev begun : DriverCosts ℕ
begun = record { settled = nothing_reserved; pending = some first_pending }

planned : plan fresh_context true ≡ ok start_round
unfolding plan plan_pending action_of stop_status stop_status_at limit_status resource_limit_status
    final_phase_started has_final_experiment state_reaches_development_goal total_cost exceeds
    head_id item get require_utf8 controller_timeout_seconds empty_state find
planned = refl

made : start_pending toy fresh_context.config "intent" ≡ ok first_pending
unfolding start_pending new_attempt attempt_identity canonical_digest canonical_json
    controller_timeout_seconds
made = refl

began : Reachable toy fresh_context.config begun
began =
    Reachable.then_step (record { settled = nothing_reserved; pending = none }) begun
      Reachable.initial
      (Step.started fresh_context true nothing_reserved "intent" first_pending refl refl refl
        planned made)

Reachable-IsWithin_example : IsWithin toy fresh_context.config begun
Reachable-IsWithin_example = Reachable-IsWithin toy fresh_context.config begun began

accepted_attempts :
    validate_attempts toy "intent" 100 (arr (array (attempt_json first_attempt ∷ [])))
    ≡ ok (first_attempt ∷ [])
unfolding validate_attempts array attempt_json subset keys get item is_nonempty_text equals
    canonical_digest is_text items
accepted_attempts = refl

remade : new_attempt toy "intent" 2 "again" 100 ≡ ok (attempt_at 2 "again")
unfolding new_attempt attempt_identity canonical_digest canonical_json
remade = refl

validate_attempts-new_attempt_example :
    validate_attempts toy "intent" 100
      (arr (array (attempt_json first_attempt ∷ attempt_json (attempt_at 2 "again") ∷ [])))
    ≡ ok (first_attempt ∷ attempt_at 2 "again" ∷ [])
validate_attempts-new_attempt_example =
    validate_attempts-new_attempt toy "intent" 100 (attempt_json first_attempt ∷ [])
      (first_attempt ∷ []) "again" (attempt_at 2 "again") refl accepted_attempts remade

-- The adapter has run once.
abbrev adapted_once : PendingRound ℕ
adapted_once = record first_pending { evidence_attempts = 1; stage = controller_complete }

abbrev extended : PendingRound ℕ
extended = record adapted_once { evidence_wall_reservation_seconds = 10 }

abbrev reserved_once : Reserved
reserved_once = record { proposal_calls = 1; reserved_wall_seconds = 105 }

verified_once : verify_reserved 5 nothing_reserved adapted_once ≡ ok reserved_once
unfolding verify_reserved reserve attempts_wall
verified_once = refl

written_twice :
    evidence_writes fresh_context.config reserved_once adapted_once
    ≡ extended ∷ record extended { evidence_attempts = 2 } ∷ []
unfolding evidence_writes
written_twice = refl

interrupted_adapter_refused_example :
    verify_reserved 5 nothing_reserved extended ≡ raise driver_error
interrupted_adapter_refused_example =
    interrupted_adapter_refused fresh_context.config nothing_reserved reserved_once adapted_once
      extended (record extended { evidence_attempts = 2 }) (omega arith) verified_once written_twice

abbrev ingested : Ensured ℕ
ingested = record {
  record_fields = candidate_entry;
  next_sequence = 2;
  population = record { ledger = ledger; state = with_candidate };
}

abbrev before : Population ℕ
before = record { ledger = header ∷ []; state = empty_population }

ingests : ensure_population_record toy before true 1 "candidate" candidate_document ≡ ok ingested
unfolding ensure_population_record ensure_at last_record empty_state
ingests =
    ap
      (λ (m : Result (PopulationState ℕ × List (Fields ℕ))). on_population_error m >>= (λ a.
        last_record toy a.0.records >>= (λ r. ok (record {
          record_fields = r;
          next_sequence = 2;
          population = record { ledger = a.1; state = a.0 };
        }))))
      appended

dumped : canonical_json toy candidate_document ≡ ok "{}"
unfolding canonical_json
dumped = refl

ensure_population_record_idempotent_example :
    ensure_population_record toy ingested.population false 1 "candidate" candidate_document
    ≡ ok ingested
ensure_population_record_idempotent_example =
    ensure_population_record_idempotent toy before true false 1 "candidate" candidate_document "{}"
      ingested dumped ingests
