-- ===== src/Tests/Starts.antt =====
-- The theorems about the planner at a search of one candidate.
use metering.Prelude.{inr, none, ◌≡◌, refl, ◌++◌, ℕ, true, false, [], ◌∷◌}
use metering.Runtime.{ok, get}
use metering.Runtime.Dict.{find}
use metering.AgentProtocol.{item, require_utf8}
use metering.Population.Types.{development, head_id}
use metering.Population.State.{empty_state}
use metering.Population.Evidence.{within}
use metering.Driver.Types.{
  Context, start_round, stop, final_evidence_sealed, controller_timeout_seconds,
}
use metering.Driver.Costs.{total_cost, exceeds}
use metering.Driver.Planner.{
  plan, plan_pending, action_of, stop_status, stop_status_at, limit_status, resource_limit_status,
  final_phase_started, has_final_experiment, state_reaches_development_goal,
}
use metering.Driver.Rounds.{CanStart, plan-start_round, plan-CanStart, round_within_limit}
use metering.Driver.Final.{plan-HasFinalWork}
use metering.Tests.Samples.{toy, scored_run, digest, costs}
use metering.Tests.Ledgers.{
  with_candidate, with_run, with_final, final_run_entry, final_experiment, sealed_by_run,
}

abbrev pub context : Context ℕ
context = record {
  config = record {
    evaluator_timeout = 5;
    evidence_timeout = 5;
    experiment = record {
      behavior_space = "tested" ∷ [];
      budget = costs 5;
      case_count = 1;
      evaluator_id = digest;
      information_objective = false;
      role = development;
      runtime_id = digest;
      task_set_id = digest;
    };
    experiment_id = digest;
    limits = record {
      max_proposal_calls = 3;
      max_rounds = 2;
      max_total_candidate_cost = costs 40;
      max_wall_seconds = 1000;
    };
    proposer_timeout = 5;
    runner_timeout = 5;
    stopping = none;
    task_count = 1;
  };
  expected_parent_id = digest;
  last_population_head = digest;
  pending = none;
  population = with_candidate;
  proposal_calls = 1;
  reserved_wall_seconds = 100;
  round_count = 1;
}

started : plan context true ≡ ok start_round
unfolding plan plan_pending action_of stop_status stop_status_at limit_status resource_limit_status
    final_phase_started has_final_experiment state_reaches_development_goal total_cost exceeds
    head_id item get require_utf8 controller_timeout_seconds empty_state find
started = refl

plan-start_round_example : CanStart context
plan-start_round_example = plan-start_round context true started

plan-CanStart_example : plan context false ≡ ok start_round
plan-CanStart_example = plan-CanStart context false (plan-start_round context true started)

round_within_limit_example :
    within
      (total_cost
        (context.population.runs ++ scored_run ∷ scored_run ∷ [])
        context.config.experiment_id)
      context.config.limits.max_total_candidate_cost
    ≡ true
unfolding within
round_within_limit_example = round_within_limit context true scored_run scored_run started refl refl

-- The same search after the run of a final experiment.
abbrev final_context : Context ℕ
final_context = record context { population = with_run }

plan-HasFinalWork_example : plan final_context true ≡ ok (stop final_evidence_sealed)
unfolding find
plan-HasFinalWork_example =
    plan-HasFinalWork toy with_final (final_run_entry ∷ []) 3 final_context true
      (inr (digest, final_experiment, refl, refl)) sealed_by_run
