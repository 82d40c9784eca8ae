-- ===== src/Driver/Types.antt =====
-- apps/population_driver/population_driver_protocol.py and planner.py: what the planner reads of the
-- configuration, the replayed context and the pending round, and the actions.
use metering.Prelude.{ℕ, ◌+◌, ◌*◌, Bool, Option, [], ◌∷◌, ltb, String}
use metering.Runtime.{Result, ok, ◌>>=◌, ◌>>◌, require, refuse, protocol_error, Json}
use metering.AgentProtocol.{require_object, require_exact_keys, get_is_text, item}
use metering.Population.Types.{Resources, Experiment, PopulationState}
use metering.Population.Schema.{positive_integer, nonnegative_integer, resources}

-- `config["limits"]`
pub record Limits : Type 0 where
  pub max_proposal_calls : ℕ
  pub max_rounds : ℕ
  pub max_total_candidate_cost : Resources
  pub max_wall_seconds : ℕ

-- `config["stopping"]`, whose `type` is always `STOPPING_POLICY_TYPE`
pub record Stopping : Type 0 where
  pub minimum_replicates : ℕ

-- The parts of the configuration that the planner reads.
pub record DriverConfig : Type 0 where
  pub evaluator_timeout : ℕ
  pub evidence_timeout : ℕ
  pub experiment : Experiment
  pub experiment_id : String
  pub limits : Limits
  pub proposer_timeout : ℕ
  pub runner_timeout : ℕ
  pub stopping : Option Stopping
  pub task_count : ℕ

pub data Stage : Type 0 where
  controller_pending controller_complete evidence_complete : Stage

pub record Pending : Type 0 where
  pub population_start_record_id : String
  pub stage : Stage

-- `context`; of the rounds the planner reads the number, and no parent is the empty text.
pub record Context (F : Type 0) : Type 0 where
  pub config : DriverConfig
  pub expected_parent_id : String
  pub last_population_head : String
  pub pending : Option Pending
  pub population : PopulationState F
  pub proposal_calls : ℕ
  pub reserved_wall_seconds : ℕ
  pub round_count : ℕ

pub data Status : Type 0 where
  final_evidence_sealed development_goal_reached round_limit : Status
  population_state_advanced empty_archive proposal_call_limit : Status
  candidate_cost_limit wall_reservation_limit : Status

-- `DriverAction`
pub data Action : Type 0 where
  advance_pending : Bool → Action
  start_round : Action
  stop : Status → Action

module _ {F : Type 0} where
  -- `_limits`
  unfoldable pub decode_limits : Json F → Result Limits
  decode_limits value = do
    d ← require_object value
    require_exact_keys d
        ("max_proposal_calls" ∷ "max_rounds" ∷ "max_total_candidate_cost" ∷ "max_wall_seconds" ∷ [])
    rounds ← item "max_rounds" d >>= positive_integer
    proposals ← item "max_proposal_calls" d >>= positive_integer
    refuse (ltb proposals rounds) protocol_error
    cost ← item "max_total_candidate_cost" d >>= resources nonnegative_integer
    wall ← item "max_wall_seconds" d >>= positive_integer
    ok (record {
      max_proposal_calls = proposals;
      max_rounds = rounds;
      max_total_candidate_cost = cost;
      max_wall_seconds = wall;
    })

  -- `normalize_stopping_policy`
  unfoldable pub normalize_stopping_policy : Json F → Result Stopping
  normalize_stopping_policy value = do
    d ← require_object value
    require_exact_keys d ("minimum_replicates" ∷ "type" ∷ [])
    require (get_is_text "type" d "all-development-cases-pass-v1") protocol_error
    replicates ← item "minimum_replicates" d >>= positive_integer
    ok (record { minimum_replicates = replicates })

-- `agent_generation_timeout_seconds` of apps/controller/contract.py
unfoldable pub agent_generation_timeout_seconds : ℕ → ℕ → ℕ → ℕ → ℕ
agent_generation_timeout_seconds proposer runner evaluator task_count =
    proposer + 10 + task_count * (2 * (runner + 10) + evaluator + 10) + 4 * 10

unfoldable pub controller_timeout_seconds : DriverConfig → ℕ
unfolding agent_generation_timeout_seconds
controller_timeout_seconds config =
    agent_generation_timeout_seconds config.proposer_timeout config.runner_timeout
      config.evaluator_timeout config.task_count
