-- ===== src/Population/Types.antt =====
-- apps/population/population_protocol.py: the normalized contents of the ledger, as records. `F` is the
-- type of floats.
use metering.Prelude.{ℕ, Bool, Option, List, [], ◌∷◌, String}
use metering.Runtime.{Result, ok, raise, ◌>>=◌, index_error, Json, Fields}
use metering.Runtime.Dict.{Dict}
use metering.AgentProtocol.{item, require_utf8}
use metering.AgentProtocol.Artifact.{Candidate}

-- `RESOURCE_NAMES`, a field for each name
pub record Resources : Type 0 where
  pub actions : ℕ
  pub energy_millijoules : ℕ
  pub gpu_milliseconds : ℕ
  pub memory_bytes : ℕ
  pub storage_bytes : ℕ
  pub tokens : ℕ
  pub wall_milliseconds : ℕ

pub data Role : Type 0 where
  development final : Role

-- its `type` is always `ARCHIVE_POLICY`
pub record ArchivePolicy (F : Type 0) : Type 0 where
  pub capacity : ℕ
  pub reliability_kappa : F

pub record Configuration (F : Type 0) : Type 0 where
  pub archive_policy : ArchivePolicy F
  pub name : String

pub record Locus : Type 0 where
  pub path : String
  pub parent_candidate_id : String

pub data Variation (F : Type 0) : Type 0 where
  -- seed-v1: `choice`
  seed : Json F → Variation F
  -- mutation-v1: `choice`, `policy_id`
  mutation : Json F → String → Variation F
  -- typed-recombination-v1: `loci`, `policy_id`
  recombination : List Locus → String → Variation F

pub record CandidateBody (F : Type 0) : Type 0 where
  pub candidate : Candidate
  pub parents : List String
  pub variation : Variation F

pub record Experiment : Type 0 where
  pub behavior_space : List String
  pub budget : Resources
  pub case_count : ℕ
  pub evaluator_id : String
  pub information_objective : Bool
  pub role : Role
  pub runtime_id : String
  pub task_set_id : String

pub record ExperimentBody : Type 0 where
  pub experiment : Experiment
  pub experiment_id : String

-- `{"infinite": ..., "value": ...}`
pub record Bits (F : Type 0) : Type 0 where
  pub infinite : Bool
  pub value : Option F

pub record Outcome (F : Type 0) : Type 0 where
  pub posterior : List F
  pub probability : F

pub record InformationModel (F : Type 0) : Type 0 where
  pub outcomes : List (Outcome F)
  pub prior : List F

pub record Task : Type 0 where
  pub case_count : ℕ
  pub passed_count : ℕ
  pub safety_failures : ℕ

pub record Evidence (F : Type 0) : Type 0 where
  pub behavior_distribution : List F
  pub cost : Resources
  pub receipt_sha256 : String
  pub receipt_uri : String
  pub information_model : Option (InformationModel F)
  pub protected_passed : Bool
  pub target_probabilities : List F
  pub task : Task

pub record Measurements (F : Type 0) : Type 0 where
  pub budget_passed : Bool
  pub information_value_bits : Option F
  pub mean_target_surprisal_bits : Bits F
  pub survival_passed : Bool
  pub task_rate : F

pub record Run (F : Type 0) : Type 0 where
  pub candidate_id : String
  pub experiment_id : String
  pub replicate_id : String
  pub run_id : String
  pub seed : Json F

pub record RunBody (F : Type 0) : Type 0 where
  pub evidence : Evidence F
  pub measurements : Measurements F
  pub run : Run F

-- `_candidate_aggregate`
pub record Metric (F : Type 0) : Type 0 where
  pub behavior_distribution : List F
  pub candidate_id : String
  pub cost : Resources
  pub information_value_bits : Option F
  pub mean_target_surprisal_bits : Bits F
  pub novelty_bits : Bits F
  pub reliability : F
  pub replicate_count : ℕ
  pub survival_passed : Bool
  pub case_count : ℕ
  pub passed_count : ℕ
  pub rate : F

pub data Reason : Type 0 where
  unevaluated infeasible dominated over_capacity : Reason

pub record Archive (F : Type 0) : Type 0 where
  pub eligible_count : ℕ
  pub evaluated_count : ℕ
  pub excluded : List (String × Reason)
  pub experiment_id : String
  pub members : List (Metric F)
  -- direction and name
  pub objectives : List (String × String)
  pub policy : ArchivePolicy F

pub record Draw : Type 0 where
  pub denominator : ℕ
  pub numerator : ℕ

pub record Allocation : Type 0 where
  pub archive_record_id : String
  pub draw : Draw
  pub ordered_candidates : List String
  pub selected_candidate_id : String

-- `PopulationState`. A record of the ledger stays the object that was read.
pub record PopulationState (F : Type 0) : Type 0 where
  pub configuration : Configuration F
  pub records : List (Fields F)
  pub records_by_id : Dict (Fields F)
  pub candidates : Dict Candidate
  pub candidate_record_ids : Dict String
  pub candidate_parents : Dict (List String)
  pub experiments : Dict Experiment
  pub experiment_record_ids : Dict String
  pub runs : List (RunBody F)
  pub run_record_ids : Dict String
  pub run_keys : List (String × String × String)
  pub archives : Dict (Archive F)
  pub archive_sequences : Dict ℕ
  pub latest_archive_by_experiment : Dict String
  pub allocations : List (String × Allocation)
  pub final_evaluation_started : Bool
  pub last_run_sequence_by_experiment : Dict ℕ

module _ {F : Type 0} where
  last_record : List (Fields F) → Result (Fields F)
  last_record [] = raise index_error
  last_record (r ∷ []) = ok r
  last_record (r ∷ r' ∷ rs) = last_record (r' ∷ rs)

  -- `str(record["record_id"])`: the identity of a record in a state is a text
  unfoldable pub record_identity : Fields F → Result String
  record_identity r = do v ← item "record_id" r; require_utf8 v

  -- `head_id`
  unfoldable pub head_id : PopulationState F → Result String
  unfolding last_record record_identity
  head_id state = do r ← last_record state.records; record_identity r
