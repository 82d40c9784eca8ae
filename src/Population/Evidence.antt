-- ===== src/Population/Evidence.antt =====
-- apps/population/population_protocol.py: distributions, information models and the evidence of a run.
pub mod Documents
use mathlib.Core.Option
use metering.Prelude.{
  ℕ, zero, suc, ◌+◌, ◌*◌, ◌-◌, ◌/◌, Bool, true, false, ◌&&◌, ◌||◌, not, Option, none, some, List,
  [], ◌∷◌, map, length, any, all, leb, ltb, if◌then◌else◌, ◌==◌, filter, ◌++◌, String, str_eq,
  any_char, is_hex, subset, count, contains, sort_by, text_lt, get_elem?,
}
use metering.Prelude.Int.{ℤ, pos, negsuc}
use metering.Runtime.{
  Result, ok, raise, ◌>>=◌, ◌>>◌, require, refuse, traverse, or_raise, on_protocol_error,
  on_key_error, on_probability_error, Failure, protocol_error, population_error, request_error,
  value_error, key_error, type_error, index_error, Json, null, bool, int, float, str, surrogates,
  arr, obj, items, array, Platform, Fields, Items, get, has_key, without, keys, end, field, nil,
  cons,
}
use metering.Runtime.Dict.{Dict, find, put, member}
use metering.AgentProtocol
use metering.AgentProtocol.{
  require_object, require_nonempty_array, item, is_text, get_is_text, require_exact_keys,
  require_utf8, require_nonempty_string, require_sha256, require_bool, canonical_digest,
  canonical_json, require_same_json, normalize_json_value, finite_number, probability,
}
use metering.AgentProtocol.Artifact.{
  Artifact, ArtifactFile, Candidate, default, git, skill, decode_candidate, candidate_record,
  candidate_json, normalized_path, find_file, file_before, decode_files, file_json,
}
use metering.Information.Measures.{entropy, mutual_information, self_information}
use metering.Population.Types.{
  Resources, Experiment, Bits, Outcome, InformationModel, Task, Evidence, Measurements,
}
use metering.Population.Schema.{positive_integer, nonnegative_integer, resources}

-- `all(cost[name] <= budget[name] for name in RESOURCE_NAMES)`
unfoldable pub within : Resources → Resources → Bool
within cost budget =
    leb cost.actions budget.actions
    && leb cost.energy_millijoules budget.energy_millijoules
    && leb cost.gpu_milliseconds budget.gpu_milliseconds
    && leb cost.memory_bytes budget.memory_bytes
    && leb cost.storage_bytes budget.storage_bytes
    && leb cost.tokens budget.tokens
    && leb cost.wall_milliseconds budget.wall_milliseconds

abbrev is_none {ℓ} : {A : Type ℓ} → Option A → Bool
is_none none = true
is_none (some a) = false

module _ {F : Type 0} where
  -- `raw_targets` of the right length
  array_of_length : ℕ → Json F → Result (List (Json F))
  array_of_length n (arr vs) = do require (length (items vs) == n) protocol_error; ok (items vs)
  array_of_length n other = raise protocol_error

  unfoldable pub decode_task : ℕ → Json F → Result Task
  decode_task expected_count value = do
    d ← require_object value
    require_exact_keys d ("case_count" ∷ "passed_count" ∷ "safety_failures" ∷ [])
    case_count ← item "case_count" d >>= positive_integer
    require (case_count == expected_count) protocol_error
    passed_count ← item "passed_count" d >>= nonnegative_integer
    refuse (ltb case_count passed_count) protocol_error
    safety_failures ← item "safety_failures" d >>= nonnegative_integer
    refuse (ltb case_count safety_failures) protocol_error
    ok (record {
      case_count = case_count;
      passed_count = passed_count;
      safety_failures = safety_failures;
    })

  -- `evidence_receipt`: the digest and the URI
  decode_receipt : Json F → Result (String × String)
  decode_receipt value = do
    d ← require_object value
    require_exact_keys d ("sha256" ∷ "uri" ∷ [])
    sha256 ← item "sha256" d >>= require_sha256
    uri ← item "uri" d >>= require_nonempty_string
    ok (sha256, uri)

module _ (P : Platform) where
  open P use {Float, literal, inf, is_inf, mul, div, of_int, int_div, fsum, is_close}

  -- A list of floats as the argument of a measure, whose base is 2 by default.
  abbrev pub floats : List Float → Json Float
  floats xs = arr (array (map float xs))

  abbrev pub base_two : Json Float
  base_two = int (pos 2)

  -- `_finite_or_infinite`
  unfoldable pub finite_or_infinite : Float → Bits Float
  finite_or_infinite value = record {
    infinite = is_inf value;
    value = if is_inf value then none else some value;
  }

  abbrev length_matches : Option ℕ → List Float → Bool
  length_matches none xs = true
  length_matches (some n) xs = length xs == n

  -- `_distribution`
  unfoldable pub normalize_distribution : Json Float → Option ℕ → Result (List Float)
  normalize_distribution value expected = do
    vs ← require_nonempty_array value
    probabilities ← traverse (probability P) vs
    require (length_matches expected probabilities) protocol_error
    measured ← on_probability_error protocol_error (entropy P (floats probabilities) base_two)
    ok probabilities

  decode_outcome : ℕ → Json Float → Result (Outcome Float)
  decode_outcome width value = do
    d ← require_object value
    require_exact_keys d ("posterior" ∷ "probability" ∷ [])
    outcome_probability ← item "probability" d >>= probability P
    raw_posterior ← item "posterior" d
    posterior ← normalize_distribution raw_posterior (some width)
    ok (record { posterior = posterior; probability = outcome_probability })

  -- `[outcome_probability * item for item in posterior]`
  joint_row : Outcome Float → List Float
  joint_row outcome = map (mul outcome.probability) outcome.posterior

  -- `for hypothesis, expected in enumerate(prior)`: the posteriors recover the prior.
  require_recovered : List (List Float) → ℕ → List Float → Result (Unit {0})
  require_recovered joint hypothesis [] = ok tt
  require_recovered joint hypothesis (expected ∷ prior) = do
    entries ← traverse (λ row. or_raise index_error (get_elem? row hypothesis)) joint
    marginal ← fsum entries
    require (is_close marginal expected (literal "1e-12")) protocol_error
    require_recovered joint (hypothesis + 1) prior

  decode_information_model : Fields Float → Result (InformationModel Float × Float)
  unfolding decode_outcome joint_row require_recovered
  decode_information_model d = do
    require_exact_keys d ("outcomes" ∷ "prior" ∷ [])
    raw_prior ← item "prior" d
    prior ← normalize_distribution raw_prior none
    raw_outcomes ← item "outcomes" d >>= require_nonempty_array
    outcomes ← traverse (decode_outcome (length prior)) raw_outcomes
    measured ←
        on_probability_error protocol_error
          (entropy P (floats (map (λ outcome. outcome.probability) outcomes)) base_two)
    require_recovered (map joint_row outcomes) 0 prior
    information ←
        on_probability_error protocol_error
          (mutual_information P (arr (array (map floats (map joint_row outcomes)))) base_two)
    ok (record { outcomes = outcomes; prior = prior }, information)

  -- `_information_model`: the model and its mutual information, or neither
  unfoldable pub information_model : Json Float → Result (Option (InformationModel Float × Float))
  unfolding decode_information_model
  information_model null = ok none
  information_model other = do
    d ← require_object other
    decoded ← decode_information_model d
    ok (some decoded)

  unfoldable pub mean_surprisal : List Float → ℕ → Result Float
  mean_surprisal surprisals case_count =
      if any is_inf surprisals
      then ok inf
      else do total ← fsum surprisals; cases ← of_int (pos case_count); div total cases

  -- `_run_evidence`
  unfoldable pub run_evidence :
      Json Float → Experiment → Result (Evidence Float × Measurements Float)
  unfolding decode_receipt array_of_length mean_surprisal finite_or_infinite
  run_evidence value experiment = do
    d ← require_object value
    require_exact_keys d (
        "behavior_distribution" ∷ "cost" ∷ "evidence_receipt" ∷ "information_model"
        ∷ "protected_passed" ∷ "target_probabilities" ∷ "task" ∷ [])
    task ← item "task" d >>= decode_task experiment.case_count
    raw_targets ← item "target_probabilities" d >>= array_of_length task.case_count
    targets ← traverse (probability P) raw_targets
    surprisals ← traverse (λ target. self_information P (float target) base_two) targets
    mean ← mean_surprisal surprisals task.case_count
    receipt ← item "evidence_receipt" d >>= decode_receipt
    raw_behavior ← item "behavior_distribution" d
    behavior ← normalize_distribution raw_behavior (some (length experiment.behavior_space))
    information ← item "information_model" d >>= information_model
    refuse (experiment.information_objective && is_none information) protocol_error
    cost ← item "cost" d >>= resources nonnegative_integer
    protected_passed ← item "protected_passed" d >>= require_bool
    task_rate ← int_div task.passed_count task.case_count
    let budget_passed = within cost experiment.budget
    ok (
      record {
        behavior_distribution = behavior;
        cost = cost;
        receipt_sha256 = receipt.0;
        receipt_uri = receipt.1;
        information_model = Option.map (λ pair. pair.0) information;
        protected_passed = protected_passed;
        target_probabilities = targets;
        task = task;
      },
      record {
        budget_passed = budget_passed;
        information_value_bits = Option.map (λ pair. pair.1) information;
        mean_target_surprisal_bits = finite_or_infinite mean;
        survival_passed = protected_passed && task.safety_failures == 0 && budget_passed;
        task_rate = task_rate;
      },
    )
