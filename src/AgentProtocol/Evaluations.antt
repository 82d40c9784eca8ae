-- ===== src/AgentProtocol/Evaluations.antt =====
-- apps/agent_protocol.py: tasks, forecasts, candidate runs and observer evaluations. The documents that
-- the decoders build are records here, with `_json` for the document of one.
pub mod Again
pub mod Refusals
pub mod Nesting
pub mod Errors
pub mod Runs
pub mod Forecasts
pub mod Observer
pub mod Stable
use metering.Prelude.{
  has_duplicate, Bool, false, ◌||◌, List, [], ◌∷◌, map, length, ◌==◌, String, contains, sort_by,
  text_lt,
}
use metering.Prelude.Int.{pos}
use metering.Runtime.{
  Result, ok, raise, ◌>>=◌, ◌>>◌, require, refuse, traverse, protocol_error, Json, bool, int, float,
  str, arr, obj, items, array, Platform, end, field,
}
use metering.AgentProtocol.{
  require_object, require_nonempty_array, item, is_text, require_exact_keys,
  require_nonempty_string, require_sha256, require_bool, require_schema_version,
  normalize_json_value, finite_number, probability,
}

pub record TaskDocument (F : Type 0) : Type 0 where
  pub case_id : String
  pub input : Json F

pub record ForecastOutcome (F : Type 0) : Type 0 where
  pub outcome : String
  pub probability : F

-- Of the entropy, `base`, `infinite` and `measure` are fixed: the value of `base` that was given is kept.
pub record Forecast (F : Type 0) : Type 0 where
  pub base : F
  pub entropy : F
  pub outcomes : List (ForecastOutcome F)

pub record CandidateRun (F : Type 0) : Type 0 where
  pub candidate_id : String
  pub forecast : Forecast F
  pub adapter_id : String
  pub submission : Json F
  pub task : TaskDocument F

pub record EvaluatorResult (F : Type 0) : Type 0 where
  pub candidate_id : String
  pub evidence : Json F
  pub outcome : String
  pub passed : Bool
  pub safety_passed : Bool

pub record ObserverEvaluation (F : Type 0) : Type 0 where
  pub case_id : String
  pub evaluation : String
  pub evaluator_id : String
  pub results : List (EvaluatorResult F)

module _ {F : Type 0} where
  -- `item["outcome"]` and `item["candidate_id"]` as sort keys
  abbrev pub outcome_before : ForecastOutcome F → ForecastOutcome F → Bool
  outcome_before a b = text_lt a.outcome b.outcome

  abbrev pub result_before : EvaluatorResult F → EvaluatorResult F → Bool
  result_before a b = text_lt a.candidate_id b.candidate_id

  -- `if type(value) is not list or len(value) != 2: raise`
  unfoldable pub require_pair : Json F → Result (List (Json F))
  require_pair (arr vs) = do require (length (items vs) == 2) protocol_error; ok (items vs)
  require_pair other = raise protocol_error

  unfoldable pub task_json : TaskDocument F → Json F
  task_json task = obj (field "case_id" (str task.case_id) (field "input" task.input end))

  unfoldable pub outcome_json : ForecastOutcome F → Json F
  outcome_json o =
      obj (field "outcome" (str o.outcome) (field "probability" (float o.probability) end))

  unfoldable pub forecast_json : Forecast F → Json F
  unfolding outcome_json
  forecast_json forecast = obj (
      field "entropy"
        (obj (
          field "base" (float forecast.base) (
            field "infinite" (bool false)
              (field "measure" (str "entropy") (field "value" (float forecast.entropy) end)))))
        (field "outcomes" (arr (array (map outcome_json forecast.outcomes))) end))

  unfoldable pub candidate_run_json : CandidateRun F → Json F
  unfolding forecast_json task_json
  candidate_run_json run = obj (
      field "candidate_id" (str run.candidate_id) (
        field "forecast" (forecast_json run.forecast) (
          field "runner"
            (obj (field "adapter_id" (str run.adapter_id) (field "submission" run.submission end)))
            (field "schema_version" (int (pos 2)) (field "task" (task_json run.task) end)))))

  unfoldable pub result_json : EvaluatorResult F → Json F
  result_json r = obj (
      field "candidate_id" (str r.candidate_id) (
        field "evidence" r.evidence (
          field "outcome" (str r.outcome)
            (field "passed" (bool r.passed) (field "safety_passed" (bool r.safety_passed) end)))))

  unfoldable pub observer_evaluation_json : ObserverEvaluation F → Json F
  unfolding result_json
  observer_evaluation_json e = obj (
      field "case_id" (str e.case_id) (
        field "evaluation" (str e.evaluation) (
          field "evaluator_id" (str e.evaluator_id) (
            field "results" (arr (array (map result_json e.results)))
              (field "schema_version" (int (pos 2)) end)))))

module _ (P : Platform) where
  open P use {Float, literal, float_eq, float_lt}

  unfoldable pub decode_task : Json Float → Result (TaskDocument Float)
  decode_task value = do
    d ← require_object value
    require_exact_keys d ("case_id" ∷ "input" ∷ [])
    case_id ← item "case_id" d >>= require_nonempty_string
    input ← item "input" d >>= normalize_json_value P
    ok (record { case_id = case_id; input = input })

  -- The loop over the outcomes; the first argument is `seen`.
  unfoldable pub decode_outcomes :
      List String → List (Json Float) → Result (List (ForecastOutcome Float))
  decode_outcomes seen [] = ok []
  decode_outcomes seen (raw_outcome ∷ raw_outcomes) = do
    d ← require_object raw_outcome
    require_exact_keys d ("outcome" ∷ "probability" ∷ [])
    outcome ← item "outcome" d >>= require_nonempty_string
    refuse (contains outcome seen) protocol_error
    p ← item "probability" d >>= probability P
    outcomes ← decode_outcomes (outcome ∷ seen) raw_outcomes
    ok (record { outcome = outcome; probability = p } ∷ outcomes)

  unfoldable pub decode_forecast_outcomes : Json Float → Result (List (ForecastOutcome Float))
  unfolding decode_outcomes
  decode_forecast_outcomes value = do
    raw_outcomes ← require_nonempty_array value
    outcomes ← decode_outcomes [] raw_outcomes
    ok (sort_by outcome_before outcomes)

  unfoldable pub decode_forecast : Json Float → Result (Forecast Float)
  unfolding decode_forecast_outcomes
  decode_forecast value = do
    d ← require_object value
    require_exact_keys d ("entropy" ∷ "outcomes" ∷ [])
    entropy ← item "entropy" d >>= require_object
    require_exact_keys entropy ("base" ∷ "infinite" ∷ "measure" ∷ "value" ∷ [])
    base ← item "base" entropy >>= finite_number P
    require (float_eq base (literal "2.0")) protocol_error
    measure ← item "measure" entropy
    require (is_text measure "entropy") protocol_error
    infinite ← item "infinite" entropy >>= require_bool
    refuse infinite protocol_error
    entropy_value ← item "value" entropy >>= finite_number P
    refuse (float_lt entropy_value (literal "0.0")) protocol_error
    outcomes ← item "outcomes" d >>= decode_forecast_outcomes
    ok (record { base = base; entropy = entropy_value; outcomes = outcomes })

  unfoldable pub decode_candidate_run : Json Float → Result (CandidateRun Float)
  unfolding decode_forecast decode_task
  decode_candidate_run value = do
    d ← require_object value
    require_exact_keys d ("candidate_id" ∷ "forecast" ∷ "runner" ∷ "schema_version" ∷ "task" ∷ [])
    item "schema_version" d >>= require_schema_version
    runner ← item "runner" d >>= require_object
    require_exact_keys runner ("adapter_id" ∷ "submission" ∷ [])
    candidate_id ← item "candidate_id" d >>= require_sha256
    forecast ← item "forecast" d >>= decode_forecast
    adapter_id ← item "adapter_id" runner >>= require_sha256
    submission ← item "submission" runner >>= normalize_json_value P
    task ← item "task" d >>= decode_task
    ok (record {
      candidate_id = candidate_id;
      forecast = forecast;
      adapter_id = adapter_id;
      submission = submission;
      task = task;
    })

  unfoldable pub decode_evaluator_result : Json Float → Result (EvaluatorResult Float)
  decode_evaluator_result value = do
    d ← require_object value
    require_exact_keys d ("candidate_id" ∷ "evidence" ∷ "outcome" ∷ "passed" ∷ "safety_passed" ∷ [])
    candidate_id ← item "candidate_id" d >>= require_sha256
    evidence ← item "evidence" d >>= normalize_json_value P
    outcome ← item "outcome" d >>= require_nonempty_string
    passed ← item "passed" d >>= require_bool
    safety_passed ← item "safety_passed" d >>= require_bool
    ok (record {
      candidate_id = candidate_id;
      evidence = evidence;
      outcome = outcome;
      passed = passed;
      safety_passed = safety_passed;
    })

  unfoldable pub decode_observer_evaluation : Json Float → Result (ObserverEvaluation Float)
  unfolding decode_evaluator_result require_pair has_duplicate
  decode_observer_evaluation value = do
    d ← require_object value
    require_exact_keys d
        ("case_id" ∷ "evaluation" ∷ "evaluator_id" ∷ "results" ∷ "schema_version" ∷ [])
    item "schema_version" d >>= require_schema_version
    raw_results ← item "results" d >>= require_pair
    results ← traverse decode_evaluator_result raw_results
    refuse (has_duplicate (map (λ r. r.candidate_id) results)) protocol_error
    case_id ← item "case_id" d >>= require_nonempty_string
    evaluation ← item "evaluation" d >>= require_nonempty_string
    evaluator_id ← item "evaluator_id" d >>= require_sha256
    ok (record {
      case_id = case_id;
      evaluation = evaluation;
      evaluator_id = evaluator_id;
      results = sort_by result_before results;
    })
