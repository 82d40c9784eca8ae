-- ===== src/Assay.antt =====
-- apps/forecast_assay/agent_assay.py: the measurement of a candidate on the cases of an evaluation.
pub mod Measured
use metering.Prelude.{
  ℕ, zero, suc, ◌+◌, ◌*◌, ◌-◌, ◌/◌, Bool, true, false, ◌&&◌, ◌||◌, not, Option, none, some, List,
  [], ◌∷◌, map, length, any, all, leb, ltb, if◌then◌else◌, ◌==◌, filter, ◌++◌, String, str_eq,
  any_char, is_hex, subset, has_duplicate, count, contains, sort_by, text_lt, get_elem?, take, sum,
}
use metering.Prelude.Int.{ℤ, pos, negsuc}
use metering.Runtime.{
  Result, ok, raise, ◌>>=◌, ◌>>◌, require, refuse, traverse, or_raise, on_protocol_error,
  on_key_error, on_probability_error, Failure, protocol_error, population_error, request_error,
  driver_error, controller_error, selection_error, assay_error, value_error, key_error, type_error,
  index_error, Json, null, bool, int, float, str, surrogates, arr, obj, items, array, Platform,
  Decimals, Fields, Items, get, has_key, without, keys, end, field, nil, cons,
}
use metering.Runtime.Dict.{Dict, find, put, member}
use metering.AgentProtocol
use metering.AgentProtocol.{
  require_object, require_nonempty_array, item, is_text, get_is_text, require_exact_keys,
  require_utf8, require_nonempty_string, require_sha256, require_bool, require_timeout,
  require_schema_version, decode_command, canonical_digest, canonical_json, require_same_json,
  normalize_json_value, finite_number, probability,
}
use metering.AgentProtocol.Artifact.{
  Artifact, ArtifactFile, Candidate, default, git, skill, decode_candidate, candidate_record,
  candidate_json, normalized_path, find_file, file_before, decode_files, file_json,
}
use metering.Runtime.Dict.{Dict, find, put}
use metering.AgentProtocol.Evaluations.{
  Forecast, ForecastOutcome, EvaluatorResult, decode_forecast, decode_evaluator_result,
}
use metering.Information.Measures.{entropy, self_information}

pub record MeasuredCase (F : Type 0) : Type 0 where
  pub case_id : String
  pub evidence : Json F
  pub outcome : String
  pub passed : Bool
  pub safety_passed : Bool
  pub target_probability : F
  -- `value`, which may be infinite
  pub surprisal : F

pub record TaskReport (F : Type 0) : Type 0 where
  pub candidate : String
  pub cases : List (MeasuredCase F)
  pub evaluation : String
  pub any_infinite : Bool
  pub mean : Option F
  pub passed_count : ℕ
  pub safety_failures : ℕ

module _ {F : Type 0} where
  -- `{item["outcome"]: item["probability"] for item in forecast_outcomes}`
  unfoldable pub probabilities_from : Dict F → List (ForecastOutcome F) → Dict F
  probabilities_from found [] = found
  probabilities_from found (o ∷ outcomes) =
      probabilities_from (put o.outcome o.probability found) outcomes

  -- `list(probabilities.values())`
  unfoldable pub values_json : Dict F → Json F
  values_json d = arr (array (map (λ entry. float entry.1) d))

  -- The counts that the loop adds up.
  unfoldable pub count_passed : List (MeasuredCase F) → ℕ
  count_passed [] = 0
  count_passed (c ∷ cases) = (if c.passed then 1 else 0) + count_passed cases

  unfoldable pub count_unsafe : List (MeasuredCase F) → ℕ
  count_unsafe [] = 0
  count_unsafe (c ∷ cases) = (if c.safety_passed then 0 else 1) + count_unsafe cases

module _ (P : Platform) where
  open P use {Float, literal, is_inf, is_close_relative, fsum, div, of_int}

  -- One turn of the loop, without the test of the case's id against those before.
  unfoldable pub measure_case : String → String → Fields Float → Result (MeasuredCase Float)
  unfolding probabilities_from values_json
  measure_case candidate case_id d = do
    forecast ← item "forecast" d >>= decode_forecast P
    let probabilities = probabilities_from [] forecast.outcomes
    measured_entropy ← entropy P (values_json probabilities) (int (pos 2))
    require (is_close_relative forecast.entropy measured_entropy (literal "1e-12")) protocol_error
    result ← item "result" d >>= decode_evaluator_result P
    require (str_eq result.candidate_id candidate) protocol_error
    target_probability ← or_raise protocol_error (find result.outcome probabilities)
    value ← self_information P (float target_probability) (int (pos 2))
    ok (record {
      case_id = case_id;
      evidence = result.evidence;
      outcome = result.outcome;
      passed = result.passed;
      safety_passed = result.safety_passed;
      target_probability = target_probability;
      surprisal = value;
    })

  -- The loop; the list of texts is `seen`.
  unfoldable pub measure_cases :
      String → List String → List (Json Float) → Result (List (MeasuredCase Float))
  unfolding measure_case
  measure_cases candidate seen [] = ok []
  measure_cases candidate seen (raw_case ∷ raw_cases) = do
    d ← require_object raw_case
    require_exact_keys d ("case_id" ∷ "forecast" ∷ "result" ∷ [])
    case_id ← item "case_id" d >>= require_nonempty_string
    refuse (contains case_id seen) protocol_error
    measured ← measure_case candidate case_id d
    cases ← measure_cases candidate (case_id ∷ seen) raw_cases
    ok (measured ∷ cases)

  -- `None if any_infinite else math.fsum(finite_values) / len(cases)`
  unfoldable pub mean_surprisal : List (MeasuredCase Float) → Result (Option Float)
  mean_surprisal cases = if any (λ c. is_inf c.surprisal) cases then ok none else do
    total ← fsum (map (λ c. c.surprisal) (filter (λ c. not (is_inf c.surprisal)) cases))
    divisor ← of_int (pos (length cases))
    mean ← div total divisor
    ok (some mean)

  -- The body of the `try`, with the candidate, the evaluation and the cases.
  unfoldable pub measured_request :
      Fields Float → Result (String × String × List (MeasuredCase Float))
  unfolding measure_cases
  measured_request request = do
    require_exact_keys request ("schema_version" ∷ "candidate" ∷ "evaluation" ∷ "cases" ∷ [])
    item "schema_version" request >>= require_schema_version
    candidate ← item "candidate" request >>= require_sha256
    evaluation ← item "evaluation" request >>= require_nonempty_string
    raw_cases ← item "cases" request >>= require_nonempty_array
    cases ← measure_cases candidate [] raw_cases
    ok (candidate, evaluation, cases)

  unfoldable pub measure_agent_task_candidate : Fields Float → Result (TaskReport Float)
  unfolding measured_request mean_surprisal count_passed count_unsafe
  measure_agent_task_candidate request = do
    measured ← on_protocol_error assay_error (measured_request request)
    let (candidate, evaluation, cases) = measured
    mean ← mean_surprisal cases
    ok (record {
      candidate = candidate;
      cases = cases;
      evaluation = evaluation;
      any_infinite = any (λ c. is_inf c.surprisal) cases;
      mean = mean;
      passed_count = count_passed cases;
      safety_failures = count_unsafe cases;
    })

  case_json : MeasuredCase Float → Json Float
  case_json c = obj (
      field "case_id" (str c.case_id) (
        field "evidence" c.evidence (
          field "outcome" (str c.outcome) (
            field "passed" (bool c.passed) (
              field "safety_passed" (bool c.safety_passed) (
                field "target_probability" (float c.target_probability) (
                  field "target_surprisal"
                    (obj (
                      field "infinite" (bool (is_inf c.surprisal)) (
                        field "value_bits" (if is_inf c.surprisal then null else float c.surprisal)
                          end)))
                    end)))))))

  optional_mean : Option Float → Json Float
  optional_mean none = null
  optional_mean (some mean) = float mean

  unfoldable pub report_json : TaskReport Float → Json Float
  unfolding case_json optional_mean
  report_json report = obj (
      field "candidate" (str report.candidate) (
        field "cases" (arr (array (map case_json report.cases))) (
          field "evaluation" (str report.evaluation) (
            field "forecast_measurement"
              (obj (
                field "aggregate"
                  (obj (
                    field "infinite" (bool report.any_infinite) (
                      field "mean_target_surprisal_bits" (optional_mean report.mean)
                        (field "sample_count" (int (pos (length report.cases))) end))))
                  (field "base" (float (literal "2.0"))
                    (field "metering_measure" (str "self_information") end))))
              (field "schema_version" (int (pos 2)) (
                field "task_summary"
                  (obj (
                    field "case_count" (int (pos (length report.cases))) (
                      field "passed_count" (int (pos report.passed_count))
                        (field "safety_failures" (int (pos report.safety_failures)) end))))
                  end))))))
