-- ===== src/Selection/Reports.antt =====
-- apps/selection_gate/task_selection.py: the verification of one case and of one report.
use metering.Prelude.{
  ℕ, ◌+◌, Bool, ◌&&◌, not, Option, none, some, List, [], ◌∷◌, map, length, any, if◌then◌else◌,
  String, contains,
}
use metering.Prelude.Int.{pos}
use metering.Runtime.{
  Result, ok, raise, ◌>>=◌, ◌>>◌, require, refuse, on_protocol_error, protocol_error,
  selection_error, Json, bool, int, float, str, obj, Platform, Decimals, Fields, end, field,
}
use metering.AgentProtocol.{
  require_object, require_nonempty_array, item, is_text, require_exact_keys,
  require_nonempty_string, require_sha256, require_bool, require_schema_version,
}
use metering.Selection.{
  is_null, number_as_float, exact_is, exact_probability, nonnegative_number, same_number,
  normalize_decimals, get_is_count,
}
use metering.Information.Measures.{self_information}

pub record VerifiedTaskCase (F : Type 0) : Type 0 where
  pub case_id : String
  pub evidence : Json F
  pub outcome : String
  pub passed : Bool
  pub safety_passed : Bool
  pub target_probability : F
  pub target_surprisal_bits : F

pub record VerifiedTaskReport (F : Type 0) : Type 0 where
  pub candidate : String
  pub evaluation : String
  -- `cases`, whose entries are the cases under their ids, in the order of the report
  pub cases : List (VerifiedTaskCase F)
  pub passed_count : ℕ
  pub safety_failures : ℕ
  pub mean_target_surprisal_bits : Option F

module _ {F : Type 0} where
  -- The counts that the loop adds up, one `int(...)` for each case.
  unfoldable pub passed_cases : List (VerifiedTaskCase F) → ℕ
  passed_cases [] = 0
  passed_cases (c ∷ cases) = (if c.passed then 1 else 0) + passed_cases cases

  unfoldable pub safety_failed_cases : List (VerifiedTaskCase F) → ℕ
  safety_failed_cases [] = 0
  safety_failed_cases (c ∷ cases) = (if c.safety_passed then 0 else 1) + safety_failed_cases cases

  unfoldable pub case_ids : List (VerifiedTaskCase F) → List String
  case_ids cases = map (λ c. c.case_id) cases

  unfoldable pub selection_evidence : VerifiedTaskCase F → Json F
  selection_evidence c = obj (
      field "evidence" c.evidence (
        field "outcome" (str c.outcome) (
          field "passed" (bool c.passed) (
            field "safety_passed" (bool c.safety_passed)
              (field "target_probability" (float c.target_probability) end)))))

  -- The dict `cases` as a document.
  unfoldable pub cases_fields : List (VerifiedTaskCase F) → Fields F
  unfolding selection_evidence
  cases_fields [] = end
  cases_fields (c ∷ cases) = field c.case_id (selection_evidence c) (cases_fields cases)

module _ (P : Platform) (D : Decimals P.Float) where
  open P use {Float, literal, is_inf, fsum, div, of_int}
  open D use {Decimal}

  -- The check of `target_surprisal` against the measure.
  unfoldable pub verify_surprisal : Json Decimal → Float → Result (Unit {0})
  verify_surprisal value measured = do
    d ← require_object value
    require_exact_keys d ("infinite" ∷ "value_bits" ∷ [])
    infinite ← item "infinite" d >>= require_bool
    require (if infinite then is_inf measured else not (is_inf measured)) protocol_error
    bits ← item "value_bits" d
    if is_inf measured
        then require (is_null bits) protocol_error
        else nonnegative_number P D bits
          >>= (λ reported. require (same_number P D reported measured) protocol_error)

  unfoldable pub verify_task_case : Json Decimal → Result (VerifiedTaskCase Float)
  unfolding verify_surprisal
  verify_task_case raw_case = do
    d ← require_object raw_case
    require_exact_keys d (
        "case_id" ∷ "evidence" ∷ "outcome" ∷ "passed" ∷ "safety_passed" ∷ "target_probability"
        ∷ "target_surprisal" ∷ [])
    case_id ← item "case_id" d >>= require_nonempty_string
    outcome ← item "outcome" d >>= require_nonempty_string
    passed ← item "passed" d >>= require_bool
    safety_passed ← item "safety_passed" d >>= require_bool
    target_probability ← item "target_probability" d >>= exact_probability P D
    measured ← self_information P (float target_probability) (int (pos 2))
    raw_surprisal ← item "target_surprisal" d
    verify_surprisal raw_surprisal measured
    evidence ← item "evidence" d >>= normalize_decimals P D
    ok (record {
      case_id = case_id;
      evidence = evidence;
      outcome = outcome;
      passed = passed;
      safety_passed = safety_passed;
      target_probability = target_probability;
      target_surprisal_bits = measured;
    })

  unfoldable pub verify_task_summary : Json Decimal → ℕ → ℕ → ℕ → Result (Unit {0})
  verify_task_summary value case_count passed_count safety_failures = do
    d ← require_object value
    require_exact_keys d ("case_count" ∷ "passed_count" ∷ "safety_failures" ∷ [])
    require
        (get_is_count P D "case_count" d case_count
          && get_is_count P D "passed_count" d passed_count
          && get_is_count P D "safety_failures" d safety_failures)
        protocol_error

  -- The mean where no surprisal is infinite: `fsum(values) / case_count` against the one reported.
  unfoldable pub verify_mean : Json Decimal → ℕ → List Float → Result (Option Float)
  verify_mean raw_mean case_count surprisal_values = do
    total ← fsum surprisal_values
    divisor ← of_int (pos case_count)
    expected_mean ← div total divisor
    mean ← nonnegative_number P D raw_mean
    require (same_number P D mean expected_mean) protocol_error
    ok (some mean)

  unfoldable pub verify_forecast_measurement : Json Decimal → ℕ → List Float → Result (Option Float)
  unfolding verify_mean
  verify_forecast_measurement value case_count surprisal_values = do
    d ← require_object value
    require_exact_keys d ("aggregate" ∷ "base" ∷ "metering_measure" ∷ [])
    base ← item "base" d >>= number_as_float P D
    measure ← item "metering_measure" d
    require (exact_is P D base.0 2 && is_text measure "self_information") protocol_error
    aggregate ← item "aggregate" d >>= require_object
    require_exact_keys aggregate ("infinite" ∷ "mean_target_surprisal_bits" ∷ "sample_count" ∷ [])
    require (get_is_count P D "sample_count" aggregate case_count) protocol_error
    infinite ← item "infinite" aggregate >>= require_bool
    let any_infinite = any is_inf surprisal_values
    require (if infinite then any_infinite else not any_infinite) protocol_error
    raw_mean ← item "mean_target_surprisal_bits" aggregate
    if any_infinite
        then require (is_null raw_mean) protocol_error >> ok none
        else verify_mean raw_mean case_count surprisal_values

  -- The loop over the cases; the first argument is the ids of those before, the keys of `cases`.
  unfoldable pub verify_task_cases :
      List String → List (Json Decimal) → Result (List (VerifiedTaskCase Float))
  unfolding verify_task_case
  verify_task_cases seen [] = ok []
  verify_task_cases seen (raw_case ∷ raw_cases) = do
    task_case ← verify_task_case raw_case
    refuse (contains task_case.case_id seen) protocol_error
    cases ← verify_task_cases (task_case.case_id ∷ seen) raw_cases
    ok (task_case ∷ cases)

  unfoldable pub verify_report_fields : Fields Decimal → Result (VerifiedTaskReport Float)
  unfolding verify_task_cases verify_task_summary verify_forecast_measurement passed_cases
      safety_failed_cases
  verify_report_fields d = do
    require_exact_keys d (
        "candidate" ∷ "cases" ∷ "evaluation" ∷ "forecast_measurement" ∷ "schema_version"
        ∷ "task_summary" ∷ [])
    item "schema_version" d >>= require_schema_version
    candidate ← item "candidate" d >>= require_sha256
    evaluation ← item "evaluation" d >>= require_nonempty_string
    raw_cases ← item "cases" d >>= require_nonempty_array
    cases ← verify_task_cases [] raw_cases
    raw_summary ← item "task_summary" d
    verify_task_summary raw_summary (length cases) (passed_cases cases) (safety_failed_cases cases)
    raw_measurement ← item "forecast_measurement" d
    mean ←
        verify_forecast_measurement raw_measurement (length cases)
          (map (λ c. c.target_surprisal_bits) cases)
    ok (record {
      candidate = candidate;
      evaluation = evaluation;
      cases = cases;
      passed_count = passed_cases cases;
      safety_failures = safety_failed_cases cases;
      mean_target_surprisal_bits = mean;
    })

  unfoldable pub verify_task_report : Json Decimal → Result (VerifiedTaskReport Float)
  unfolding verify_report_fields
  verify_task_report (obj d) = on_protocol_error selection_error (verify_report_fields d)
  verify_task_report other = raise selection_error
