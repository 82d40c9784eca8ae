-- ===== src/Tests/Selections.antt =====
-- The theorems about the forecast assay and the selection gate at requests with one case.
use metering.Prelude.{
  insert, ℕ, ◌≡◌, refl, Bool, true, false, some, [], ◌∷◌, any, ltb, if◌then◌else◌, ◌==◌, filter,
  String, any_char, subset, contains, sort_by,
}
use metering.Prelude.Int.{ℤ, pos, negsuc}
use metering.Runtime.{
  ok, traverse, Json, null, bool, int, float, str, arr, obj, items, array, Decimals, Fields, get,
  keys, end, field,
}
use metering.Runtime.Dict.{find, put}
use metering.AgentProtocol.{
  require_object, require_nonempty_array, item, is_text, require_exact_keys,
  require_nonempty_string, require_sha256, require_bool, require_schema_version, canonical_digest,
  canonical_json, normalize_json_value, finite_number, probability,
}
use metering.AgentProtocol.Evaluations.{
  decode_forecast, decode_forecast_outcomes, decode_outcomes, decode_evaluator_result,
}
use metering.Assay.{
  TaskReport, probabilities_from, values_json, count_passed, count_unsafe, measure_case,
  measure_cases, mean_surprisal, measured_request, measure_agent_task_candidate,
}
use metering.Assay.Measured.{IsMeasured, measure_agent_task_candidate-IsMeasured}
use metering.Information.{
  validated_base, validated_probability, distribution, materialize, probability_values,
  require_normalized,
}
use metering.Information.Measures.{in_base, entropy, self_information}
use metering.Selection.{
  finite_exact, exact_is, is_negative, exceeds_one, nonnegative_number, same_number,
  normalize_decimals, is_count, get_is_count, difference, at_least, eq_int, is_null,
  exact_probability, number_as_float,
}
use metering.Selection.Reports.{
  verify_task_cases, verify_task_case, verify_report_fields, verify_task_summary,
  verify_forecast_measurement, verify_mean, verify_surprisal, safety_failed_cases, cases_fields,
  selection_evidence, verify_task_case, verify_surprisal, verify_report_fields, verify_mean,
  verify_forecast_measurement, selection_evidence, safety_failed_cases, cases_fields,
  VerifiedTaskReport, verify_task_report, case_ids, passed_cases,
}
use metering.Selection.Gate.{
  policy_json, Selection, required_pass_improvement_met, decide, compare_reports,
  select_task_reports, decode_selection_request, decode_policy, positive_count, evidence_document,
}
use metering.Selection.Decisions.{IsDecided, select_task_reports-IsDecided}
use metering.Selection.Verified.{IsVerified, select_task_reports-IsVerified}
use metering.Tests.Samples.{toy, digest, other_digest}
use metering.Tests.Decoders.{forecast_document, result_document}

abbrev assay_request : Fields ℕ
assay_request = field "schema_version" (int (pos 2)) (
    field "candidate" (str digest) (
      field "evaluation" (str "first") (
        field "cases"
          (arr (
            array (
              obj (
                field "case_id" (str "case") (
                  field "forecast" forecast_document (field "result" (result_document digest) end)))
              ∷ [])))
          end)))

abbrev task_report : TaskReport ℕ
task_report = record {
  candidate = digest;
  cases =
      record {
        case_id = "case";
        evidence = null;
        outcome = "yes";
        passed = true;
        safety_passed = true;
        target_probability = 1;
        surprisal = 0;
      }
      ∷ [];
  evaluation = "first";
  any_infinite = false;
  mean = some 0;
  passed_count = 1;
  safety_failures = 0;
}

measured : measure_agent_task_candidate toy assay_request ≡ ok task_report
unfolding measure_agent_task_candidate require_exact_keys subset keys item get
    require_schema_version require_sha256 any_char require_nonempty_array array require_object
    decode_forecast finite_number is_text require_bool probability decode_evaluator_result
    decode_forecast_outcomes decode_outcomes normalize_json_value require_nonempty_string
    count_passed count_unsafe mean_surprisal measure_case measure_cases measured_request
    probabilities_from values_json entropy in_base self_information distribution materialize
    probability_values require_normalized validated_base validated_probability any contains filter
    insert sort_by find put items traverse
measured = refl

measure_agent_task_candidate-IsMeasured_example : IsMeasured toy assay_request task_report
measure_agent_task_candidate-IsMeasured_example =
    measure_agent_task_candidate-IsMeasured toy assay_request task_report measured

abbrev exceeds_integer : ℕ → ℤ → Bool
exceeds_integer a (pos n) = ltb n a
exceeds_integer a (negsuc n) = true

abbrev below_integer : ℕ → ℤ → Bool
below_integer a (pos n) = ltb a n
below_integer a (negsuc n) = false

abbrev same_integer : ℕ → ℤ → Bool
same_integer a (pos n) = a == n
same_integer a (negsuc n) = false

-- Decimals that are the natural numbers, so that a document is read as it was written.
abbrev pub toy_decimals : Decimals ℕ
toy_decimals = record {
  Decimal = ℕ;
  decimal_eq = same_integer;
  decimal_lt = below_integer;
  decimal_gt = exceeds_integer;
  to_float = λ d. ok d;
  reparse = λ v. ok v;
}

abbrev case_document : Bool → Json ℕ
case_document passed = obj (
    field "case_id" (str "case") (
      field "evidence" null (
        field "outcome" (str "yes") (
          field "passed" (bool passed) (
            field "safety_passed" (bool true) (
              field "target_probability" (float 1) (
                field "target_surprisal"
                  (obj (field "infinite" (bool false) (field "value_bits" (float 0) end)))
                  end)))))))

abbrev measurement_document : Json ℕ
measurement_document = obj (
    field "aggregate"
      (obj (
        field "infinite" (bool false)
          (field "mean_target_surprisal_bits" (float 0) (field "sample_count" (int (pos 1)) end))))
      (field "base" (float 2) (field "metering_measure" (str "self_information") end)))

abbrev summary_document : Bool → Json ℕ
summary_document passed = obj (
    field "case_count" (int (pos 1)) (
      field "passed_count" (int (pos (if passed then 1 else 0)))
        (field "safety_failures" (int (pos 0)) end)))

-- A report of one case, passed or not.
abbrev pub report_document : String → Bool → Json ℕ
report_document candidate passed = obj (
    field "candidate" (str candidate) (
      field "cases" (arr (array (case_document passed ∷ []))) (
        field "evaluation" (str "first") (
          field "forecast_measurement" measurement_document (
            field "schema_version" (int (pos 2))
              (field "task_summary" (summary_document passed) end))))))

abbrev pub policy_document : Json ℕ
policy_document = obj (
    field "type" (str "task-pass-count-v1") (
      field "minimum_pass_improvement" (int (pos 1))
        (field "reject_safety_regression" (bool true) end)))

abbrev selection_request : Fields ℕ
selection_request = field "challenger_report" (report_document other_digest true) (
    field "incumbent_report" (report_document digest false)
      (field "policy" policy_document (field "schema_version" (int (pos 2)) end)))

abbrev verified : String → Bool → VerifiedTaskReport ℕ
verified candidate passed = record {
  candidate = candidate;
  evaluation = "first";
  cases =
      record {
        case_id = "case";
        evidence = null;
        outcome = "yes";
        passed = passed;
        safety_passed = true;
        target_probability = 1;
        target_surprisal_bits = 0;
      }
      ∷ [];
  passed_count = if passed then 1 else 0;
  safety_failures = 0;
  mean_target_surprisal_bits = some 0;
}

abbrev pub promotion : Selection ℕ
promotion = record {
  challenger = verified other_digest true;
  evidence_id = digest;
  incumbent = verified digest false;
  pass_improvement = pos 1;
  policy = record { minimum_pass_improvement = 1; reject_safety_regression = true };
  promote = true;
  reason = required_pass_improvement_met;
  selected = other_digest;
}

promoted : select_task_reports toy toy_decimals selection_request ≡ ok promotion
unfolding select_task_reports require_exact_keys subset keys item get require_schema_version
    require_object is_text require_bool verify_task_report require_sha256 any_char
    require_nonempty_array array exact_probability number_as_float canonical_digest canonical_json
    require_nonempty_string self_information validated_base validated_probability any contains items
    compare_reports decide decode_policy decode_selection_request evidence_document policy_json
    positive_count case_ids cases_fields passed_cases safety_failed_cases selection_evidence
    verify_forecast_measurement verify_mean verify_report_fields verify_surprisal verify_task_case
    verify_task_cases verify_task_summary at_least difference eq_int exact_is exceeds_one
    finite_exact get_is_count is_count is_negative is_null nonnegative_number normalize_decimals
    same_number
promoted = refl

select_task_reports-IsDecided_example : IsDecided promotion
select_task_reports-IsDecided_example =
    select_task_reports-IsDecided toy toy_decimals selection_request promotion promoted

select_task_reports-IsVerified_example :
    IsVerified promotion.incumbent
    × IsVerified promotion.challenger
    × ((id : String)
        → contains id (case_ids promotion.incumbent.cases)
          ≡ contains id (case_ids promotion.challenger.cases))
select_task_reports-IsVerified_example =
    select_task_reports-IsVerified toy toy_decimals selection_request promotion promoted
