-- ===== src/Tests/Generations.antt =====
-- The contract of the controller at a generation with one task.
use metering.AgentProtocol.Evaluations.{
  decode_observer_evaluation, decode_candidate_run, decode_forecast, decode_forecast_outcomes,
  decode_outcomes, decode_task, decode_evaluator_result, task_json,
}
use metering.AgentProtocol.{
  require_object, require_exact_keys, item, require_schema_version, require_sha256,
  normalize_json_value, require_bool, finite_number, is_text, require_nonempty_array, probability,
  require_nonempty_string, canonical_digest, canonical_json, get_is_text, require_utf8,
  require_same_json,
}
use metering.Prelude.{
  subset, any_char, sort_by, contains, filter, any, insert, starts_with_slash, split_slash,
  join_slash, has_duplicate,
}
use metering.Runtime.{keys, get, items, array, traverse, equals}
use metering.Runtime.Dict.{put, find}
use metering.Information.Measures.{self_information}
use metering.Information.{validated_base, validated_probability}
use metering.Selection.Gate.{
  select_task_reports, compare_reports, decide, decode_policy, decode_selection_request,
  evidence_document, policy_json, positive_count, selection_json,
}
use metering.Selection.Reports.{
  verify_task_report, case_ids, cases_fields, passed_cases, safety_failed_cases, selection_evidence,
  verify_forecast_measurement, verify_mean, verify_report_fields, verify_surprisal,
  verify_task_case, verify_task_cases, verify_task_summary,
}
use metering.Selection.{
  exact_probability, number_as_float, at_least, difference, eq_int, exact_is, exceeds_one,
  finite_exact, get_is_count, is_count, is_negative, is_null, nonnegative_number,
  normalize_decimals, same_number,
}
use metering.Controller.Generations.{
  validate_agent_generation_receipt, check_envelope, is_version, get_or_null, decode_lineage,
  replay_lineage, same_candidate, replay_selection, selection_request_json, as_object, replay_cases,
  is_nonempty_text,
}
use metering.Controller.Reports.{
  require_dict, get_equals, report_case, report_cases, validated_report_cases, same_texts,
  passed_reports, unsafe_reports, require_length, report_case_json,
}
use metering.AgentProtocol.Artifact.{
  decode_candidate, decode_agent_artifact, artifact_digest, is_normalized_path, candidate_json,
  candidate_record, decode_files, normalized_path, artifact_json, file_json,
}
use metering.Controller.Traces.{
  same_task, decode_trace, check_run, check_identities, results_from, has_exactly, evaluated_case,
  matches_forecast, check_report, check_trace, check_traces,
}
use metering.Prelude.{ℕ, ◌≡◌, refl, Bool, true, false, [], ◌∷◌, if◌then◌else◌, String, str_eq}
use metering.Prelude.Int.{pos}
use metering.Runtime.{ok, Json, null, bool, int, str, arr, obj, Platform, Fields, end, field}
use metering.AgentProtocol.Artifact.{Candidate, default, skill}
use metering.Controller.Reports.{ReportEvidence}
use metering.Controller.Generations.{Generation}
use metering.Controller.Accepted.{IsGeneration, validate_agent_generation_receipt-IsGeneration}
use metering.Tests.Samples.{toy, digest, other_digest}
use metering.Tests.Decoders.{forecast_document}
use metering.Tests.Selections.{toy_decimals, report_document, policy_document, promotion}

abbrev first_text : Json ℕ → String
first_text (obj (field k (obj (field j (str s) d)) e)) = s
first_text other = "{}"

-- The sample platform, with a digest that tells a skill from the other documents.
abbrev telling : Platform
telling = record toy {
  dumps = λ v. ok (first_text v);
  sha256 = λ s. if str_eq s "agent-skill-v1" then other_digest else digest;
}

abbrev default_document : Json ℕ
default_document = obj (field "artifact_schema" (str "agent-default-v1") end)

abbrev skill_document : Json ℕ
skill_document = obj (
    field "artifact_schema" (str "agent-skill-v1") (
      field "files"
        (arr (
          array (
            obj (
              field "content" (str "text")
                (field "executable" (bool false) (field "path" (str "SKILL.md") end)))
            ∷ [])))
        end))

abbrev artifact_of : String → Json ℕ → Json ℕ
artifact_of id artifact = obj (field "artifact" artifact (field "candidate_id" (str id) end))

abbrev verdict_document : String → Bool → Json ℕ
verdict_document id passed = obj (
    field "candidate_id" (str id) (
      field "evidence" null (
        field "outcome" (str "yes")
          (field "passed" (bool passed) (field "safety_passed" (bool true) end)))))

abbrev observed_document : Json ℕ
observed_document = obj (
    field "case_id" (str "case") (
      field "evaluation" (str "first") (
        field "evaluator_id" (str digest) (
          field "results"
            (arr (array (verdict_document digest false ∷ verdict_document other_digest true ∷ [])))
            (field "schema_version" (int (pos 2)) end)))))

abbrev task_document : Json ℕ
task_document = obj (field "case_id" (str "case") (field "input" null end))

abbrev run_of : String → Json ℕ
run_of id = obj (
    field "candidate_id" (str id) (
      field "forecast" forecast_document (
        field "runner" (obj (field "adapter_id" (str digest) (field "submission" null end)))
          (field "schema_version" (int (pos 2)) (field "task" task_document end)))))

abbrev trace_document : Json ℕ
trace_document = obj (
    field "challenger_run" (run_of other_digest) (
      field "incumbent_run" (run_of digest)
        (field "observer_evaluation" observed_document (field "task" task_document end))))

abbrev component_document : Json ℕ
component_document = obj (field "command" (arr (array (str "run" ∷ []))) end)

abbrev generation_request : Fields ℕ
generation_request = field "evaluation" (str "first") (
    field "evaluator" component_document (
      field "mutation_request" (obj (field "parent_artifact" default_document end)) (
        field "runner" component_document (
          field "selection_policy" policy_document
            (field "tasks" (arr (array (task_document ∷ []))) end)))))

abbrev mutation_document : Json ℕ
mutation_document = obj (
    field "child" (artifact_of other_digest skill_document) (
      field "mutation" (obj (field "proposal_id" (str digest) end))
        (field "parent" (artifact_of digest default_document) end)))

abbrev generation_result : Fields ℕ
generation_result = field "cases" (arr (array (trace_document ∷ []))) (
    field "challenger_report" (report_document other_digest true) (
      field "evaluation" (str "first") (
        field "incumbent_report" (report_document digest false) (
          field "mutation" mutation_document (
            field "next_parent" (artifact_of other_digest skill_document) (
              field "schema_version" (int (pos 2))
                (field "selection" (obj (field "selected" (str other_digest) end)) end)))))))

abbrev parent : Candidate
parent = record { artifact = default; candidate_id = digest }

abbrev child : Candidate
child = record {
  artifact = skill (record { content = "text"; executable = false; path = "SKILL.md" } ∷ []);
  candidate_id = other_digest;
}

abbrev evidence_of : Bool → ReportEvidence ℕ
evidence_of passed = record {
  cases =
      (
        record {
          case_id = "case";
          evidence = null;
          outcome = "yes";
          passed = passed;
          safety_passed = true;
        },
        1,
      )
      ∷ [];
  case_count = 1;
  passed_count = if passed then 1 else 0;
  safety_failures = 0;
}

abbrev generation : Generation ℕ
generation = record {
  child = child;
  child_evidence = evidence_of true;
  next_parent = child;
  parent = parent;
  parent_evidence = evidence_of false;
  proposal_id = digest;
  selection = promotion;
}

accepted :
    validate_agent_generation_receipt telling toy_decimals generation_request generation_result
    ≡ ok generation
unfolding decode_observer_evaluation require_object require_exact_keys subset keys item get
    require_schema_version items array traverse require_sha256 any_char normalize_json_value
    require_bool sort_by decode_candidate_run finite_number is_text require_nonempty_array
    probability decode_forecast decode_forecast_outcomes decode_outcomes decode_task
    require_nonempty_string contains filter put find decode_evaluator_result self_information
    validated_base validated_probability any insert select_task_reports verify_task_report
    exact_probability number_as_float canonical_digest canonical_json compare_reports decide
    decode_policy decode_selection_request evidence_document policy_json positive_count case_ids
    cases_fields passed_cases safety_failed_cases selection_evidence verify_forecast_measurement
    verify_mean verify_report_fields verify_surprisal verify_task_case verify_task_cases
    verify_task_summary at_least difference eq_int exact_is exceeds_one finite_exact get_is_count
    is_count is_negative is_null nonnegative_number normalize_decimals same_number
    validate_agent_generation_receipt equals require_dict decode_candidate decode_agent_artifact
    get_is_text artifact_digest is_normalized_path starts_with_slash split_slash join_slash
    require_utf8 candidate_json check_envelope is_version get_or_null decode_lineage replay_lineage
    same_candidate replay_selection selection_request_json as_object replay_cases is_nonempty_text
    get_equals report_case report_cases validated_report_cases same_texts passed_reports
    unsafe_reports require_length same_task decode_trace check_run check_identities results_from
    has_exactly evaluated_case matches_forecast check_report check_trace check_traces
    report_case_json task_json candidate_record require_same_json decode_files normalized_path
    has_duplicate selection_json artifact_json file_json
accepted = refl

validate_agent_generation_receipt-IsGeneration_example :
    IsGeneration telling toy_decimals generation_request generation_result generation
validate_agent_generation_receipt-IsGeneration_example =
    validate_agent_generation_receipt-IsGeneration telling toy_decimals generation_request
      generation_result generation accepted
