-- ===== src/Tests/Decoders.antt =====
-- The theorems about the agent protocol, the assay and the selection gate at small documents.
use metering.Prelude.{
  arith, ℕ, ◌≡◌, refl, ◌↔◌, true, false, List, [], ◌∷◌, filter, String, any_char, subset, contains,
  sort_by,
}
use metering.Prelude.Int.{pos}
use metering.Runtime.{
  recursion_error, Platform, ok, raise, traverse, protocol_error, Json, null, bool, int, float, str,
  arr, obj, items, array, get, keys, end, field,
}
use metering.Runtime.Dict.{find, put, member}
use metering.AgentProtocol.{
  require_object, require_nonempty_array, item, is_text, require_exact_keys,
  require_nonempty_string, require_sha256, require_bool, require_schema_version,
  normalize_json_value, finite_number, probability,
}
use metering.AgentProtocol.Artifact.{ArtifactFile, Candidate, skill}
use metering.AgentProtocol.Changes.{artifact_file_map, git_change, changed_artifact_paths}
use metering.AgentProtocol.Changes.Paths.{changed_artifact_paths_iff}
use metering.AgentProtocol.Evaluations.{
  decode_task, decode_forecast, decode_forecast_outcomes, decode_outcomes, decode_candidate_run,
  candidate_run_json, decode_observer_evaluation, observer_evaluation_json, EvaluatorResult,
  ObserverEvaluation, CandidateRun,
}
use metering.AgentProtocol.Evaluations.Observer.{
  IsPair, decode_observer_evaluation-IsPair, decode_observer_evaluation-again,
}
use metering.AgentProtocol.Evaluations.Runs.{decode_candidate_run-again}
use metering.AgentProtocol.Evaluations.Nesting.{nesting}
use metering.AgentProtocol.Evaluations.Refusals.{decode_observer_evaluation-protocol_error}
use metering.Tests.Samples.{toy, digest, other_digest}

abbrev pub result_document : String → Json ℕ
result_document candidate_id = obj (
    field "candidate_id" (str candidate_id) (
      field "evidence" null (
        field "outcome" (str "yes")
          (field "passed" (bool true) (field "safety_passed" (bool true) end)))))

abbrev pub evaluation_document : Json ℕ
evaluation_document = obj (
    field "case_id" (str "case") (
      field "evaluation" (str "first") (
        field "evaluator_id" (str digest) (
          field "results" (arr (array (result_document other_digest ∷ result_document digest ∷ [])))
            (field "schema_version" (int (pos 2)) end)))))

abbrev pub result_of : String → EvaluatorResult ℕ
result_of candidate_id = record {
  candidate_id = candidate_id;
  evidence = null;
  outcome = "yes";
  passed = true;
  safety_passed = true;
}

abbrev pub evaluation : ObserverEvaluation ℕ
evaluation = record {
  case_id = "case";
  evaluation = "first";
  evaluator_id = digest;
  results = result_of digest ∷ result_of other_digest ∷ [];
}

evaluated : decode_observer_evaluation toy evaluation_document ≡ ok evaluation
unfolding decode_observer_evaluation require_object require_exact_keys subset keys item get
    require_schema_version items array traverse require_sha256 any_char normalize_json_value
    require_bool sort_by
evaluated = refl

decode_observer_evaluation-IsPair_example : IsPair evaluation.results
decode_observer_evaluation-IsPair_example =
    decode_observer_evaluation-IsPair toy evaluation_document evaluation evaluated

decode_observer_evaluation-again_example :
    decode_observer_evaluation toy (observer_evaluation_json evaluation) ≡ ok evaluation
decode_observer_evaluation-again_example =
    decode_observer_evaluation-again toy refl evaluation_document evaluation evaluated

abbrev pub forecast_document : Json ℕ
forecast_document = obj (
    field "entropy"
      (obj (
        field "base" (float 2) (
          field "infinite" (bool false)
            (field "measure" (str "entropy") (field "value" (float 0) end)))))
      (field "outcomes"
        (arr (array (obj (field "outcome" (str "yes") (field "probability" (float 1) end)) ∷ [])))
        end))

abbrev pub run_document : Json ℕ
run_document = obj (
    field "candidate_id" (str digest) (
      field "forecast" forecast_document (
        field "runner" (obj (field "adapter_id" (str other_digest) (field "submission" null end))) (
          field "schema_version" (int (pos 2))
            (field "task" (obj (field "case_id" (str "case") (field "input" null end))) end)))))

abbrev pub candidate_run : CandidateRun ℕ
candidate_run = record {
  candidate_id = digest;
  forecast = record {
    base = 2;
    entropy = 0;
    outcomes = record { outcome = "yes"; probability = 1 } ∷ [];
  };
  adapter_id = other_digest;
  submission = null;
  task = record { case_id = "case"; input = null };
}

ran : decode_candidate_run toy run_document ≡ ok candidate_run
unfolding decode_candidate_run require_object require_exact_keys subset keys item get
    require_schema_version require_sha256 any_char finite_number is_text require_bool
    require_nonempty_array array probability items decode_forecast decode_forecast_outcomes
    decode_outcomes decode_task normalize_json_value require_nonempty_string contains sort_by
ran = refl

decode_candidate_run-again_example :
    decode_candidate_run toy (candidate_run_json candidate_run) ≡ ok candidate_run
decode_candidate_run-again_example =
    decode_candidate_run-again toy refl run_document candidate_run ran

-- An evaluation whose first evidence is a float that is not finite.
abbrev infinite_document : Json ℕ
infinite_document = obj (
    field "case_id" (str "case") (
      field "evaluation" (str "first") (
        field "evaluator_id" (str digest) (
          field "results"
            (arr (
              array (
                obj (
                  field "candidate_id" (str digest) (
                    field "evidence" (arr (array (float 1000000 ∷ []))) (
                      field "outcome" (str "yes")
                        (field "passed" (bool true) (field "safety_passed" (bool true) end)))))
                ∷ result_document other_digest
                ∷ [])))
            (field "schema_version" (int (pos 2)) end)))))

refused : decode_observer_evaluation toy infinite_document ≡ raise protocol_error
unfolding decode_observer_evaluation require_object require_exact_keys subset keys item get
    require_schema_version items array traverse require_sha256 any_char normalize_json_value
refused = refl

decode_observer_evaluation-protocol_error_example : protocol_error ≡ protocol_error
unfolding nesting array
decode_observer_evaluation-protocol_error_example =
    decode_observer_evaluation-protocol_error toy infinite_document protocol_error (omega arith)
      refused

-- Evidence that is nested deeper than the stack has room for is not a ProtocolError.
abbrev shallow_stack : Platform
shallow_stack = record toy { recursion_room = 2 }

too_deep :
    normalize_json_value shallow_stack (arr (array (arr (array (null ∷ [])) ∷ [])))
    ≡ raise recursion_error
unfolding normalize_json_value array
too_deep = refl

abbrev text_file : String → String → ArtifactFile
text_file path content = record { content = content; executable = false; path = path }

abbrev with_files : List ArtifactFile → Candidate
with_files files = record { artifact = skill files; candidate_id = digest }

abbrev parent_skill : Candidate
parent_skill = with_files (text_file "SKILL.md" "old" ∷ text_file "notes.md" "kept" ∷ [])

abbrev challenger_skill : Candidate
challenger_skill = with_files (text_file "SKILL.md" "new" ∷ text_file "notes.md" "kept" ∷ [])

changes : changed_artifact_paths parent_skill challenger_skill ≡ "SKILL.md" ∷ []
unfolding changed_artifact_paths sort_by filter artifact_file_map put find member
changes = refl

changed_artifact_paths_iff_example :
    (contains "notes.md" (changed_artifact_paths parent_skill challenger_skill) ≡ false) ↔ (
      find "notes.md" (artifact_file_map parent_skill)
      ≡ find "notes.md" (artifact_file_map challenger_skill))
unfolding git_change
changed_artifact_paths_iff_example =
    changed_artifact_paths_iff parent_skill challenger_skill "notes.md" refl
