-- ===== src/Tests/Ledgers.antt =====
-- A ledger of three records, the states along it, and a final run.
use metering.Prelude.{
  none, some, ◌≡◌, refl, ℕ, true, false, List, [], ◌∷◌, ◌++◌, any, any_char, contains, subset,
  filter, String,
}
use metering.Prelude.Int.{pos}
use metering.Runtime.{
  ok, Json, null, str, int, Fields, field, end, traverse, get, has_key, without, keys, items, array,
}
use metering.Runtime.Dict.{find, put, member}
use metering.AgentProtocol.{
  require_object, require_nonempty_array, item, is_text, get_is_text, require_exact_keys,
  require_utf8, require_nonempty_string, require_sha256, require_bool, canonical_json,
  canonical_digest, require_same_json, finite_number, probability, normalize_json_value,
}
use metering.AgentProtocol.Artifact.{
  default, decode_candidate, decode_agent_artifact, artifact_digest,
}
use metering.Journal.{content_record, validate_content_record}
use metering.Population.Schema.{
  configuration_json, normalize_configuration, is_int, in_texts, parent_ids, decode_variation,
  require_population_schema, nonnegative_integer, resources, positive_integer,
}
use metering.Population.Types.{PopulationState, head_id, final, Experiment}
use metering.Population.Candidates.{normalize_candidate_body, require_known}
use metering.Population.State.{
  new_state, apply_record, empty_state, header_fields, apply_body, apply_candidate,
  apply_experiment, apply_run, checked_record_id, refuse_sealed,
}
use metering.Population.State.Ledger.{
  initialize, append_validated_record, load_state, replay, next_fields,
}
use metering.Population.State.Replay.{load_state-records, load_state-append_validated_record}
use metering.Population.Experiments.{experiment_digest, normalize_experiment_body, experiment_spec}
use metering.Population.State.Scores.{AllScored, load_state-AllScored}
use metering.Population.State.Lineage.{IsLineage, load_state-IsLineage}
use metering.Population.State.Seal.{SameSearch, replay-SameSearch}
use metering.Population.Runs.{run_digest, normalize_run_body}
use metering.Population.Evidence.{
  run_evidence, decode_task, normalize_distribution, information_model, within,
}
use metering.Information.Measures.{self_information, entropy}
use metering.Information.{distribution, validated_base, validated_probability}
use metering.Tests.Samples.{
  toy, configuration, candidate_document, run_document, digest, costs, experiment_document,
}

-- A record of the ledger.
abbrev pub entry : String → ℕ → Json ℕ → Fields ℕ
entry kind n body = field "record_id" (str digest) (
    field "body" body (
      field "kind" (str kind) (
        field "parent_record_id" (str digest)
          (field "schema_version" (int (pos 1)) (field "sequence" (int (pos n)) end)))))

abbrev pub header : Fields ℕ
header = field "record_id" (str digest) (
    field "configuration" (configuration_json toy configuration) (
      field "kind" (str "population")
        (field "schema_version" (int (pos 1)) (field "sequence" (int (pos 0)) end))))

abbrev pub empty_population : PopulationState ℕ
unfolding empty_state
empty_population = empty_state toy configuration header digest

abbrev pub candidate_entry : Fields ℕ
candidate_entry = entry "candidate" 1 candidate_document

abbrev pub ledger : List (Fields ℕ)
ledger = header ∷ candidate_entry ∷ []

abbrev pub with_candidate : PopulationState ℕ
with_candidate = record empty_population {
  records = ledger;
  records_by_id = (digest, candidate_entry) ∷ [];
  candidates = (digest, record { artifact = default; candidate_id = digest }) ∷ [];
  candidate_record_ids = (digest, digest) ∷ [];
  candidate_parents = (digest, []) ∷ [];
}

initialized : initialize toy configuration ≡ ok (header ∷ [])
unfolding initialize content_record has_key metering.Population.State.header_fields canonical_digest
    configuration_json
initialized = refl

loaded_header : load_state toy (header ∷ []) ≡ ok empty_population
unfolding load_state replay new_state require_exact_keys item get subset keys contains get_is_text
    require_population_schema is_int normalize_configuration require_object configuration_json
    content_record canonical_digest has_key header_fields require_same_json canonical_json
    require_utf8 empty_state apply_record checked_record_id head_id is_text validate_content_record
    any_char without refuse_sealed in_texts apply_body apply_candidate normalize_candidate_body
    decode_candidate require_sha256 require_nonempty_string parent_ids items array require_known
    decode_variation normalize_json_value member put find finite_number decode_agent_artifact
    artifact_digest
loaded_header = refl

loaded : load_state toy ledger ≡ ok with_candidate
unfolding load_state replay new_state require_exact_keys item get subset keys contains get_is_text
    require_population_schema is_int normalize_configuration require_object configuration_json
    content_record canonical_digest has_key header_fields require_same_json canonical_json
    require_utf8 empty_state apply_record checked_record_id head_id is_text validate_content_record
    any_char without refuse_sealed in_texts apply_body apply_candidate normalize_candidate_body
    decode_candidate require_sha256 require_nonempty_string parent_ids items array require_known
    decode_variation normalize_json_value member put find finite_number decode_agent_artifact
    artifact_digest
loaded = refl

pub appended :
    append_validated_record toy (header ∷ []) true empty_population "candidate" candidate_document
    ≡ ok (with_candidate, ledger)
unfolding append_validated_record next_fields load_state replay new_state require_exact_keys item
    get subset keys contains get_is_text require_population_schema is_int normalize_configuration
    require_object configuration_json content_record canonical_digest has_key header_fields
    require_same_json canonical_json require_utf8 empty_state apply_record checked_record_id head_id
    is_text validate_content_record any_char without refuse_sealed in_texts apply_body
    apply_candidate normalize_candidate_body decode_candidate require_sha256 require_nonempty_string
    parent_ids items array require_known decode_variation normalize_json_value member put find
    finite_number decode_agent_artifact artifact_digest
appended = refl

load_state-records_example : with_candidate.records ≡ ledger
load_state-records_example = load_state-records toy ledger loaded

load_state-append_validated_record_example : load_state toy ledger ≡ ok with_candidate
load_state-append_validated_record_example =
    load_state-append_validated_record toy (header ∷ []) true empty_population "candidate"
      candidate_document loaded_header appended

load_state-IsLineage_example : IsLineage with_candidate
load_state-IsLineage_example = load_state-IsLineage toy ledger loaded

abbrev pub final_experiment : Experiment
final_experiment = record {
  behavior_space = "tested" ∷ [];
  budget = costs 5;
  case_count = 1;
  evaluator_id = digest;
  information_objective = false;
  role = final;
  runtime_id = digest;
  task_set_id = digest;
}

-- The candidate and a final experiment, sealed.
abbrev sealed : PopulationState ℕ
sealed = record with_candidate {
  experiments = (digest, final_experiment) ∷ [];
  experiment_record_ids = (digest, digest) ∷ [];
  final_evaluation_started = true;
}

abbrev run_entry : Fields ℕ
run_entry = entry "run" 2 (run_document "first")

abbrev pub after_run : PopulationState ℕ
after_run = record sealed {
  records = ledger ++ run_entry ∷ [];
  records_by_id = (digest, run_entry) ∷ [];
  runs =
      record {
        evidence = record {
          behavior_distribution = 1 ∷ [];
          cost = costs 5;
          receipt_sha256 = digest;
          receipt_uri = "file:///receipt";
          information_model = none;
          protected_passed = true;
          target_probabilities = 1 ∷ [];
          task = record { case_count = 1; passed_count = 1; safety_failures = 0 };
        };
        measurements = record {
          budget_passed = true;
          information_value_bits = none;
          mean_target_surprisal_bits = record { infinite = false; value = some 0 };
          survival_passed = true;
          task_rate = 1;
        };
        run = record {
          candidate_id = digest;
          experiment_id = digest;
          replicate_id = "first";
          run_id = digest;
          seed = null;
        };
      }
      ∷ [];
  run_record_ids = (digest, digest) ∷ [];
  run_keys = (digest, digest, "first") ∷ [];
  last_run_sequence_by_experiment = (digest, 2) ∷ [];
}

replayed : replay toy sealed (run_entry ∷ []) 2 ≡ ok after_run
unfolding load_state replay new_state require_exact_keys item get subset keys contains get_is_text
    require_population_schema is_int normalize_configuration require_object configuration_json
    content_record canonical_digest has_key header_fields require_same_json canonical_json
    require_utf8 empty_state apply_record checked_record_id head_id is_text validate_content_record
    any_char without refuse_sealed in_texts apply_body apply_candidate normalize_candidate_body
    decode_candidate require_sha256 require_nonempty_string parent_ids items array require_known
    decode_variation normalize_json_value member put find finite_number decode_agent_artifact
    artifact_digest apply_run normalize_run_body run_digest run_evidence resources
    nonnegative_integer decode_task traverse probability self_information validated_base
    validated_probability any normalize_distribution require_nonempty_array entropy distribution
    filter information_model require_bool within
replayed = refl

replay-SameSearch_example : SameSearch sealed after_run
replay-SameSearch_example = replay-SameSearch toy sealed (run_entry ∷ []) 2 refl replayed

-- A ledger of a candidate, a final experiment and a run.
abbrev experiment_entry : Fields ℕ
experiment_entry = entry "experiment" 2 (experiment_document "final")

abbrev pub final_run_entry : Fields ℕ
final_run_entry = entry "run" 3 (run_document "first")

abbrev full_ledger : List (Fields ℕ)
full_ledger = header ∷ candidate_entry ∷ experiment_entry ∷ final_run_entry ∷ []

abbrev pub with_run : PopulationState ℕ
with_run = record after_run {
  records = full_ledger;
  records_by_id = (digest, final_run_entry) ∷ [];
  last_run_sequence_by_experiment = (digest, 3) ∷ [];
}

fully_loaded : load_state toy full_ledger ≡ ok with_run
unfolding load_state replay new_state require_exact_keys item get subset keys contains get_is_text
    require_population_schema is_int normalize_configuration require_object configuration_json
    content_record canonical_digest has_key header_fields require_same_json canonical_json
    require_utf8 empty_state apply_record checked_record_id head_id is_text validate_content_record
    any_char without refuse_sealed in_texts apply_body apply_candidate normalize_candidate_body
    decode_candidate require_sha256 require_nonempty_string parent_ids items array require_known
    decode_variation normalize_json_value member put find finite_number decode_agent_artifact
    artifact_digest apply_run normalize_run_body run_digest run_evidence resources
    nonnegative_integer decode_task traverse probability self_information validated_base
    validated_probability any normalize_distribution require_nonempty_array entropy distribution
    filter information_model require_bool within apply_experiment normalize_experiment_body
    experiment_spec positive_integer experiment_digest
fully_loaded = refl

load_state-AllScored_example : AllScored with_run
load_state-AllScored_example = load_state-AllScored toy full_ledger fully_loaded

-- The final experiment is registered, and no run has sealed the search.
abbrev pub with_final : PopulationState ℕ
with_final = record with_candidate {
  records = header ∷ candidate_entry ∷ experiment_entry ∷ [];
  records_by_id = (digest, experiment_entry) ∷ [];
  experiments = (digest, final_experiment) ∷ [];
  experiment_record_ids = (digest, digest) ∷ [];
}

pub sealed_by_run : replay toy with_final (final_run_entry ∷ []) 3 ≡ ok with_run
unfolding load_state replay new_state require_exact_keys item get subset keys contains get_is_text
    require_population_schema is_int normalize_configuration require_object configuration_json
    content_record canonical_digest has_key header_fields require_same_json canonical_json
    require_utf8 empty_state apply_record checked_record_id head_id is_text validate_content_record
    any_char without refuse_sealed in_texts apply_body apply_candidate normalize_candidate_body
    decode_candidate require_sha256 require_nonempty_string parent_ids items array require_known
    decode_variation normalize_json_value member put find finite_number decode_agent_artifact
    artifact_digest apply_run normalize_run_body run_digest run_evidence resources
    nonnegative_integer decode_task traverse probability self_information validated_base
    validated_probability any normalize_distribution require_nonempty_array entropy distribution
    filter information_model require_bool within apply_experiment normalize_experiment_body
    experiment_spec positive_integer experiment_digest
sealed_by_run = refl
